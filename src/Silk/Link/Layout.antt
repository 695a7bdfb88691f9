-- ===== src/Silk/Link/Layout.antt =====
-- The sections once the entrypoint has moved to the start (linker.rs).
use simulatron.Common.{
  ℕ, zero, suc, ◌+◌, ◌-◌, ◌^◌, ◌<◌, ◌≤◌, ◌≡◌, refl, ap, ◌∙◌, sym, arith, Bool, true, Bool-cases,
  inl, inr, some, List, [], ◌∷◌, ◌++◌, get_elem?, map, length, subst, append_assoc,
  get_elem?-append_left, get_elem?-append_right, get_elem?-lt, get_elem?-map, length-map, false,
  ltb,
}
use simulatron.Silk.Result.{ok, plus_u32}
use simulatron.Silk.Data.{Section}
use simulatron.Silk.Data.Layout.{IsContiguous, end_of, le-end_of, IsPlaced-get_elem?}
use simulatron.Silk.Data.Shift.{
  shift, IsContiguous-left, IsContiguous-right, end_of-append, end_of-shift, shift-IsContiguous,
  append-IsContiguous,
}
use simulatron.Silk.Link.{concatenate, offset_first}
use simulatron.Silk.Link.Image.{
  place, swap_lem, concatenate-append, concatenate-shift, length-concatenate,
}

-- the entrypoint, the sections before it behind it, and those after it
abbrev pub moved : List Section → Section → List Section → List Section
moved before entry after = record entry { start = 0 } ∷ (map (shift entry.length) before ++ after)

pub offset_first_lem :
    (checks : Bool) (offset a : ℕ) (before rest : List Section)
    → IsContiguous a before
    → end_of a before + offset < 2 ^ 32
    → offset_first checks (length before) offset (before ++ rest)
      ≡ ok (map (shift offset) before ++ rest)
unfolding offset_first plus_u32
offset_first_lem checks offset a [] rest h small = refl
offset_first_lem checks offset a (s ∷ before) rest h small =
    let fits : ltb (s.start + offset) (2 ^ 32) ≡ true =
      ground (arith, le-end_of (a + s.length) before, h.0) in
    rw (fits, offset_first_lem checks offset (a + s.length) before rest h.2 small) refl

-- A reference to four bytes within one section, by the sections' places alone.
pub record IsSpot (sections : List Section) (reference : ℕ) : Type 0 where
  pub index : ℕ
  pub section : Section
  pub found : get_elem? sections index ≡ some section
  pub from : section.start ≤ reference
  pub upto : reference + 4 ≤ section.start + section.length

module _ (before : List Section) (entry : Section) (after : List Section)
    (layout : IsContiguous 0 (before ++ entry ∷ after)) where
  pub entry_start : entry.start ≡ end_of 0 before
  entry_start = (IsContiguous-right 0 before (entry ∷ after) layout).0

  pub end_of-moved : end_of 0 (moved before entry after) ≡ end_of 0 (before ++ entry ∷ after)
  end_of-moved =
      end_of-append (0 + entry.length) (map (shift entry.length) before) after
      ∙ ap (λ a. end_of a after) (end_of-shift entry.length 0 before)
      ∙ sym (end_of-append 0 before (entry ∷ after))

  pub moved-IsContiguous : IsContiguous 0 (moved before entry after)
  moved-IsContiguous =
      let later = IsContiguous-right 0 before (entry ∷ after) layout in
      (
        refl,
        later.1,
        append-IsContiguous (0 + entry.length) (map (shift entry.length) before) after
            (shift-IsContiguous entry.length 0 before
              (IsContiguous-left 0 before (entry ∷ after) layout))
            (subst (λ a. IsContiguous a after) (sym (end_of-shift entry.length 0 before)) later.2),
      )

  pub concatenate-moved :
      concatenate (moved before entry after)
      ≡ entry.bytes ++ concatenate before ++ concatenate after
  unfolding concatenate
  concatenate-moved =
      ap (λ bytes. entry.bytes ++ bytes)
        (concatenate-append (map (shift entry.length) before) after
          ∙ ap (λ bytes. bytes ++ concatenate after) (concatenate-shift entry.length before))
      ∙ sym (append_assoc entry.bytes (concatenate before) (concatenate after))

  concatenate-split :
      concatenate (before ++ entry ∷ after) ≡ concatenate before ++ entry.bytes ++ concatenate after
  unfolding concatenate
  concatenate-split =
      concatenate-append before (entry ∷ after)
      ∙ sym (append_assoc (concatenate before) entry.bytes (concatenate after))

  -- Each byte of the sections is found at its new address.
  pub content :
      (v : ℕ)
      → get_elem? (concatenate (moved before entry after)) (place entry.start entry.length v)
        ≡ get_elem? (concatenate (before ++ entry ∷ after)) v
  content v =
      let later = IsContiguous-right 0 before (entry ∷ after) layout in
      let earlier =
        length-concatenate 0 before (IsContiguous-left 0 before (entry ∷ after) layout) in
      let cutoff : entry.start ≡ length (concatenate before) =
        omega (arith, entry_start, earlier) in
      rw (concatenate-moved, concatenate-split, cutoff, sym later.1)
        (swap_lem (concatenate before) entry.bytes (concatenate after) v)

  -- a spot keeps clear of the edges of the entrypoint
  moved_before-IsSpot :
      (index r : ℕ) (s : Section)
      → get_elem? before index ≡ some s
      → s.start ≤ r
      → r + 4 ≤ s.start + s.length
      → IsSpot (moved before entry after) (place entry.start entry.length r)
  moved_before-IsSpot index r s e from upto =
      let h = IsContiguous-left 0 before (entry ∷ after) layout in
      let p = IsPlaced-get_elem? 0 before index s h e in
      let low : ltb r entry.start ≡ true = ground (arith, p.before, entry_start) in
      let shifts = map (shift entry.length) before in
      rw low (record {
        index = suc index;
        section = shift entry.length s;
        found =
            get_elem?-append_left shifts after index
              (omega (arith, get_elem?-lt before index s e, length-map (shift entry.length) before))
            ∙ get_elem?-map (shift entry.length) before index s e;
        from = omega arith;
        upto = omega arith;
      })

  moved_after-IsSpot :
      (index r : ℕ) (s : Section)
      → get_elem? after index ≡ some s
      → s.start ≤ r
      → r + 4 ≤ s.start + s.length
      → IsSpot (moved before entry after) (place entry.start entry.length r)
  moved_after-IsSpot index r s e from upto =
      let h = IsContiguous-right 0 before (entry ∷ after) layout in
      let p = IsPlaced-get_elem? (end_of 0 before + entry.length) after index s h.2 e in
      let high : ltb r entry.start ≡ false = ground (arith, p.after, entry_start) in
      let higher : ltb r (entry.start + entry.length) ≡ false =
        ground (arith, p.after, entry_start) in
      let shifts = map (shift entry.length) before in
      rw (high, higher)
        (record {
          index = suc (length before + index);
          section = s;
          found =
              get_elem?-append_right shifts after (length before + index) index
                (omega (arith, length-map (shift entry.length) before))
              ∙ e;
          from = from;
          upto = upto;
        })

  moved-entry-IsSpot :
      (r : ℕ)
      → entry.start ≤ r
      → r + 4 ≤ entry.start + entry.length
      → IsSpot (moved before entry after) (place entry.start entry.length r)
  moved-entry-IsSpot r from upto =
      let high : ltb r entry.start ≡ false = ground arith in
      let within : ltb r (entry.start + entry.length) ≡ true = ground arith in
      rw (high, within)
        (record {
          index = 0;
          section = record entry { start = 0 };
          found = refl;
          from = omega arith;
          upto = omega arith;
        })

  pub moved-IsSpot :
      (r : ℕ)
      → IsSpot (before ++ entry ∷ after) r
      → IsSpot (moved before entry after) (place entry.start entry.length r)
  moved-IsSpot r spot = elim (Bool-cases (ltb spot.index (length before))) [
    | inl low ↦
        moved_before-IsSpot spot.index r spot.section
          (sym (get_elem?-append_left before (entry ∷ after) spot.index (ground arith))
            ∙ spot.found)
          spot.from spot.upto
    | inr high ↦ step (spot.index - length before) (
        sym (
          get_elem?-append_right before (entry ∷ after) spot.index (spot.index - length before)
            (ground arith))
        ∙ spot.found)
  ]
    where
      step :
          (j : ℕ)
          → get_elem? (entry ∷ after) j ≡ some spot.section
          → IsSpot (moved before entry after) (place entry.start entry.length r)
      step zero e =
          let same : entry ≡ spot.section = cc in
          moved-entry-IsSpot r (subst (λ s. Section.start s ≤ r) (sym same) spot.from)
            (subst (λ s. r + 4 ≤ Section.start s + Section.length s) (sym same) spot.upto)
      step (suc j) e = moved_after-IsSpot j r spot.section e spot.from spot.upto

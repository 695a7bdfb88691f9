-- ===== src/Silk/Link/Zones.antt =====
-- References keep apart from one another, and from other bytes, when the entrypoint moves (linker.rs).
use simulatron.Common.{
  ℕ, zero, suc, ◌+◌, ◌-◌, ◌<◌, ◌≤◌, ◌≡◌, ◌⊎◌, ap, ◌∙◌, sym, arith, Bool-cases, inl, inr, some, List,
  [], ◌∷◌, ◌++◌, get_elem?, map, length, subst, ltb, All, get_elem?-lt,
}
use simulatron.Silk.Object.{Zeros, IsTarget}
use simulatron.Silk.Data.{Section}
use simulatron.Silk.Data.Layout.{IsContiguous, IsPlaced-get_elem?, get_elem?-ordered}
use simulatron.Silk.Link.{concatenate}
use simulatron.Silk.Link.Image.{place}
use simulatron.Silk.Link.Layout.{moved, IsSpot, content}
use simulatron.Silk.Link.Patch.{IsApart, AreApart}

-- Four bytes that do not straddle an edge of the entrypoint.
abbrev pub IsZoned : ℕ → ℕ → ℕ → Type 0
IsZoned cutoff offset r =
    (r + 4 ≤ cutoff) ⊎ ((cutoff ≤ r) × (r + 4 ≤ cutoff + offset)) ⊎ (cutoff + offset ≤ r)

place-IsApart :
    (cutoff offset a b : ℕ)
    → IsZoned cutoff offset a
    → IsZoned cutoff offset b
    → IsApart a b
    → IsApart (place cutoff offset a) (place cutoff offset b)
place-IsApart cutoff offset a b h k apart = ground arith

pub place_outside :
    (cutoff offset i r : ℕ)
    → IsZoned cutoff offset r
    → (i < r) ⊎ (r + 4 ≤ i)
    → (place cutoff offset i < place cutoff offset r)
      ⊎ (place cutoff offset r + 4 ≤ place cutoff offset i)
place_outside cutoff offset i r h away = ground arith

place_add :
    (cutoff offset r k : ℕ)
    → IsZoned cutoff offset r
    → k < 4
    → place cutoff offset (r + k) ≡ place cutoff offset r + k
place_add cutoff offset r k h l = ground arith

place-All :
    (cutoff offset a : ℕ) (bs : List ℕ)
    → IsZoned cutoff offset a
    → All (IsZoned cutoff offset) bs
    → All (IsApart a) bs
    → All (IsApart (place cutoff offset a)) (map (place cutoff offset) bs)
place-All cutoff offset a [] h k apart = tt
place-All cutoff offset a (b ∷ bs) h k apart =
    (place-IsApart cutoff offset a b h k.0 apart.0, place-All cutoff offset a bs h k.1 apart.1)

pub place-AreApart :
    (cutoff offset : ℕ) (references : List ℕ)
    → All (IsZoned cutoff offset) references
    → AreApart references
    → AreApart (map (place cutoff offset) references)
place-AreApart cutoff offset [] h apart = tt
place-AreApart cutoff offset (a ∷ references) h apart = (
  place-All cutoff offset a references h.0 h.1 apart.0,
  place-AreApart cutoff offset references h.1 apart.1,
)

pub target-IsSpot :
    (sections : List Section) (r : ℕ)
    → IsContiguous 0 sections
    → IsTarget sections r
    → IsSpot sections r
target-IsSpot sections r h t =
    let p = IsPlaced-get_elem? 0 sections t.index t.section h t.found in
    let k : ℕ = r - t.section.start in
    let last : k + 1 + 1 + 1 < length t.section.bytes =
      get_elem?-lt t.section.bytes (k + 1 + 1 + 1) 0 (t.zeros.1.1.1.0) in
    record {
      index = t.index;
      section = t.section;
      found = t.found;
      from = t.from;
      upto = omega (arith, last, p.whole, t.from);
    }

pub spot-IsZoned :
    (sections : List Section) (i : ℕ) (entry : Section) (r : ℕ)
    → IsContiguous 0 sections
    → get_elem? sections i ≡ some entry
    → IsSpot sections r
    → IsZoned entry.start entry.length r
spot-IsZoned sections i entry r h e spot = elim (Bool-cases (ltb spot.index i)) [
  | inl low ↦ inl (
      omega (
        arith,
        spot.upto,
        get_elem?-ordered 0 sections spot.index i spot.section entry h (ground arith) spot.found e,
      ))
  | inr high ↦ elim (Bool-cases (ltb i spot.index)) [
    | inl lower ↦ inr (
        inr (
          omega (
            arith,
            spot.from,
            get_elem?-ordered 0 sections i spot.index entry spot.section h (ground arith) e
                spot.found,
          )))
    | inr higher ↦
        let at : i ≡ spot.index = ground arith in
        let same : spot.section ≡ entry = cc in
        inr (
          inl (
            subst (λ s. Section.start s ≤ r) same spot.from,
            subst (λ (s : Section). r + 4 ≤ s.start + s.length) same spot.upto,
          ))
  ]
]

-- Zero bytes within a zone are zero at their new address.
pub moved-Zeros :
    (before : List Section) (entry : Section) (after : List Section) (r k n : ℕ)
    → IsContiguous 0 (before ++ entry ∷ after)
    → IsZoned entry.start entry.length r
    → k + n ≤ 4
    → Zeros (concatenate (before ++ entry ∷ after)) (r + k) n
    → Zeros (concatenate (moved before entry after)) (place entry.start entry.length r + k) n
moved-Zeros before entry after r k zero h zone l z = tt
moved-Zeros before entry after r k (suc n) h zone l z =
    let swap : r + k + 1 ≡ r + (k + 1) = omega arith in
    let swap' : place entry.start entry.length r + (k + 1)
        ≡ place entry.start entry.length r + k + 1 =
      omega arith in
    (
      ap (λ (i : ℕ). get_elem? (concatenate (moved before entry after)) i)
            (sym (place_add entry.start entry.length r k zone (omega arith)))
          ∙ content before entry after h (r + k)
          ∙ z.0,
      subst (λ (i : ℕ). Zeros (concatenate (moved before entry after)) i n) swap'
          (moved-Zeros before entry after r (k + 1) n h zone (omega arith)
            (subst (λ (i : ℕ). Zeros (concatenate (before ++ entry ∷ after)) i n) swap z.1)),
    )

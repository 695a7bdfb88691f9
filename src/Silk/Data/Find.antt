-- ===== src/Silk/Data/Find.antt =====
-- The search for the section that contains an address (data.rs).
use Prim.Native.Nat.{Ordering}
use simulatron.Common.{
  ℕ, zero, suc, ◌+◌, ◌-◌, ◌/◌, ◌^◌, ◌<◌, ◌≤◌, ◌≡◌, arith, Bool, Option, none, some, List, get_elem?,
  length, get_elem?-lt, get_elem?-some, ltb, if◌then◌else◌, Bool-cases, inl, inr,
}
use simulatron.Silk.Result.{Result, ok, plus_u32}
use simulatron.Silk.Data.{Section, compare_address, search_loop, find}
use simulatron.Silk.Data.Layout.{IsContiguous, end_of, IsPlaced-get_elem?, get_elem?-ordered}

-- an address within a section
abbrev pub Contains : Section → ℕ → Type 0
Contains s address = (s.start ≤ address) × (address < s.start + s.length)

-- What a search should come to: the index of a section that contains the address, or none where
-- no section does.
abbrev pub IsFound : List Section → ℕ → Result (Option ℕ) → Type 0
IsFound sections address (ok none) =
    (k : ℕ) (s : Section) → get_elem? sections k ≡ some s → ¬ Contains s address
IsFound sections address (ok (some i)) =
    (s : Section) × (get_elem? sections i ≡ some s) × Contains s address
IsFound sections address _ = ⊥

module _ (checks : Bool) (a : ℕ) (sections : List Section) (address : ℕ)
    (layout : IsContiguous a sections) (small : end_of a sections < 2 ^ 32) where
  -- sections before `left` end too early and sections from `right` on start too late
  record IsRange (left right : ℕ) : Type 0 where
    bound : right ≤ length sections
    early :
        (k : ℕ) (s : Section)
        → k < left
        → get_elem? sections k ≡ some s
        → s.start + s.length ≤ address
    late : (k : ℕ) (s : Section) → right ≤ k → get_elem? sections k ≡ some s → address < s.start

  raise_left :
      (left right mid : ℕ) (s : Section)
      → IsRange left right
      → get_elem? sections mid ≡ some s
      → s.start + s.length ≤ address
      → IsRange (mid + 1) right
  raise_left left right mid s r e h = record {
    bound = r.bound;
    early = λ k t l f. ground (arith, get_elem?-ordered a sections k mid t s);
    late = r.late;
  }

  lower_right :
      (left right mid : ℕ) (s : Section)
      → IsRange left right
      → mid < right
      → get_elem? sections mid ≡ some s
      → address < s.start
      → IsRange left mid
  lower_right left right mid s r l e h = record {
    bound = omega (arith, r.bound);
    early = r.early;
    late = λ k t l f. ground (arith, get_elem?-ordered a sections mid k s t);
  }

  nothing :
      (left right : ℕ) → IsRange left right → right ≤ left → IsFound sections address (ok none)
  nothing left right r h k s e c = elim (Bool-cases (ltb k left)) [
    | inl low ↦ absurd (ground (arith, r.early k s, low))
    | inr high ↦ absurd (ground (arith, r.late k s, high))
  ]

  -- comparing with a section
  probe_lem :
      (s : Section)
      → s.start + s.length < 2 ^ 32
      → compare_address checks s address
        ≡ ok (
            if ltb address s.start
            then Ordering.gt
            else if ltb address (s.start + s.length)
            then Ordering.eq
            else Ordering.lt)
  unfolding compare_address plus_u32
  probe_lem s h = ground arith

  after_probe :
      (left right mid : ℕ) (s : Section) (upper lower : Result (Option ℕ))
      → IsRange left right
      → mid < right
      → get_elem? sections mid ≡ some s
      → (IsRange (mid + 1) right → IsFound sections address upper)
      → (IsRange left mid → IsFound sections address lower)
      → IsFound sections address
          (elim (if ltb address s.start
              then Ordering.gt
              else if ltb address (s.start + s.length)
              then Ordering.eq
              else Ordering.lt)
            as (λ _. Result (Option ℕ)) [
              | Ordering.lt ↦ upper
              | Ordering.eq ↦ ok (some mid)
              | Ordering.gt ↦ lower
            ])
  after_probe left right mid s upper lower r l e u d = elim (Bool-cases (ltb address s.start)) [
    | inl low ↦ rw low (d (lower_right left right mid s r l e (ground arith)))
    | inr high ↦ rw high (elim (Bool-cases (ltb address (s.start + s.length))) [
      | inl within ↦ rw within (s, e, ground arith)
      | inr beyond ↦ rw beyond (u (raise_left left right mid s r e (ground arith)))
    ])
  ]

  loop_lem :
      (fuel left right : ℕ)
      → left ≤ right
      → right < fuel + left
      → IsRange left right
      → IsFound sections address (search_loop checks fuel sections address left right)
  unfolding search_loop
  loop_lem zero left right o h r = absurd (omega arith)
  loop_lem (suc fuel) left right o h r = elim (Bool-cases (ltb left right)) [
    | inl more ↦
        let mid : ℕ = left + (right - left) / 2 in
        let here : mid < right = ground arith in
        let (s, e) = get_elem?-some sections mid (omega (arith, r.bound)) in
        let fits : s.start + s.length < 2 ^ 32 =
          omega (arith, (IsPlaced-get_elem? a sections mid s layout e).before) in
        rw (more, e, probe_lem s fits)
          (after_probe left right mid s _ _ r here e
            (λ r'. loop_lem fuel (mid + 1) right (omega arith) (omega arith) r')
            (λ r'. loop_lem fuel left mid (omega arith) (omega arith) r'))
    | inr done ↦ rw done (nothing left right r (ground arith))
  ]

  -- In sections that follow one another and end below 2 ^ 32, with or without overflow checks, the
  -- binary search for an address terminates without a panic. It gives the index of a section that
  -- contains the address, or nothing where no section does.
  pub find-IsFound : IsFound sections address (find checks sections address)
  unfolding find
  find-IsFound =
      loop_lem (length sections + 1) 0 (length sections) (omega arith) (omega arith) (record {
        bound = omega arith;
        early = λ k s l e. absurd (omega arith);
        late = λ k s l e. absurd (omega (arith, get_elem?-lt sections k s e));
      })

-- ===== src/Silk/Link/Sections.antt =====
-- Writing into a section is writing into the image (linker.rs).
use simulatron.Common.{
  ℕ, zero, suc, ◌+◌, ◌-◌, ◌^◌, ◌<◌, ◌≤◌, ◌≡◌, refl, ap, ◌∙◌, sym, arith, Bool, ltb, Bool-cases, inl,
  inr, Option, some, none, List, [], ◌∷◌, ◌++◌, get_elem?, length, set, subst,
  get_elem?-append_left, get_elem?-append_right, get_elem?-lt,
}
use simulatron.Silk.Result.{Result, ok, err, panic, unwrap, ◌>>=◌}
use simulatron.Silk.Object.{Zeros}
use simulatron.Silk.Data.{Section, find}
use simulatron.Silk.Data.Layout.{IsContiguous, end_of, IsPlaced-get_elem?, get_elem?-ordered}
use simulatron.Silk.Data.Find.{Contains, IsFound, find-IsFound}
use simulatron.Silk.Link.{concatenate, write_bytes, expect_section}
use simulatron.Silk.Link.Patch.{
  overwrite, overwrite-append_left, overwrite-append_right, Zeros-overwrite,
}

-- a section with other bytes
abbrev pub with_bytes : Section → List ℕ → Section
with_bytes s bytes = record s { bytes = bytes }

pub concatenate-set :
    (a : ℕ) (sections : List Section) (i : ℕ) (s : Section) (j k : ℕ) (bytes : List ℕ)
    → IsContiguous a sections
    → get_elem? sections i ≡ some s
    → j + a ≡ s.start + k
    → k + length bytes ≤ s.length
    → concatenate (set sections i (with_bytes s (overwrite s.bytes k bytes)))
      ≡ overwrite (concatenate sections) j bytes
unfolding concatenate
concatenate-set a [] i s j k bytes h e at fits = cc
concatenate-set a (t ∷ sections) zero s j k bytes h e at fits =
    let same : t ≡ s = cc in
    let here : j ≡ k = omega (arith, subst (λ u. Section.start u ≡ a) same h.0) in
    rw (here, same)
      (sym (
        overwrite-append_left s.bytes (concatenate sections) k bytes
          (omega (arith, subst (λ (u : Section). length u.bytes ≡ u.length) same h.1))))
concatenate-set a (t ∷ sections) (suc i) s j k bytes h e at fits =
    let p = IsPlaced-get_elem? (a + t.length) sections i s h.2 e in
    ap (λ rest. t.bytes ++ rest)
      (concatenate-set (a + t.length) sections i s (j - t.length) k bytes h.2 e
        (omega (arith, p.after)) fits)
    ∙ sym (
        overwrite-append_right t.bytes (concatenate sections) j (j - t.length) bytes
          (omega (arith, p.after, h.1)))

pub concatenate-get_elem? :
    (a : ℕ) (sections : List Section) (i : ℕ) (s : Section) (j k : ℕ)
    → IsContiguous a sections
    → get_elem? sections i ≡ some s
    → j + a ≡ s.start + k
    → k < s.length
    → get_elem? (concatenate sections) j ≡ get_elem? s.bytes k
unfolding concatenate
concatenate-get_elem? a [] i s j k h e at fits = cc
concatenate-get_elem? a (t ∷ sections) zero s j k h e at fits =
    let same : t ≡ s = cc in
    let here : j ≡ k = omega (arith, subst (λ u. Section.start u ≡ a) same h.0) in
    rw (here, same)
      (get_elem?-append_left s.bytes (concatenate sections) k
        (omega (arith, subst (λ (u : Section). length u.bytes ≡ u.length) same h.1)))
concatenate-get_elem? a (t ∷ sections) (suc i) s j k h e at fits =
    let p = IsPlaced-get_elem? (a + t.length) sections i s h.2 e in
    get_elem?-append_right t.bytes (concatenate sections) j (j - t.length)
      (omega (arith, p.after, h.1))
    ∙ concatenate-get_elem? (a + t.length) sections i s (j - t.length) k h.2 e
        (omega (arith, p.after)) fits

pub set-IsContiguous :
    (a : ℕ) (sections : List Section) (i : ℕ) (s : Section) (bytes : List ℕ)
    → IsContiguous a sections
    → get_elem? sections i ≡ some s
    → length bytes ≡ s.length
    → IsContiguous a (set sections i (with_bytes s bytes))
      × (end_of a (set sections i (with_bytes s bytes)) ≡ end_of a sections)
set-IsContiguous a [] i s bytes h e l = cc
set-IsContiguous a (t ∷ sections) zero s bytes h e l =
    let same : t ≡ s = cc in
    let longer : s.length ≡ t.length = ap Section.length (sym same) in
    (
      (
        subst (λ u. Section.start u ≡ a) same h.0,
        l,
        subst (λ (n : ℕ). IsContiguous (a + n) sections) (sym longer) h.2,
      ),
      ap (λ (n : ℕ). end_of (a + n) sections) longer,
    )
set-IsContiguous a (t ∷ sections) (suc i) s bytes h e l =
    let (c, d) = set-IsContiguous (a + t.length) sections i s bytes h.2 e l in ((h.0, h.1, c), d)

-- zero bytes of the image that lie within one section
pub section-Zeros :
    (sections : List Section) (i : ℕ) (s : Section) (r k n : ℕ)
    → IsContiguous 0 sections
    → get_elem? sections i ≡ some s
    → r ≡ s.start + k
    → k + n ≤ s.length
    → Zeros (concatenate sections) r n
    → Zeros s.bytes k n
section-Zeros sections i s r k zero h e at fits z = tt
section-Zeros sections i s r k (suc n) h e at fits z = (
  sym (concatenate-get_elem? 0 sections i s r k h e (omega arith) (omega arith)) ∙ z.0,
  section-Zeros sections i s (r + 1) (k + 1) n h e (omega arith) (omega arith) z.1,
)

-- The same the other way round.
pub concatenate-Zeros :
    (sections : List Section) (i : ℕ) (s : Section) (r k n : ℕ)
    → IsContiguous 0 sections
    → get_elem? sections i ≡ some s
    → r ≡ s.start + k
    → Zeros s.bytes k n
    → Zeros (concatenate sections) r n
concatenate-Zeros sections i s r k zero h e at z = tt
concatenate-Zeros sections i s r k (suc n) h e at z =
    let p = IsPlaced-get_elem? 0 sections i s h e in
    (
      concatenate-get_elem? 0 sections i s r k h e (omega arith)
            (omega (arith, get_elem?-lt s.bytes k 0 z.0, p.whole))
          ∙ z.0,
      concatenate-Zeros sections i s (r + 1) (k + 1) n h e (omega arith) z.1,
    )

pub write_bytes_lem :
    (target : List ℕ) (offset : ℕ) (bytes : List ℕ)
    → Zeros target offset (length bytes)
    → write_bytes target offset bytes ≡ ok (overwrite target offset bytes)
unfolding write_bytes
write_bytes_lem target offset [] z = refl
write_bytes_lem target offset (b ∷ bytes) z = rw (z.0) (
    write_bytes_lem (set target offset b) (offset + 1) bytes
      (Zeros-overwrite target offset (offset + 1) (length bytes) (b ∷ []) (inl (omega arith)) z.1))

-- Two sections that contain one address are one.
Contains-unique :
    (sections : List Section) (i j : ℕ) (s t : Section) (r : ℕ)
    → IsContiguous 0 sections
    → get_elem? sections i ≡ some s
    → get_elem? sections j ≡ some t
    → Contains s r
    → Contains t r
    → i ≡ j
Contains-unique sections i j s t r h e f c d = elim (Bool-cases (ltb i j)) [
  | inl low ↦ absurd (omega (arith, get_elem?-ordered 0 sections i j s t h (ground arith) e f))
  | inr high ↦ elim (Bool-cases (ltb j i)) [
    | inl lower ↦ absurd (omega (arith, get_elem?-ordered 0 sections j i t s h (ground arith) f e))
    | inr higher ↦ ground arith
  ]
]

pub expect_section_lem :
    (checks : Bool) (sections : List Section) (r i : ℕ) (s : Section)
    → IsContiguous 0 sections
    → end_of 0 sections < 2 ^ 32
    → get_elem? sections i ≡ some s
    → Contains s r
    → expect_section checks sections r ≡ ok (i, s)
unfolding expect_section
expect_section_lem checks sections r i s h small e c =
    step (find checks sections r) (find-IsFound checks 0 sections r h small)
  where
    step :
        (found : Result (Option ℕ))
        → IsFound sections r found
        → (found >>= λ o. unwrap o >>= λ index. unwrap (get_elem? sections index) >>= λ section.
            let pair : ℕ × Section = (index, section) in ok pair)
          ≡ ok (i, s)
    step (ok none) f = absurd (f i s e c)
    step (ok (some j)) (t, g, d) =
        let same : j ≡ i = Contains-unique sections j i t s r h g e d c in rw (same, e) refl
    step (err _) f = absurd f
    step panic f = absurd f

-- ===== src/Silk/Data/Layout.antt =====
-- Sections that follow one another without gaps (data.rs).
use simulatron.Common.{
  ℕ, zero, suc, ◌+◌, ◌<◌, ◌≤◌, ◌≡◌, arith, some, List, [], ◌∷◌, get_elem?, length,
}
use simulatron.Silk.Data.{Section}

-- From address `a` on, each section starts where the one before it ends, and is as long as its
-- bytes.
abbrev pub IsContiguous : ℕ → List Section → Type 0
IsContiguous a [] = Unit
IsContiguous a (s ∷ sections) =
    (s.start ≡ a) × (length s.bytes ≡ s.length) × IsContiguous (a + s.length) sections

-- where such sections end
abbrev pub end_of : ℕ → List Section → ℕ
end_of a [] = a
end_of a (s ∷ sections) = end_of (a + s.length) sections

pub le-end_of : (a : ℕ) (sections : List Section) → a ≤ end_of a sections
le-end_of a [] = omega arith
le-end_of a (s ∷ sections) = omega (arith, le-end_of (a + s.length) sections)

-- the place of a section
pub record IsPlaced (a : ℕ) (end : ℕ) (s : Section) : Type 0 where
  pub after : a ≤ s.start
  pub whole : length s.bytes ≡ s.length
  pub before : s.start + s.length ≤ end

pub IsPlaced-get_elem? :
    (a : ℕ) (sections : List Section) (k : ℕ) (s : Section)
    → IsContiguous a sections
    → get_elem? sections k ≡ some s
    → IsPlaced a (end_of a sections) s
IsPlaced-get_elem? a [] k s h e = cc
IsPlaced-get_elem? a (t ∷ sections) zero s h e = ground (arith, le-end_of (a + t.length) sections)
IsPlaced-get_elem? a (t ∷ sections) (suc k) s h e =
    let p : IsPlaced (a + t.length) (end_of (a + t.length) sections) s =
      IsPlaced-get_elem? (a + t.length) sections k s h.2 e in
    record { after = omega (arith, p.after); whole = p.whole; before = p.before }

pub get_elem?-ordered :
    (a : ℕ) (sections : List Section) (i j : ℕ) (s t : Section)
    → IsContiguous a sections
    → i < j
    → get_elem? sections i ≡ some s
    → get_elem? sections j ≡ some t
    → s.start + s.length ≤ t.start
get_elem?-ordered a [] i j s t h l e f = cc
get_elem?-ordered a (u ∷ sections) i zero s t h l e f = absurd (omega arith)
get_elem?-ordered a (u ∷ sections) zero (suc j) s t h l e f =
    ground (arith, (IsPlaced-get_elem? (a + u.length) sections j t h.2 f).after)
get_elem?-ordered a (u ∷ sections) (suc i) (suc j) s t h l e f =
    get_elem?-ordered (a + u.length) sections i j s t h.2 (omega arith) e f

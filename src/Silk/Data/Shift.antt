-- ===== src/Silk/Data/Shift.antt =====
-- Contiguous sections: appended, split, and moved by an offset (data.rs).
use simulatron.Common.{ℕ, ◌+◌, ◌≡◌, refl, ap, ◌∙◌, arith, List, [], ◌∷◌, ◌++◌, map, subst}
use simulatron.Silk.Data.{Section}
use simulatron.Silk.Data.Layout.{IsContiguous, end_of}

pub end_of-append : (a : ℕ) (xs ys : List Section) → end_of a (xs ++ ys) ≡ end_of (end_of a xs) ys
end_of-append a [] ys = refl
end_of-append a (s ∷ xs) ys = end_of-append (a + s.length) xs ys

pub append-IsContiguous :
    (a : ℕ) (xs ys : List Section)
    → IsContiguous a xs
    → IsContiguous (end_of a xs) ys
    → IsContiguous a (xs ++ ys)
append-IsContiguous a [] ys h k = k
append-IsContiguous a (s ∷ xs) ys h k = (h.0, h.1, append-IsContiguous (a + s.length) xs ys h.2 k)

pub IsContiguous-left :
    (a : ℕ) (xs ys : List Section) → IsContiguous a (xs ++ ys) → IsContiguous a xs
IsContiguous-left a [] ys h = tt
IsContiguous-left a (s ∷ xs) ys h = (h.0, h.1, IsContiguous-left (a + s.length) xs ys h.2)

pub IsContiguous-right :
    (a : ℕ) (xs ys : List Section) → IsContiguous a (xs ++ ys) → IsContiguous (end_of a xs) ys
IsContiguous-right a [] ys h = h
IsContiguous-right a (s ∷ xs) ys h = IsContiguous-right (a + s.length) xs ys h.2

-- a section moved by an offset
abbrev pub shift : ℕ → Section → Section
shift offset s = record s { start = s.start + offset }

pub end_of-shift :
    (offset a : ℕ) (xs : List Section)
    → end_of (a + offset) (map (shift offset) xs) ≡ end_of a xs + offset
end_of-shift offset a [] = refl
end_of-shift offset a (s ∷ xs) =
    let swap : a + offset + s.length ≡ a + s.length + offset = omega arith in
    ap (λ b. end_of b (map (shift offset) xs)) swap ∙ end_of-shift offset (a + s.length) xs

pub shift-IsContiguous :
    (offset a : ℕ) (xs : List Section)
    → IsContiguous a xs
    → IsContiguous (a + offset) (map (shift offset) xs)
shift-IsContiguous offset a [] h = tt
shift-IsContiguous offset a (s ∷ xs) h =
    let swap : a + s.length + offset ≡ a + offset + s.length = omega arith in
    (
      omega (arith, h.0),
      h.1,
      subst (λ b. IsContiguous b (map (shift offset) xs)) swap
          (shift-IsContiguous offset (a + s.length) xs h.2),
    )

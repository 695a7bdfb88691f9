-- ===== src/Silk/Link/Image.antt =====
-- Where addresses go when the entrypoint moves to the start (linker.rs).
use simulatron.Common.{
  ℕ, ◌+◌, ◌-◌, ◌^◌, ◌<◌, ◌≡◌, refl, ap, ◌∙◌, sym, arith, Bool, Bool-cases, inl, inr, List, [], ◌∷◌,
  ◌++◌, get_elem?, map, length, append_assoc, length-append, get_elem?-append_left,
  get_elem?-append_right, ltb, if◌then◌else◌,
}
use simulatron.Silk.Result.{ok, plus_u32}
use simulatron.Silk.Data.{Section}
use simulatron.Silk.Data.Layout.{IsContiguous, end_of}
use simulatron.Silk.Data.Shift.{shift}
use simulatron.Silk.Link.{concatenate, relocate}

-- The address that a byte has once `offset` bytes from `cutoff` on have moved to the start.
abbrev pub place : ℕ → ℕ → ℕ → ℕ
place cutoff offset v =
    if ltb v cutoff then v + offset else if ltb v (cutoff + offset) then v - cutoff else v

pub relocate-place :
    (checks : Bool) (cutoff offset v : ℕ)
    → cutoff + offset < 2 ^ 32
    → relocate checks cutoff offset v ≡ ok (place cutoff offset v)
unfolding relocate plus_u32
relocate-place checks cutoff offset v small = ground arith

pub concatenate-append :
    (xs ys : List Section) → concatenate (xs ++ ys) ≡ concatenate xs ++ concatenate ys
unfolding concatenate
concatenate-append [] ys = refl
concatenate-append (s ∷ xs) ys =
    ap (λ bytes. s.bytes ++ bytes) (concatenate-append xs ys)
    ∙ sym (append_assoc s.bytes (concatenate xs) (concatenate ys))

pub concatenate-shift :
    (offset : ℕ) (xs : List Section) → concatenate (map (shift offset) xs) ≡ concatenate xs
unfolding concatenate
concatenate-shift offset [] = refl
concatenate-shift offset (s ∷ xs) = ap (λ bytes. s.bytes ++ bytes) (concatenate-shift offset xs)

pub length-concatenate :
    (a : ℕ) (xs : List Section) → IsContiguous a xs → a + length (concatenate xs) ≡ end_of a xs
unfolding concatenate
length-concatenate a [] h = omega arith
length-concatenate a (s ∷ xs) h =
    omega
      (arith, h.1, length-append s.bytes (concatenate xs), length-concatenate (a + s.length) xs h.2)

-- A byte of the middle of three stretches.
middle :
    (xs ys zs : List ℕ) (i j : ℕ)
    → i ≡ length xs + j
    → j < length ys
    → get_elem? (xs ++ ys ++ zs) i ≡ get_elem? ys j
middle xs ys zs i j e h =
    get_elem?-append_left (xs ++ ys) zs i (omega (arith, length-append xs ys))
    ∙ get_elem?-append_right xs ys i j e

first : (xs ys zs : List ℕ) (i : ℕ) → i < length xs → get_elem? (xs ++ ys ++ zs) i ≡ get_elem? xs i
first xs ys zs i h =
    get_elem?-append_left (xs ++ ys) zs i (omega (arith, length-append xs ys))
    ∙ get_elem?-append_left xs ys i h

last :
    (xs ys zs : List ℕ) (i j : ℕ)
    → i ≡ length xs + length ys + j
    → get_elem? (xs ++ ys ++ zs) i ≡ get_elem? zs j
last xs ys zs i j e = get_elem?-append_right (xs ++ ys) zs i j (omega (arith, length-append xs ys))

-- Three stretches of bytes, of which the second moves to the front.
pub swap_lem :
    (xs ys zs : List ℕ) (v : ℕ)
    → get_elem? (ys ++ xs ++ zs) (place (length xs) (length ys) v) ≡ get_elem? (xs ++ ys ++ zs) v
swap_lem xs ys zs v = elim (Bool-cases (ltb v (length xs))) [
  | inl low ↦ rw low (
      middle ys xs zs (v + length ys) v (omega arith) (ground arith)
      ∙ sym (first xs ys zs v (ground arith)))
  | inr high ↦ rw high (elim (Bool-cases (ltb v (length xs + length ys))) [
    | inl within ↦ rw within (
        first ys xs zs (v - length xs) (ground arith)
        ∙ sym (middle xs ys zs v (v - length xs) (ground arith) (ground arith)))
    | inr beyond ↦
        let j : ℕ = v - (length xs + length ys) in
        rw beyond (last ys xs zs v j (ground arith) ∙ sym (last xs ys zs v j (ground arith)))
  ])
]

-- ===== src/Silk/Names/Fresh.antt =====
-- Names that no symbol has yet (linker.rs).
use simulatron.Common.{
  ℕ, zero, suc, ◌+◌, ◌^◌, ◌<◌, ◌≤◌, ◌≡◌, refl, arith, Bool, true, false, Option, none, some, ◌++◌,
  Bool-cases, inl, inr, ltb, subst,
}
use simulatron.Silk.Result.{Result, ok, err, panic, rename_failed}
use simulatron.Silk.Names.{Name, decimal, first_free, gen_non_conflicting_name}

-- a base with a number behind it
abbrev pub numbered : Name → ℕ → Name
numbered base suffix = base ++ decimal 10 suffix

-- The first number from `low` on, below `high`, whose name is free, or none where all are taken.
abbrev pub IsFirst : (Name → Bool) → Name → ℕ → ℕ → Option Name → Type 0
IsFirst taken base low high (some name) =
    (suffix : ℕ) × (suffix < high)
    × (name ≡ numbered base suffix)
    × (taken name ≡ false)
    × ((k : ℕ) → low ≤ k → k < suffix → taken (numbered base k) ≡ true)
IsFirst taken base low high none = (k : ℕ) → low ≤ k → k < high → taken (numbered base k) ≡ true

first_free-IsFirst :
    (taken : Name → Bool) (base : Name) (rounds low high : ℕ)
    → low + rounds ≡ high
    → IsFirst taken base low high (first_free taken base rounds low)
unfolding first_free
first_free-IsFirst taken base zero low high e = λ k l h. absurd (omega arith)
first_free-IsFirst taken base (suc rounds) low high e =
    elim (Bool-cases (taken (numbered base low))) [
      | inl busy ↦ rw busy (
          later busy (first_free taken base rounds (low + 1))
            (first_free-IsFirst taken base rounds (low + 1) high (omega arith)))
      | inr free ↦ rw free (low, omega arith, refl, free, λ k l h. absurd (omega arith))
    ]
  where
    below :
        (suffix : ℕ)
        → taken (numbered base low) ≡ true
        → ((k : ℕ) → low + 1 ≤ k → k < suffix → taken (numbered base k) ≡ true)
        → (k : ℕ) → low ≤ k
        → k < suffix
        → taken (numbered base k) ≡ true
    below suffix busy f k l h = elim (Bool-cases (ltb low k)) [
      | inl above ↦ f k (ground arith) h
      | inr here ↦
          let same : low ≡ k = ground arith in
          subst (λ (i : ℕ). taken (numbered base i) ≡ true) same busy
    ]

    later :
        (busy : taken (numbered base low) ≡ true) (o : Option Name)
        → IsFirst taken base (low + 1) high o
        → IsFirst taken base low high o
    later busy (some name) (suffix, l, e, free, f) = (suffix, l, e, free, below suffix busy f)
    later busy none f = below high busy f

-- A fresh name, or an error where there is none.
abbrev pub IsFresh : (Name → Bool) → Name → Result Name → Type 0
IsFresh taken base (ok name) = IsFirst taken base 0 (2 ^ 32) (some name)
IsFresh taken base (err e) = (e ≡ rename_failed base) × IsFirst taken base 0 (2 ^ 32) none
IsFresh taken base panic = ⊥

-- Renaming gives a name that is not taken, of the base with the least number behind it for which this
-- holds. It fails, without a panic, only where the names with all numbers below 2 ^ 32 are taken.
pub gen_non_conflicting_name-IsFresh :
    (taken : Name → Bool) (base : Name) → IsFresh taken base (gen_non_conflicting_name taken base)
unfolding gen_non_conflicting_name
gen_non_conflicting_name-IsFresh taken base =
    step (first_free taken base (2 ^ 32) 0) (first_free-IsFirst taken base (2 ^ 32) 0 (2 ^ 32) refl)
  where
    step :
        (o : Option Name)
        → IsFirst taken base 0 (2 ^ 32) o
        → IsFresh taken base
            (elim o as (λ _. Result Name) [ none ↦ err (rename_failed base) | some name ↦ ok name ])
    step none f = (refl, f)
    step (some name) f = f

-- ===== src/Common/Bits.antt =====
-- `&` with a field mask and `|` of disjoint fields, as arithmetic at every width.
pub mod Split
use Prim.Native.Nat.{
  ℕ, zero, suc, ◌+◌, ◌-◌, ◌*◌, ◌/◌, ◌%◌, ◌^◌, ◌≤◌, ◌<◌, min, max, bit_and, bit_or, digits,
  bit_and-bitwise, bit_or-bitwise,
}
use mathlib.Core.Path.{◌≡◌, refl, ap, ◌∙◌, sym}
use native.Mathlib.Omega.{arith}
use native.Mathlib.Nat.{
  pow-suc, one-le-pow, mul_comm, add-zero, mul-one, div-one, div-div-eq-div-mul,
}

-- The recursion behind the native operations does not depend on its fuel, once there is enough.
module _ (base : ℕ → ℕ) (op : ℕ → ℕ → ℕ) where
  fuel_irrelevant : (f g a b : ℕ) → a ≤ f → a ≤ g → digits base op f a b ≡ digits base op g a b
  fuel_irrelevant zero zero a b hf hg = refl
  fuel_irrelevant (suc f) (suc g) zero b hf hg = refl
  fuel_irrelevant zero (suc g) zero b hf hg = refl
  fuel_irrelevant (suc f) zero zero b hf hg = refl
  fuel_irrelevant (suc f) (suc g) (suc a) b hf hg =
      omega (arith, fuel_irrelevant f g (suc a / 2) (b / 2) (omega arith) (omega arith))
  fuel_irrelevant zero (suc g) (suc a) b hf hg = absurd (omega arith)
  fuel_irrelevant (suc f) zero (suc a) b hf hg = absurd (omega arith)

zero-and : (b : ℕ) → bit_and 0 b ≡ 0
zero-and b = bit_and-bitwise 0 b

zero-or : (b : ℕ) → bit_or 0 b ≡ b
zero-or b = bit_or-bitwise 0 b

-- One equation for the lowest digit of each operation.
pub and_digit : (a b : ℕ) → bit_and a b ≡ bit_and (a / 2) (b / 2) * 2 + min (a % 2) (b % 2)
and_digit zero b = omega (arith, zero-and b, zero-and (b / 2))
and_digit (suc a) b = omega (
  arith,
  bit_and-bitwise (suc a) b,
  bit_and-bitwise (suc a / 2) (b / 2),
  fuel_irrelevant (λ _. zero) min a (suc a / 2) (suc a / 2) (b / 2) (omega arith) (omega arith),
)

pub or_digit : (a b : ℕ) → bit_or a b ≡ bit_or (a / 2) (b / 2) * 2 + max (a % 2) (b % 2)
or_digit zero b = omega (arith, zero-or b, zero-or (b / 2))
or_digit (suc a) b = omega (
  arith,
  bit_or-bitwise (suc a) b,
  bit_or-bitwise (suc a / 2) (b / 2),
  fuel_irrelevant (λ y. y) max a (suc a / 2) (suc a / 2) (b / 2) (omega arith) (omega arith),
)

and-zero : (n a : ℕ) → a ≤ n → bit_and a 0 ≡ 0
and-zero n zero h = zero-and 0
and-zero zero (suc a) h = absurd (omega arith)
and-zero (suc n) (suc a) h =
    omega (arith, and_digit (suc a) 0, and-zero n (suc a / 2) (omega arith))

pub or-zero : (n a : ℕ) → a ≤ n → bit_or a 0 ≡ a
or-zero n zero h = zero-or 0
or-zero zero (suc a) h = absurd (omega arith)
or-zero (suc n) (suc a) h = omega (arith, or_digit (suc a) 0, or-zero n (suc a / 2) (omega arith))

pub mod-double : (x a : ℕ) → 0 < a → x % (a * 2) ≡ x / 2 % a * 2 + x % 2
mod-double x a h =
    let q : x / (a * 2) ≡ x / 2 / a =
      ap (λ (t : ℕ). x / t) (mul_comm a 2) ∙ sym (div-div-eq-div-mul x 2 a) in
    omega (arith, ap (λ (t : ℕ). a * t) q)

-- A mask of `j` low ones.
pub and_low : (j x : ℕ) → bit_and x (2 ^ j - 1) ≡ x % 2 ^ j
and_low zero x = omega (arith, and-zero x x (omega arith))
and_low (suc j) x =
    let pos : 0 < 2 ^ j = one-le-pow j 2 (omega arith) in
    let half : (2 ^ j * 2 - 1) / 2 ≡ 2 ^ j - 1 = omega arith in
    rw pow-suc (
      omega (
        arith,
        and_digit x (2 ^ j * 2 - 1),
        ap (bit_and (x / 2)) half,
        and_low j (x / 2),
        mod-double x (2 ^ j) pos,
      ))

-- A mask of `j` ones above `k` zeros selects a field of `x`.
pub and_field : (k j x : ℕ) → bit_and x ((2 ^ j - 1) * 2 ^ k) ≡ x / 2 ^ k % 2 ^ j * 2 ^ k
and_field zero j x = rw (mul-one, mul-one, div-one) (and_low j x)
and_field (suc k) j x =
    let mask : (2 ^ j - 1) * (2 ^ k * 2) / 2 ≡ (2 ^ j - 1) * 2 ^ k = omega arith in
    let upper : x / (2 ^ k * 2) ≡ x / 2 / 2 ^ k =
      ap (λ (t : ℕ). x / t) (mul_comm (2 ^ k) 2) ∙ sym (div-div-eq-div-mul x 2 (2 ^ k)) in
    rw (pow-suc, upper)
      (omega (
        arith,
        and_digit x ((2 ^ j - 1) * (2 ^ k * 2)),
        ap (bit_and (x / 2)) mask,
        and_field k j (x / 2),
      ))

-- `|` of a multiple of `2 ^ k` and a number below `2 ^ k` is their sum.
pub or_fields : (k q r : ℕ) → r < 2 ^ k → bit_or (q * 2 ^ k) r ≡ q * 2 ^ k + r
or_fields zero q zero h = rw (mul-one, add-zero) (or-zero q q (omega arith))
or_fields zero q (suc r) h = absurd (omega arith)
or_fields (suc k) q r h =
    let left : q * (2 ^ k * 2) / 2 ≡ q * 2 ^ k = omega arith in
    rw pow-suc (
      omega (
        arith,
        or_digit (q * (2 ^ k * 2)) r,
        ap (λ (t : ℕ). bit_or t (r / 2)) left,
        or_fields k q (r / 2) (omega (arith, pow-suc 2 k)),
      ))

or_comm-fuel : (n a b : ℕ) → a ≤ n → bit_or a b ≡ bit_or b a
or_comm-fuel n zero b h = omega (arith, zero-or b, or-zero b b (omega arith))
or_comm-fuel zero (suc a) b h = absurd (omega arith)
or_comm-fuel (suc n) (suc a) b h = omega (
  arith,
  or_digit (suc a) b,
  or_digit b (suc a),
  or_comm-fuel n (suc a / 2) (b / 2) (omega arith),
)

pub or_comm : (a b : ℕ) → bit_or a b ≡ bit_or b a
or_comm a b = or_comm-fuel a a b (omega arith)

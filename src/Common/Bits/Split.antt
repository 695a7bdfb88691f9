-- ===== src/Common/Bits/Split.antt =====
-- `&` and `|` of numbers that are put together from two fields each.
use Prim.Native.Nat.{ℕ, zero, suc, ◌+◌, ◌*◌, ◌/◌, ◌%◌, ◌^◌, ◌<◌, bit_and, bit_or}
use mathlib.Core.Path.{◌≡◌, ap, ◌∙◌, sym}
use native.Mathlib.Omega.{arith}
use native.Mathlib.Nat.{pow-suc, one-le-pow, mul_comm, div-div-eq-div-mul}
use simulatron.Common.Bits.{and_digit, or_digit, mod-double, zero-and, zero-or}

upper : (k x : ℕ) → x / (2 ^ k * 2) ≡ x / 2 / 2 ^ k
upper k x = ap (λ (t : ℕ). x / t) (mul_comm (2 ^ k) 2) ∙ sym (div-div-eq-div-mul x 2 (2 ^ k))

pub and_split :
    (k x m l : ℕ)
    → l < 2 ^ k
    → bit_and x (m * 2 ^ k + l) ≡ bit_and (x / 2 ^ k) m * 2 ^ k + bit_and (x % 2 ^ k) l
and_split zero x m l h =
    let whole : m * 1 + l ≡ m = omega arith in
    let same : x / 1 ≡ x = omega arith in
    let none : x % 1 ≡ 0 = omega arith in
    omega (
      arith,
      ap (bit_and x) whole,
      ap (λ (t : ℕ). bit_and t m) same,
      ap (λ (t : ℕ). bit_and t l) none,
      zero-and l,
    )
and_split (suc k) x m l h =
    let pos : 0 < 2 ^ k = one-le-pow k 2 (omega arith) in
    let half : (m * (2 ^ k * 2) + l) / 2 ≡ m * 2 ^ k + l / 2 = omega arith in
    let low : x % (2 ^ k * 2) / 2 ≡ x / 2 % 2 ^ k = omega (arith, mod-double x (2 ^ k) pos) in
    rw (pow-suc, upper k x)
      (omega (
        arith,
        and_digit x (m * (2 ^ k * 2) + l),
        ap (bit_and (x / 2)) half,
        and_split k (x / 2) m (l / 2) (omega (arith, pow-suc 2 k)),
        and_digit (x % (2 ^ k * 2)) l,
        ap (λ (t : ℕ). bit_and t (l / 2)) low,
        mod-double x (2 ^ k) pos,
      ))

pub or_split :
    (k a b c d : ℕ)
    → b < 2 ^ k
    → d < 2 ^ k
    → bit_or (a * 2 ^ k + b) (c * 2 ^ k + d) ≡ bit_or a c * 2 ^ k + bit_or b d
or_split zero a b c d h i =
    let left : a * 1 + b ≡ a = omega arith in
    let right : c * 1 + d ≡ c = omega arith in
    let nothing : b ≡ 0 = omega arith in
    omega (
      arith,
      ap (λ (t : ℕ). bit_or t (c * 1 + d)) left,
      ap (bit_or a) right,
      ap (λ (t : ℕ). bit_or t d) nothing,
      zero-or d,
    )
or_split (suc k) a b c d h i =
    let left : (a * (2 ^ k * 2) + b) / 2 ≡ a * 2 ^ k + b / 2 = omega arith in
    let right : (c * (2 ^ k * 2) + d) / 2 ≡ c * 2 ^ k + d / 2 = omega arith in
    rw pow-suc (
      omega (
        arith,
        or_digit (a * (2 ^ k * 2) + b) (c * (2 ^ k * 2) + d),
        ap (λ (t : ℕ). bit_or t ((c * (2 ^ k * 2) + d) / 2)) left,
        ap (bit_or (a * 2 ^ k + b / 2)) right,
        or_split k a (b / 2) c (d / 2) (omega (arith, pow-suc 2 k)) (omega (arith, pow-suc 2 k)),
        or_digit b d,
      ))

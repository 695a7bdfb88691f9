-- ===== src/Cpu/Alu/Products.antt =====
-- Signed and unsigned products wrap to one pattern (the assertion of `bin_op_multisigned!` for MULT).
use simulatron.Common.{
  Bool-cases, inl, inr, suc, ap, ℕ, ◌+◌, ◌-◌, ◌*◌, ◌%◌, ◌^◌, ◌<◌, ◌≡◌, arith, ltb,
}
use simulatron.Common.Int.{signed, wrap, ◌*ℤ◌}

pub product_agrees8 :
    (x y : ℕ) → x < 2 ^ 8 → y < 2 ^ 8 → x * y % 2 ^ 8 ≡ wrap 8 (signed 8 x *ℤ signed 8 y)
unfolding signed ◌*ℤ◌ wrap
product_agrees8 x y hx hy =
    let x' : ℕ = suc (2 ^ 8 - x - 1) in
    let y' : ℕ = suc (2 ^ 8 - y - 1) in
    let ex : x' + x ≡ 2 ^ 8 = omega arith in
    let ey : y' + y ≡ 2 ^ 8 = omega arith in
    let low : x * (y' + y) ≡ x * 2 ^ 8 = ap (λ (t : ℕ). x * t) ey in
    let left : (x' + x) * y ≡ 2 ^ 8 * y = ap (λ (t : ℕ). t * y) ex in
    let both : (x' + x) * y' ≡ 2 ^ 8 * y' = ap (λ (t : ℕ). t * y') ex in
    elim (Bool-cases (ltb x (2 ^ 7))) [
      | inl p ↦ elim (Bool-cases (ltb y (2 ^ 7))) [
        | inl q ↦ rw (p, q) (ground arith)
        | inr q ↦ rw (p, q) (ground (arith, low))
      ]
      | inr p ↦ elim (Bool-cases (ltb y (2 ^ 7))) [
        | inl q ↦ rw (p, q) (ground (arith, left))
        | inr q ↦ rw (p, q) (ground (arith, low, both))
      ]
    ]

pub product_agrees16 :
    (x y : ℕ) → x < 2 ^ 16 → y < 2 ^ 16 → x * y % 2 ^ 16 ≡ wrap 16 (signed 16 x *ℤ signed 16 y)
unfolding signed ◌*ℤ◌ wrap
product_agrees16 x y hx hy =
    let x' : ℕ = suc (2 ^ 16 - x - 1) in
    let y' : ℕ = suc (2 ^ 16 - y - 1) in
    let ex : x' + x ≡ 2 ^ 16 = omega arith in
    let ey : y' + y ≡ 2 ^ 16 = omega arith in
    let low : x * (y' + y) ≡ x * 2 ^ 16 = ap (λ (t : ℕ). x * t) ey in
    let left : (x' + x) * y ≡ 2 ^ 16 * y = ap (λ (t : ℕ). t * y) ex in
    let both : (x' + x) * y' ≡ 2 ^ 16 * y' = ap (λ (t : ℕ). t * y') ex in
    elim (Bool-cases (ltb x (2 ^ 15))) [
      | inl p ↦ elim (Bool-cases (ltb y (2 ^ 15))) [
        | inl q ↦ rw (p, q) (ground arith)
        | inr q ↦ rw (p, q) (ground (arith, low))
      ]
      | inr p ↦ elim (Bool-cases (ltb y (2 ^ 15))) [
        | inl q ↦ rw (p, q) (ground (arith, left))
        | inr q ↦ rw (p, q) (ground (arith, low, both))
      ]
    ]

pub product_agrees32 :
    (x y : ℕ) → x < 2 ^ 32 → y < 2 ^ 32 → x * y % 2 ^ 32 ≡ wrap 32 (signed 32 x *ℤ signed 32 y)
unfolding signed ◌*ℤ◌ wrap
product_agrees32 x y hx hy =
    let x' : ℕ = suc (2 ^ 32 - x - 1) in
    let y' : ℕ = suc (2 ^ 32 - y - 1) in
    let ex : x' + x ≡ 2 ^ 32 = omega arith in
    let ey : y' + y ≡ 2 ^ 32 = omega arith in
    let low : x * (y' + y) ≡ x * 2 ^ 32 = ap (λ (t : ℕ). x * t) ey in
    let left : (x' + x) * y ≡ 2 ^ 32 * y = ap (λ (t : ℕ). t * y) ex in
    let both : (x' + x) * y' ≡ 2 ^ 32 * y' = ap (λ (t : ℕ). t * y') ex in
    elim (Bool-cases (ltb x (2 ^ 31))) [
      | inl p ↦ elim (Bool-cases (ltb y (2 ^ 31))) [
        | inl q ↦ rw (p, q) (ground arith)
        | inr q ↦ rw (p, q) (ground (arith, low))
      ]
      | inr p ↦ elim (Bool-cases (ltb y (2 ^ 31))) [
        | inl q ↦ rw (p, q) (ground (arith, left))
        | inr q ↦ rw (p, q) (ground (arith, low, both))
      ]
    ]

-- ===== src/Cpu/Shifts/Carry.antt =====
-- The results and the carries of the shifts (cpu.rs).
use simulatron.Common.{
  ℕ, zero, suc, ◌-◌, ◌*◌, ◌/◌, ◌%◌, ◌^◌, ◌<◌, ◌≤◌, ◌≡◌, ◌↔◌, ap, sym, ◌∙◌, arith, false, not, ltb,
  ◌==◌,
}
use native.Mathlib.Nat.{
  pow-suc, pow-le-pow_right, one-le-pow, div-lt_iff_lt-mul, mul_assoc, mul-le-mul,
}
use simulatron.Common.Bits.{mod-double}
use simulatron.Cpu.Values.{Width, w8, w16, w32, bits}
use simulatron.Cpu.Arith.{leading_zeros, trailing_zeros, checked_shl, checked_shr}
use simulatron.Cpu.Shifts.{lshift, urshift}

-- Fewer than `k` leading zeros, on `n` bits: the value reaches beyond the `n - k` low bits.
leading_zeros-ltb :
    (n k x : ℕ) → x < 2 ^ n → k ≤ n → ltb (leading_zeros n x) k ≡ not (ltb x (2 ^ (n - k)))
unfolding leading_zeros
leading_zeros-ltb n zero x hx hk = let e : n - 0 ≡ n = omega arith in rw e (ground arith)
leading_zeros-ltb zero (suc k) x hx hk = absurd (omega arith)
leading_zeros-ltb (suc n) (suc k) x hx hk =
    let e : suc n - suc k ≡ n - k = omega arith in
    rw e (
      ground (
        arith,
        leading_zeros-ltb n k x,
        pow-le-pow_right {n = 2} (omega arith) {i = n - k} {j = n} (omega arith),
      ))

split_pow : (n k : ℕ) → k ≤ n → 2 ^ n ≡ 2 ^ (n - k) * 2 ^ k
split_pow n zero h = let e : n - 0 ≡ n = omega arith in rw e (omega arith)
split_pow zero (suc k) h = absurd (omega arith)
split_pow (suc n) (suc k) h =
    let e : suc n - suc k ≡ n - k = omega arith in
    rw (e, pow-suc 2 n, pow-suc 2 k, split_pow n k (omega arith))
      (mul_assoc (2 ^ (n - k)) (2 ^ k) 2)

-- A shifted value fits exactly when the value has room.
room : (n k x : ℕ) → k ≤ n → ltb x (2 ^ (n - k)) ≡ ltb (x * 2 ^ k) (2 ^ n)
room n k x h = rw (split_pow n k h) (
    ground (
      arith,
      one-le-pow k 2 (omega arith),
      mul-le-mul {n₁ = suc x} {m₁ = 2 ^ k} {n₂ = 2 ^ (n - k)} {m₂ = 2 ^ k},
      mul-le-mul {n₁ = 2 ^ (n - k)} {m₁ = 2 ^ k} {n₂ = x} {m₂ = 2 ^ k},
    ))

carry_lem :
    (n k x : ℕ) → x < 2 ^ n → k ≤ n → ltb (leading_zeros n x) k ≡ not (ltb (x * 2 ^ k) (2 ^ n))
carry_lem n k x hx hk = leading_zeros-ltb n k x hx hk ∙ ap not (room n k x hk)

beyond : (n k x : ℕ) → n ≤ k → x * 2 ^ k ≡ x * 2 ^ (k - n) * 2 ^ n
beyond n k x h = rw (split_pow k n h) (sym (mul_assoc x (2 ^ (k - n)) (2 ^ n)))

-- Fewer than `k` trailing zeros: the value is no multiple of 2 ^ k.
trailing_zeros-ltb : (n k x : ℕ) → k ≤ n → ltb (trailing_zeros n x) k ≡ not (x % 2 ^ k == 0)
unfolding trailing_zeros
trailing_zeros-ltb n zero x hk = ground arith
trailing_zeros-ltb zero (suc k) x hk = absurd (omega arith)
trailing_zeros-ltb (suc n) (suc k) x hk =
    rw (pow-suc 2 k, mod-double x (2 ^ k) (one-le-pow k 2 (omega arith)))
      (ground (arith, trailing_zeros-ltb n k (x / 2)))

nothing_left : (n k x : ℕ) → x < 2 ^ n → n ≤ k → x / 2 ^ k ≡ 0
nothing_left n k x hx h = ground (
  arith,
  pow-le-pow_right {n = 2} (omega arith) {i = n} {j = k} h,
  div-lt_iff_lt-mul {k = 2 ^ k} {x = x} {y = 1} (one-le-pow k 2 (omega arith)),
)

module _ (x k : ℕ) where
  -- A left shift of an integer gives the low bits of its product with the power of two, for every
  -- amount. The carry is clear exactly when the amount is below the width and the product fits.
  pub lshift_lem :
      (w : Width)
      → x < 2 ^ bits w
      → ((lshift w x k).0 ≡ x * 2 ^ k % 2 ^ bits w)
        × (((lshift w x k).1 ≡ false) ↔ ((k < bits w) × (x * 2 ^ k < 2 ^ bits w)))
  unfolding lshift checked_shl
  lshift_lem w8 h = (ground (arith, beyond 8 k x), ground (arith, carry_lem 8 k x h))
  lshift_lem w16 h = (ground (arith, beyond 16 k x), ground (arith, carry_lem 16 k x h))
  lshift_lem w32 h = (ground (arith, beyond 32 k x), ground (arith, carry_lem 32 k x h))

  -- An unsigned right shift of an integer gives its quotient by the power of two, for every
  -- amount. The carry is clear exactly when the amount is below the width and nothing remains.
  pub urshift_lem :
      (w : Width)
      → x < 2 ^ bits w
      → ((urshift w x k).0 ≡ x / 2 ^ k)
        × (((urshift w x k).1 ≡ false) ↔ ((k < bits w) × (x % 2 ^ k ≡ 0)))
  unfolding urshift checked_shr
  urshift_lem w8 h =
      (ground (arith, nothing_left 8 k x h), ground (arith, trailing_zeros-ltb 8 k x))
  urshift_lem w16 h =
      (ground (arith, nothing_left 16 k x h), ground (arith, trailing_zeros-ltb 16 k x))
  urshift_lem w32 h =
      (ground (arith, nothing_left 32 k x h), ground (arith, trailing_zeros-ltb 32 k x))

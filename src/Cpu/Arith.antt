-- ===== src/Cpu/Arith.antt =====
-- Rust's `overflowing_*` methods, shifts and rotations on the integers of each width, and
-- `increment` and negation with their overflow checks.
use simulatron.Common.{
  ℕ, zero, suc, ◌+◌, ◌-◌, ◌*◌, ◌/◌, ◌%◌, ◌^◌, Bool, false, not, Option, none, some, ltb, leb, ◌==◌,
  if◌then◌else◌,
}
use simulatron.Common.Int.{ℤ, pos, negsuc, ◌+ℤ◌, ◌-ℤ◌, ◌*ℤ◌, ◌/ℤ◌, ◌%ℤ◌, signed, wrap, fits}
use simulatron.Platform.{ArithOp, add, sub, mul, div, rem}
use simulatron.Cpu.Values.{Width, bits}

-- The result and whether it overflowed. A divisor of zero does not come here.
unfoldable pub overflowing_unsigned : Width → ArithOp → ℕ → ℕ → ℕ × Bool
overflowing_unsigned w add x y = ((x + y) % 2 ^ bits w, leb (2 ^ bits w) (x + y))
overflowing_unsigned w sub x y = ((x + 2 ^ bits w - y) % 2 ^ bits w, ltb x y)
overflowing_unsigned w mul x y = (x * y % 2 ^ bits w, leb (2 ^ bits w) (x * y))
overflowing_unsigned w div x y = (x / y, false)
overflowing_unsigned w rem x y = (x % y, false)

-- the operation on integers without bounds
unfoldable pub exact : ArithOp → ℤ → ℤ → ℤ
unfolding ◌+ℤ◌ ◌-ℤ◌ ◌*ℤ◌ ◌/ℤ◌ ◌%ℤ◌
exact add a b = a +ℤ b
exact sub a b = a -ℤ b
exact mul a b = a *ℤ b
exact div a b = a /ℤ b
exact rem a b = a %ℤ b

-- A remainder overflows where its quotient does.
unfoldable pub overflow_of : ArithOp → ℤ → ℤ → ℤ
unfolding exact
overflow_of rem a b = exact div a b
overflow_of op a b = exact op a b

-- The same on `i8`, `i16` and `i32`, given and returned as patterns.
unfoldable pub overflowing_signed : Width → ArithOp → ℕ → ℕ → ℕ × Bool
unfolding exact overflow_of signed wrap fits
overflowing_signed w op x y =
    let a = signed (bits w) x in
    let b = signed (bits w) y in
    (wrap (bits w) (exact op a b), not (fits (bits w) (overflow_of op a b)))

-- `x.leading_zeros()` on `w` bits
unfoldable pub leading_zeros : ℕ → ℕ → ℕ
leading_zeros zero x = 0
leading_zeros (suc w) x = if ltb x (2 ^ w) then suc (leading_zeros w x) else 0

-- `x.trailing_zeros()` on `w` bits
unfoldable pub trailing_zeros : ℕ → ℕ → ℕ
trailing_zeros zero x = 0
trailing_zeros (suc w) x = if x % 2 == 0 then suc (trailing_zeros w (x / 2)) else 0

unfoldable pub checked_shl : Width → ℕ → ℕ → Option ℕ
checked_shl w x k = if ltb k (bits w) then some (x * 2 ^ k % 2 ^ bits w) else none

unfoldable pub checked_shr : Width → ℕ → ℕ → Option ℕ
checked_shr w x k = if ltb k (bits w) then some (x / 2 ^ k) else none

-- the shift of an integer towards minus infinity
unfoldable pub shift_right : ℤ → ℕ → ℤ
shift_right (pos n) k = pos (n / 2 ^ k)
shift_right (negsuc n) k = negsuc (n / 2 ^ k)

unfoldable pub checked_shr_signed : Width → ℕ → ℕ → Option ℕ
unfolding signed wrap shift_right
checked_shr_signed w x k =
    if ltb k (bits w) then some (wrap (bits w) (shift_right (signed (bits w) x) k)) else none

unfoldable pub rotate_left : Width → ℕ → ℕ → ℕ
rotate_left w x k = let n = k % bits w in x * 2 ^ n % 2 ^ bits w + x / 2 ^ (bits w - n)

unfoldable pub rotate_right : Width → ℕ → ℕ → ℕ
rotate_right w x k = let n = k % bits w in x / 2 ^ n + x % 2 ^ n * 2 ^ (bits w - n)

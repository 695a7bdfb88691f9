-- ===== src/Cpu/Rotcarry.antt =====
-- Rotation through the carry by one place, Crates/simulatron-vm/src/lib/cpu/rotcarry.rs.
pub mod RoundTrip
use simulatron.Common.{ℕ, ◌-◌, ◌*◌, ◌/◌, ◌%◌, ◌^◌, bit_and, bit_or, Bool, ltb, if◌then◌else◌}
use simulatron.Cpu.Values.{Width, bits}
use simulatron.Common.Int.{signed, pos, ◌<ℤ◌}

-- `b as u8`
abbrev pub carry_bit : Bool → ℕ
carry_bit b = if b then 1 else 0

unfoldable pub rcl : Width → ℕ → Bool → ℕ × Bool
unfolding signed
rcl w x carry = (bit_or (x * 2 % 2 ^ bits w) (carry_bit carry), signed (bits w) x <ℤ pos 0)

-- 0x80, 0x8000 and 0x80000000
unfoldable pub rcr : Width → ℕ → Bool → ℕ × Bool
rcr w x carry = (bit_or (x / 2) (if carry then 2 ^ (bits w - 1) else 0), ltb 0 (bit_and x 1))

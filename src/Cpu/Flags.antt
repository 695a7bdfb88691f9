-- ===== src/Cpu/Flags.antt =====
-- The flags and the conditions of the jumps (cpu.rs, cpu/macros.rs).
pub mod Compare
use simulatron.Common.{ℕ, bit_and, bit_or, Bool, true, false, not, ◌&&◌, ◌||◌, ◌==◌, if◌then◌else◌}
use simulatron.Platform.{Float32}
use simulatron.Cpu.Values.{Width, bits}
use simulatron.Common.Int.{signed, pos, ◌<ℤ◌}

abbrev pub flag_zero : ℕ
flag_zero = 0x01

abbrev pub flag_negative : ℕ
flag_negative = 0x02

abbrev pub flag_carry : ℕ
flag_carry = 0x04

abbrev pub flag_overflow : ℕ
flag_overflow = 0x08

-- `$ans` is signed: its pattern is given.
unfoldable pub make_flags_int : Width → ℕ → Bool → Bool → ℕ
unfolding signed
make_flags_int w ans carry overflow =
    let sign =
      if ans == 0
      then bit_or 0 flag_zero
      else if signed (bits w) ans <ℤ pos 0
      then bit_or 0 flag_negative
      else 0 in
    let with_carry = if carry then bit_or sign flag_carry else sign in
    if overflow then bit_or with_carry flag_overflow else with_carry

unfoldable pub make_flags_float : Float32 → ℕ → ℕ
make_flags_float float ans =
    if float.is_zero ans then flag_zero else if float.is_negative ans then flag_negative else 0

-- `flags & mask != 0`
unfoldable pub is_set : ℕ → ℕ → Bool
is_set flags mask = not (bit_and flags mask == 0)

-- `==` on Booleans
abbrev pub same : Bool → Bool → Bool
same true b = b
same false b = not b

pub data Condition : Type 0 where
  jequal jnotequal sjgreater sjgreatereq ujgreater ujgreatereq : Condition
  sjlesser sjlessereq ujlesser ujlessereq : Condition

unfoldable pub holds : Condition → ℕ → Bool
unfolding is_set
holds jequal flags = is_set flags flag_zero
holds jnotequal flags = not (is_set flags flag_zero)
holds sjgreater flags =
    not (is_set flags flag_zero) && same (is_set flags flag_negative) (is_set flags flag_overflow)
holds sjgreatereq flags =
    is_set flags flag_zero || same (is_set flags flag_negative) (is_set flags flag_overflow)
holds ujgreater flags = not (is_set flags flag_carry) && not (is_set flags flag_zero)
holds ujgreatereq flags = not (is_set flags flag_carry) || is_set flags flag_zero
holds sjlesser flags = not (same (is_set flags flag_negative) (is_set flags flag_overflow))
holds sjlessereq flags =
    is_set flags flag_zero || not (same (is_set flags flag_negative) (is_set flags flag_overflow))
holds ujlesser flags = is_set flags flag_carry
holds ujlessereq flags = is_set flags flag_carry || is_set flags flag_zero

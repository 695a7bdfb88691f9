-- ===== src/Cpu/Alu/Compare.antt =====
-- What the instruction COMPARE leaves for the jumps (cpu.rs).
use simulatron.Common.{ℕ, ◌^◌, ◌<◌, ◌≡◌, refl, arith, Bool, true, false, ◌==◌}
use simulatron.Exec.{ok, ◌>>=◌, ◌>>◌, pure, unwrap, modify}
use simulatron.Platform.{Platform, sub}
use simulatron.Cpu.Values.{Width, w8, w16, w32, bits, int_value, to_int}
use simulatron.Cpu.State.{Cpu}
use simulatron.Cpu.Registers.{read_from_register}
use simulatron.Cpu.Arith.{overflowing_unsigned, overflowing_signed}
use simulatron.Cpu.Flags.{Condition, holds}
use simulatron.Cpu.Flags.Compare.{meaning, compare_flags, holds-compare_flags}
use simulatron.Cpu.Alu.{instruction_compare, debug_assert, set_flags}

-- The debug assertion of COMPARE: both subtractions give one pattern.
difference_agrees :
    (w : Width) (x y : ℕ)
    → x < 2 ^ bits w
    → y < 2 ^ bits w
    → ((overflowing_unsigned w sub x y).0 == (overflowing_signed w sub x y).0) ≡ true
unfolding overflowing_signed overflowing_unsigned
difference_agrees w8 x y hx hy = ground arith
difference_agrees w16 x y hx hy = ground arith
difference_agrees w32 x y hx hy = ground arith

pub debug_assert-true : {S : Type 0} (debug : Bool) (s : S) → debug_assert debug true s ≡ ok tt s
unfolding debug_assert pure
debug_assert-true true s = refl
debug_assert-true false s = refl

module _ {D : Type 0} ⦃platform : Platform D⦄ (reg_ref x y : ℕ) (c : Cpu D) where
  compared :
      (w : Width)
      → x < 2 ^ bits w
      → y < 2 ^ bits w
      → read_from_register reg_ref c ≡ ok (int_value w x) c
      → instruction_compare reg_ref (int_value w y) c
        ≡ ok tt (record c { flags = compare_flags w x y })
  unfolding instruction_compare ◌>>=◌ ◌>>◌ unwrap pure to_int modify set_flags
  compared w8 hx hy e = rw (e, difference_agrees w8 x y hx hy, debug_assert-true) refl
  compared w16 hx hy e = rw (e, difference_agrees w16 x y hx hy, debug_assert-true) refl
  compared w32 hx hy e = rw (e, difference_agrees w32 x y hx hy, debug_assert-true) refl

  -- COMPARE of a register that holds the integer `x` with an integer `y` of its width changes
  -- nothing but the flags, fails no debug assertion, and leaves flags by which every conditional
  -- jump is taken exactly when its relation holds of `x` and `y`: as signed numbers in two's
  -- complement for the SJ jumps and as unsigned numbers for the UJ jumps.
  pub instruction_compare-holds :
      (w : Width)
      → x < 2 ^ bits w
      → y < 2 ^ bits w
      → read_from_register reg_ref c ≡ ok (int_value w x) c
      → (flags : ℕ) × (instruction_compare reg_ref (int_value w y) c
          ≡ ok tt (record c { flags = flags }))
        × ((condition : Condition) → holds condition flags ≡ meaning condition w x y)
  instruction_compare-holds w hx hy e = (
    compare_flags w x y,
    compared w hx hy e,
    λ condition. holds-compare_flags x y condition w hx hy,
  )

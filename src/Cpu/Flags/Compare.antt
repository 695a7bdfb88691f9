-- ===== src/Cpu/Flags/Compare.antt =====
-- COMPARE and the conditions that follow it (cpu.rs, cpu/macros.rs).
use simulatron.Common.{ℕ, ◌^◌, ◌<◌, ◌≡◌, arith, Bool, not, ◌&&◌, ltb, leb, ◌==◌}
use simulatron.Common.Int.{pos, signed, ◌<ℤ◌}
use simulatron.Platform.{sub}
use simulatron.Cpu.Values.{Width, w8, w16, w32, bits}
use simulatron.Cpu.Arith.{overflowing_unsigned, overflowing_signed}
use simulatron.Cpu.Flags.{
  make_flags_int, is_set, same, holds, Condition, jequal, jnotequal, sjgreater, sjgreatereq,
  ujgreater, ujgreatereq, sjlesser, sjlessereq, ujlesser, ujlessereq,
}

-- What each condition means after `x` is compared with `y`, as unsigned or as signed numbers.
abbrev pub meaning : Condition → Width → ℕ → ℕ → Bool
meaning jequal w x y = x == y
meaning jnotequal w x y = not (x == y)
meaning sjgreater w x y = signed (bits w) y <ℤ signed (bits w) x
meaning sjgreatereq w x y = not (signed (bits w) x <ℤ signed (bits w) y)
meaning ujgreater w x y = ltb y x
meaning ujgreatereq w x y = leb y x
meaning sjlesser w x y = signed (bits w) x <ℤ signed (bits w) y
meaning sjlessereq w x y = not (signed (bits w) y <ℤ signed (bits w) x)
meaning ujlesser w x y = ltb x y
meaning ujlessereq w x y = leb x y

-- the flags after the subtraction of COMPARE
abbrev pub compare_flags : Width → ℕ → ℕ → ℕ
compare_flags w x y =
    make_flags_int w (overflowing_signed w sub x y).0 (overflowing_unsigned w sub x y).1
      (overflowing_signed w sub x y).1

-- Once flags are made of tests, each flag is its test.
pub zero-made :
    (w : Width) (ans : ℕ) (carry overflow : Bool)
    → is_set (make_flags_int w ans carry overflow) 1 ≡ (ans == 0)
unfolding make_flags_int is_set
zero-made w ans carry overflow = ground arith

pub carry-made :
    (w : Width) (ans : ℕ) (carry overflow : Bool)
    → is_set (make_flags_int w ans carry overflow) 4 ≡ carry
unfolding make_flags_int is_set
carry-made w ans carry overflow = ground arith

pub overflow-made :
    (w : Width) (ans : ℕ) (carry overflow : Bool)
    → is_set (make_flags_int w ans carry overflow) 8 ≡ overflow
unfolding make_flags_int is_set
overflow-made w ans carry overflow = ground arith

pub negative-made :
    (w : Width) (ans : ℕ) (carry overflow : Bool)
    → is_set (make_flags_int w ans carry overflow) 2 ≡ (signed (bits w) ans <ℤ pos 0)
unfolding make_flags_int is_set signed
negative-made w8 ans carry overflow = ground arith
negative-made w16 ans carry overflow = ground arith
negative-made w32 ans carry overflow = ground arith

-- The difference of two patterns is zero, negative or out of range as the numbers compare.
module _ (x y : ℕ) where
  difference-zero :
      (w : Width)
      → x < 2 ^ bits w
      → y < 2 ^ bits w
      → ((overflowing_signed w sub x y).0 == 0) ≡ (x == y)
  unfolding overflowing_signed
  difference-zero w8 hx hy = ground arith
  difference-zero w16 hx hy = ground arith
  difference-zero w32 hx hy = ground arith

  -- the sign of the wrapped difference, corrected by the overflow
  difference-sign :
      (w : Width)
      → x < 2 ^ bits w
      → y < 2 ^ bits w
      → same
          (signed (bits w) (overflowing_signed w sub x y).0 <ℤ pos 0)
          (overflowing_signed w sub x y).1
        ≡ not (signed (bits w) x <ℤ signed (bits w) y)
  unfolding overflowing_signed
  difference-sign w8 hx hy = ground arith
  difference-sign w16 hx hy = ground arith
  difference-sign w32 hx hy = ground arith

  signed_order :
      (w : Width)
      → x < 2 ^ bits w
      → y < 2 ^ bits w
      → (not (x == y) && not (signed (bits w) x <ℤ signed (bits w) y))
        ≡ (signed (bits w) y <ℤ signed (bits w) x)
  unfolding signed
  signed_order w8 hx hy = ground arith
  signed_order w16 hx hy = ground arith
  signed_order w32 hx hy = ground arith

  -- After a comparison each condition holds exactly when it should.
  pub holds-compare_flags :
      (condition : Condition) (w : Width)
      → x < 2 ^ bits w
      → y < 2 ^ bits w
      → holds condition (compare_flags w x y) ≡ meaning condition w x y
  unfolding holds overflowing_unsigned
  holds-compare_flags jequal w hx hy = rw (zero-made, difference-zero w hx hy)
  holds-compare_flags jnotequal w hx hy = rw (zero-made, difference-zero w hx hy)
  holds-compare_flags sjgreater w hx hy =
      rw (zero-made, negative-made, overflow-made, difference-zero w hx hy, difference-sign w hx hy)
        (signed_order w hx hy)
  holds-compare_flags sjgreatereq w hx hy =
      rw (zero-made, negative-made, overflow-made, difference-zero w hx hy, difference-sign w hx hy)
        (ground arith)
  holds-compare_flags ujgreater w hx hy =
      rw (carry-made, zero-made, difference-zero w hx hy) (ground arith)
  holds-compare_flags ujgreatereq w hx hy =
      rw (carry-made, zero-made, difference-zero w hx hy) (ground arith)
  holds-compare_flags sjlesser w hx hy =
      rw (negative-made, overflow-made, difference-sign w hx hy) (ground arith)
  holds-compare_flags sjlessereq w hx hy =
      rw (zero-made, negative-made, overflow-made, difference-zero w hx hy, difference-sign w hx hy)
        (ground (arith, signed_order w hx hy))
  holds-compare_flags ujlesser w hx hy = carry-made w _ _ _
  holds-compare_flags ujlessereq w hx hy =
      rw (carry-made, zero-made, difference-zero w hx hy) (ground arith)

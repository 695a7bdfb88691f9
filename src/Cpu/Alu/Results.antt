-- ===== src/Cpu/Alu/Results.antt =====
-- What ADD, SUB and MULT leave in an integer register and in the flags (cpu.rs).
use simulatron.Common.{ℕ, ◌^◌, ◌<◌, ◌≡◌, ◌↔◌, refl, arith, true, false, not, ◌==◌, ==_iff, ◌∙◌}
use simulatron.Common.Int.{ℤ, pos, negsuc, signed, wrap, fits, ◌<ℤ◌}
use simulatron.Exec.{ok, ◌>>=◌, ◌>>◌, pure, unwrap}
use simulatron.Platform.{Platform, ArithOp, add, sub, mul, div, rem}
use simulatron.Cpu.Values.{Width, w8, w16, w32, bits, int_value, to_int}
use simulatron.Cpu.State.{Cpu}
use simulatron.Cpu.Registers.{read_from_register, write_to_register}
use simulatron.Cpu.Arith.{overflowing_unsigned, overflowing_signed, exact, overflow_of}
use simulatron.Cpu.Flags.{make_flags_int, is_set}
use simulatron.Cpu.Flags.Compare.{zero-made, carry-made, overflow-made, negative-made}
use simulatron.Cpu.Alu.{bin_op_multisigned, set_flags}
use simulatron.Cpu.Alu.Compare.{debug_assert-true}
use simulatron.Cpu.Alu.Products.{product_agrees8, product_agrees16, product_agrees32}

-- the operations that the macro is used for
abbrev pub IsMultisigned : ArithOp → Type 0
IsMultisigned add = Unit
IsMultisigned sub = Unit
IsMultisigned mul = Unit
IsMultisigned _ = ⊥

module _ (x y : ℕ) where
  agrees :
      (op : ArithOp) (w : Width)
      → IsMultisigned op
      → x < 2 ^ bits w
      → y < 2 ^ bits w
      → (overflowing_unsigned w op x y).0 ≡ (overflowing_signed w op x y).0
  unfolding overflowing_signed overflowing_unsigned
  agrees add w8 h hx hy = ground arith
  agrees add w16 h hx hy = ground arith
  agrees add w32 h hx hy = ground arith
  agrees sub w8 h hx hy = ground arith
  agrees sub w16 h hx hy = ground arith
  agrees sub w32 h hx hy = ground arith
  agrees mul w8 h hx hy = product_agrees8 x y hx hy
  agrees mul w16 h hx hy = product_agrees16 x y hx hy
  agrees mul w32 h hx hy = product_agrees32 x y hx hy
  agrees div w h hx hy = absurd h
  agrees rem w h hx hy = absurd h

  carry_iff :
      (op : ArithOp) (w : Width)
      → IsMultisigned op
      → x < 2 ^ bits w
      → y < 2 ^ bits w
      → ((overflowing_unsigned w op x y).1 ≡ false)
        ↔ (pos (overflowing_unsigned w op x y).0 ≡ exact op (pos x) (pos y))
  unfolding overflowing_unsigned exact
  carry_iff add w8 h hx hy = ground arith
  carry_iff add w16 h hx hy = ground arith
  carry_iff add w32 h hx hy = ground arith
  carry_iff sub w8 h hx hy = ground arith
  carry_iff sub w16 h hx hy = ground arith
  carry_iff sub w32 h hx hy = ground arith
  carry_iff mul w8 h hx hy = ground arith
  carry_iff mul w16 h hx hy = ground arith
  carry_iff mul w32 h hx hy = ground arith
  carry_iff div w h hx hy = absurd h
  carry_iff rem w h hx hy = absurd h

fits_iff :
    (w : Width) (z : ℤ) → (not (fits (bits w) z) ≡ false) ↔ (signed (bits w) (wrap (bits w) z) ≡ z)
unfolding fits signed wrap
fits_iff w8 (pos n) = ground arith
fits_iff w8 (negsuc n) = ground arith
fits_iff w16 (pos n) = ground arith
fits_iff w16 (negsuc n) = ground arith
fits_iff w32 (pos n) = ground arith
fits_iff w32 (negsuc n) = ground arith

-- `r` and `flags` are what the operation should leave: `r` is the result's pattern; the zero and
-- negative flags are those of the pattern, read as signed; the carry flag is clear exactly when
-- the unsigned result is exact, and the overflow flag exactly when the signed one is.
pub record IsResult (op : ArithOp) (w : Width) (x y r flags : ℕ) : Type 0 where
  pub pattern : r ≡ wrap (bits w) (exact op (signed (bits w) x) (signed (bits w) y))
  pub zero_flag : is_set flags 1 ≡ (r == 0)
  pub negative_flag : is_set flags 2 ≡ (signed (bits w) r <ℤ pos 0)
  pub carry_flag : (is_set flags 4 ≡ false) ↔ (pos r ≡ exact op (pos x) (pos y))
  pub overflow_flag :
      (is_set flags 8 ≡ false)
      ↔ (signed (bits w) r ≡ exact op (signed (bits w) x) (signed (bits w) y))

overflow_of-exact : (op : ArithOp) (a b : ℤ) → IsMultisigned op → overflow_of op a b ≡ exact op a b
unfolding overflow_of
overflow_of-exact add a b h = refl
overflow_of-exact sub a b h = refl
overflow_of-exact mul a b h = refl
overflow_of-exact div a b h = absurd h
overflow_of-exact rem a b h = absurd h

module _ (op : ArithOp) (w : Width) (x y : ℕ) where
  abbrev signed_result : ℤ
  signed_result = exact op (signed (bits w) x) (signed (bits w) y)

  abbrev flags_of : ℕ
  flags_of =
      make_flags_int w (overflowing_signed w op x y).0 (overflowing_unsigned w op x y).1
        (overflowing_signed w op x y).1

  signed_pattern : (overflowing_signed w op x y).0 ≡ wrap (bits w) signed_result
  unfolding overflowing_signed
  signed_pattern = refl

  signed_overflow :
      IsMultisigned op → (overflowing_signed w op x y).1 ≡ not (fits (bits w) signed_result)
  unfolding overflowing_signed
  signed_overflow h = rw (overflow_of-exact op _ _ h) refl

  module _ (h : IsMultisigned op) (hx : x < 2 ^ bits w) (hy : y < 2 ^ bits w) where
    numbers-IsResult : IsResult op w x y (overflowing_unsigned w op x y).0 flags_of
    numbers-IsResult = record {
      pattern = agrees x y op w h hx hy ∙ signed_pattern;
      zero_flag = rw (zero-made, agrees x y op w h hx hy);
      negative_flag = rw (negative-made, agrees x y op w h hx hy);
      carry_flag = rw carry-made (carry_iff x y op w h hx hy);
      overflow_flag =
          rw (overflow-made, agrees x y op w h hx hy, signed_pattern, signed_overflow h)
            (fits_iff w signed_result);
    }

    agreed : ((overflowing_unsigned w op x y).0 == (overflowing_signed w op x y).0) ≡ true
    agreed = (==_iff _ _).1 (agrees x y op w h hx hy)

module _ {D : Type 0} ⦃platform : Platform D⦄ (reg_ref x y : ℕ) (c : Cpu D) where
  -- the instruction on an integer register, as the write and the flags that it comes to
  unfolded :
      (op : ArithOp) (w : Width)
      → IsMultisigned op
      → x < 2 ^ bits w
      → y < 2 ^ bits w
      → read_from_register reg_ref c ≡ ok (int_value w x) c
      → bin_op_multisigned op reg_ref (int_value w y) c
        ≡ (write_to_register reg_ref (int_value w (overflowing_unsigned w op x y).0)
              >> set_flags (flags_of op w x y))
            c
  unfolding bin_op_multisigned ◌>>=◌ ◌>>◌ unwrap pure to_int
  unfolded op w8 h hx hy e = rw (e, agreed op w8 x y h hx hy, debug_assert-true) refl
  unfolded op w16 h hx hy e = rw (e, agreed op w16 x y h hx hy, debug_assert-true) refl
  unfolded op w32 h hx hy e = rw (e, agreed op w32 x y h hx hy, debug_assert-true) refl

  -- ADD, SUB or MULT of an integer `y` to a register that holds the integer `x` of its width fails
  -- no debug assertion. It writes a result `r` to the register and then sets the flags: `r` is
  -- the pattern of the signed result, the zero and negative flags are those of `r`, the carry
  -- flag is clear exactly when `r` is the unsigned result without wrapping, and the overflow flag
  -- exactly when it is the signed one.
  pub bin_op_multisigned-IsResult :
      (op : ArithOp) (w : Width)
      → IsMultisigned op
      → x < 2 ^ bits w
      → y < 2 ^ bits w
      → read_from_register reg_ref c ≡ ok (int_value w x) c
      → (r flags : ℕ) × IsResult op w x y r flags
        × (bin_op_multisigned op reg_ref (int_value w y) c
            ≡ (write_to_register reg_ref (int_value w r) >> set_flags flags) c)
  bin_op_multisigned-IsResult op w h hx hy e = (
    (overflowing_unsigned w op x y).0,
    flags_of op w x y,
    numbers-IsResult op w x y h hx hy,
    unfolded op w h hx hy e,
  )

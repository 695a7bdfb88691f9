-- ===== src/Cpu/Alu.antt =====
-- Arithmetic and logic instructions: the macros of cpu/macros.rs and their uses in cpu.rs.
pub mod Compare
pub mod Products
pub mod Results
use simulatron.Common.{ℕ, ◌-◌, ◌%◌, ◌^◌, bit_and, bit_or, bit_xor, Bool, false, ◌==◌, if◌then◌else◌}
use simulatron.Exec.{Exec, Done, pure, crash, gets, unwrap, modify, ◌>>=◌, ◌>>◌}
use simulatron.Platform.{Platform, ArithOp, add, sub, mul, div, rem}
use simulatron.Mmu.Zones.{interrupt_div_by_0}
use simulatron.Cpu.Values.{
  TypedValue, byte, half, word, float, Width, w8, w16, w32, bits, int_value, to_int, to_float,
  is_integer_zero, increment_int,
}
use simulatron.Cpu.State.{Cpu, interrupt_and_retry}
use simulatron.Cpu.Registers.{read_from_register, write_to_register}
use simulatron.Cpu.Flags.{make_flags_int, make_flags_float, is_set, flag_carry}
use simulatron.Cpu.Arith.{overflowing_unsigned, overflowing_signed}

unfoldable pub set_flags : {D : Type 0} → ℕ → Exec (Cpu D) Done
set_flags v = modify (λ c. record c { flags = v })

-- `debug_assert_eq!`
unfoldable pub debug_assert : {S : Type 0} → Bool → Bool → Exec S Done
debug_assert debug test = if debug then (if test then pure tt else crash) else pure tt

-- `match value { Byte(x) => arm, Half(x) => arm, Word(x) => arm, Float(x) => on_float }`
abbrev pub by_width :
    {S A : Type 0} → TypedValue → (Width → ℕ → Exec S A) → (ℕ → Exec S A) → Exec S A
by_width (byte x) arm on_float = arm w8 x
by_width (half x) arm on_float = arm w16 x
by_width (word x) arm on_float = arm w32 x
by_width (float x) arm on_float = on_float x

module _ {D : Type 0} ⦃platform : Platform D⦄ where
  open platform use {debug}

  -- `TypedValue::increment`
  unfoldable pub increment : TypedValue → Exec (Cpu D) TypedValue
  increment value =
      by_width value (λ w x. do y ← increment_int debug (bits w) x; pure (int_value w y))
        (λ x. pure (float (platform.float.binary add x 0x3F800000)))

  -- the arm of a float in the arithmetic macros
  unfoldable pub float_arm : ArithOp → ℕ → TypedValue → ℕ → Exec (Cpu D) Done
  float_arm op reg_ref value x = do
    y ← unwrap (to_float value)
    let ans = platform.float.binary op x y
    write_to_register reg_ref (float ans)
    set_flags (make_flags_float platform.float ans)

  unfoldable pub bin_op_multisigned : ArithOp → ℕ → TypedValue → Exec (Cpu D) Done
  bin_op_multisigned op reg_ref value = do
    old ← read_from_register reg_ref
    by_width old
        (λ w x. do
          y ← unwrap (to_int w value)
          let u_ans = overflowing_unsigned w op x y
          let s_ans = overflowing_signed w op x y
          debug_assert debug (u_ans.0 == s_ans.0)
          write_to_register reg_ref (int_value w u_ans.0)
          set_flags (make_flags_int w s_ans.0 u_ans.1 s_ans.1))
        (float_arm op reg_ref value)

  unfoldable pub bin_op_unsigned : ArithOp → ℕ → TypedValue → Exec (Cpu D) Done
  bin_op_unsigned op reg_ref value = do
    old ← read_from_register reg_ref
    by_width old
        (λ w x. do
          y ← unwrap (to_int w value)
          let ans = overflowing_unsigned w op x y
          write_to_register reg_ref (int_value w ans.0)
          set_flags (make_flags_int w ans.0 ans.1 false))
        (λ _. crash)

  unfoldable pub bin_op_signed : ArithOp → ℕ → TypedValue → Exec (Cpu D) Done
  bin_op_signed op reg_ref value = do
    old ← read_from_register reg_ref
    by_width old
        (λ w x. do
          y ← unwrap (to_int w value)
          let ans = overflowing_signed w op x y
          write_to_register reg_ref (int_value w ans.0)
          set_flags (make_flags_int w ans.0 false ans.1))
        (float_arm op reg_ref value)

  unfoldable pub bin_op_bitwise : (ℕ → ℕ → ℕ) → ℕ → TypedValue → Exec (Cpu D) Done
  bin_op_bitwise op reg_ref value = do
    old ← read_from_register reg_ref
    by_width old
        (λ w x. do
          y ← unwrap (to_int w value)
          write_to_register reg_ref (int_value w (op x y))
          set_flags (make_flags_int w (op x y) false false))
        (λ _. crash)

  unfoldable pub instruction_add : ℕ → TypedValue → Exec (Cpu D) Done
  instruction_add = bin_op_multisigned add

  unfoldable pub instruction_sub : ℕ → TypedValue → Exec (Cpu D) Done
  instruction_sub = bin_op_multisigned sub

  unfoldable pub instruction_mult : ℕ → TypedValue → Exec (Cpu D) Done
  instruction_mult = bin_op_multisigned mul

  -- `if self.flags & FLAG_CARRY != 0 { value.increment(); }`
  unfoldable pub with_carry : TypedValue → Exec (Cpu D) TypedValue
  with_carry value = do
    flags ← gets (λ c. c.flags)
    if is_set flags flag_carry then increment value else pure value

  unfoldable pub instruction_addcarry : ℕ → TypedValue → Exec (Cpu D) Done
  instruction_addcarry reg_ref value = do
    value ← with_carry value
    bin_op_multisigned add reg_ref value

  unfoldable pub instruction_subborrow : ℕ → TypedValue → Exec (Cpu D) Done
  instruction_subborrow reg_ref value = do
    value ← with_carry value
    bin_op_multisigned sub reg_ref value

  -- `if value.is_integer_zero() { send(INTERRUPT_DIV_BY_0); return Err(TryAgainError); }`
  unfoldable pub unless_zero : TypedValue → Exec (Cpu D) Done → Exec (Cpu D) Done
  unless_zero value k = if is_integer_zero value then interrupt_and_retry interrupt_div_by_0 else k

  unfoldable pub instruction_sdiv : ℕ → TypedValue → Exec (Cpu D) Done
  instruction_sdiv reg_ref value = unless_zero value (bin_op_signed div reg_ref value)

  unfoldable pub instruction_udiv : ℕ → TypedValue → Exec (Cpu D) Done
  instruction_udiv reg_ref value = unless_zero value (bin_op_unsigned div reg_ref value)

  unfoldable pub instruction_srem : ℕ → TypedValue → Exec (Cpu D) Done
  instruction_srem reg_ref value = unless_zero value (bin_op_signed rem reg_ref value)

  unfoldable pub instruction_urem : ℕ → TypedValue → Exec (Cpu D) Done
  instruction_urem reg_ref value = unless_zero value (bin_op_unsigned rem reg_ref value)

  unfoldable pub instruction_and : ℕ → TypedValue → Exec (Cpu D) Done
  instruction_and = bin_op_bitwise bit_and

  unfoldable pub instruction_or : ℕ → TypedValue → Exec (Cpu D) Done
  instruction_or = bin_op_bitwise bit_or

  unfoldable pub instruction_xor : ℕ → TypedValue → Exec (Cpu D) Done
  instruction_xor = bin_op_bitwise bit_xor

  unfoldable pub instruction_compare : ℕ → TypedValue → Exec (Cpu D) Done
  instruction_compare reg_ref value = do
    old ← read_from_register reg_ref
    by_width old
        (λ w x. do
          y ← unwrap (to_int w value)
          let u_ans = overflowing_unsigned w sub x y
          let s_ans = overflowing_signed w sub x y
          debug_assert debug (u_ans.0 == s_ans.0)
          set_flags (make_flags_int w s_ans.0 u_ans.1 s_ans.1))
        (λ x. do
          y ← unwrap (to_float value)
          let ans = platform.float.binary sub x y
          set_flags (make_flags_float platform.float ans))

  -- `-(x as iN) as uN`, where the lowest integer overflows
  unfoldable pub negate_int : Width → ℕ → Exec (Cpu D) ℕ
  negate_int w x =
      if x == 2 ^ (bits w - 1)
      then (if debug then crash else pure x)
      else pure ((2 ^ bits w - x) % 2 ^ bits w)

  -- the arm of NEGATE
  unfoldable pub negate : ℕ → Exec (Cpu D) Done
  negate reg_ref = do
    value ← read_from_register reg_ref
    negated ←
        by_width value (λ w x. do y ← negate_int w x; pure (int_value w y))
          (λ f. pure (float (platform.float.negate f)))
    write_to_register reg_ref negated

  -- the arm of NOT, behind `reject_float!`
  unfoldable pub complement : ℕ → Exec (Cpu D) Done
  complement reg_ref = do
    value ← read_from_register reg_ref
    by_width value
        (λ w x. do
          let not_x = 2 ^ bits w - 1 - x
          write_to_register reg_ref (int_value w not_x)
          set_flags (make_flags_int w not_x false false))
        (λ _. crash)

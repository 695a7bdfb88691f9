-- ===== src/Cpu/Privilege/Instructions.antt =====
-- The instructions of cpu.rs in user mode.
use simulatron.Common.{arith, ◌+◌, ◌%◌, ◌^◌, ℕ, Bool, Option, none, some}
use simulatron.Exec.{Exec, Done, modify}
use simulatron.Exec.Keeps.{Keeps-modify}
use simulatron.Platform.{Platform, ArithOp}
use simulatron.Cpu.Values.{ValueType, TypedValue, byte, half, word, float, Width, increment_int}
use simulatron.Cpu.State.{Cpu}
use simulatron.Cpu.Alu.{
  debug_assert, increment, float_arm, bin_op_multisigned, bin_op_unsigned, bin_op_signed,
  bin_op_bitwise, with_carry, unless_zero, instruction_compare, negate_int, negate, complement,
  by_width,
}
use simulatron.Cpu.Shifts.{on_register}
use simulatron.Cpu.Blocks.{
  instruction_load, instruction_store, instruction_swap, instruction_blockcopy,
  instruction_blockset, instruction_blockcmp, instruction_call,
}
use simulatron.Cpu.Fetch.{
  fetch_variable_size, fetch_byte, fetch_word, or_illegal, register_word, register_byte,
  check_same_type, reject_float,
}
use simulatron.Cpu.Privilege.Base.{Confined, confined_rules}

module _ {D : Type 0} ⦃platform : Platform D⦄ (kspr pdpr imr : ℕ) where
  abbrev C : {A : Type 0} → Exec (Cpu D) A → Type 0
  C m = Confined kspr pdpr imr m

  by_width-Confined :
      {A : Type 0} (value : TypedValue) (arm : Width → ℕ → Exec (Cpu D) A)
      (on_float : ℕ → Exec (Cpu D) A)
      → ((w : Width) (x : ℕ) → C (arm w x))
      → ((x : ℕ) → C (on_float x))
      → C (by_width value arm on_float)
  by_width-Confined (byte x) arm on_float ka kf = ka _ x
  by_width-Confined (half x) arm on_float ka kf = ka _ x
  by_width-Confined (word x) arm on_float ka kf = ka _ x
  by_width-Confined (float x) arm on_float ka kf = kf x

  increment_int-Confined : (debug : Bool) (w x : ℕ) → C (increment_int debug w x)
  unfolding increment_int
  increment_int-Confined debug w x = search confined_rules

  debug_assert-Confined : (debug test : Bool) → C (debug_assert debug test)
  unfolding debug_assert
  debug_assert-Confined debug test = search confined_rules

  ruleset alu_rules =
      (confined_rules, by_width-Confined, increment_int-Confined, debug_assert-Confined)

  increment-Confined : (value : TypedValue) → C (increment value)
  unfolding increment
  increment-Confined value = search alu_rules

  float_arm-Confined :
      (op : ArithOp) (reg : ℕ) (value : TypedValue) (x : ℕ) → C (float_arm op reg value x)
  unfolding float_arm
  float_arm-Confined op reg value x = search alu_rules

  pub bin_op_multisigned-Confined :
      (op : ArithOp) (reg : ℕ) (value : TypedValue) → C (bin_op_multisigned op reg value)
  unfolding bin_op_multisigned
  bin_op_multisigned-Confined op reg value = search (alu_rules, float_arm-Confined) depth 9

  pub bin_op_unsigned-Confined :
      (op : ArithOp) (reg : ℕ) (value : TypedValue) → C (bin_op_unsigned op reg value)
  unfolding bin_op_unsigned
  bin_op_unsigned-Confined op reg value = search alu_rules depth 9

  pub bin_op_signed-Confined :
      (op : ArithOp) (reg : ℕ) (value : TypedValue) → C (bin_op_signed op reg value)
  unfolding bin_op_signed
  bin_op_signed-Confined op reg value = search (alu_rules, float_arm-Confined) depth 9

  pub bin_op_bitwise-Confined :
      (op : ℕ → ℕ → ℕ) (reg : ℕ) (value : TypedValue) → C (bin_op_bitwise op reg value)
  unfolding bin_op_bitwise
  bin_op_bitwise-Confined op reg value = search alu_rules depth 9

  pub with_carry-Confined : (value : TypedValue) → C (with_carry value)
  unfolding with_carry
  with_carry-Confined value = search (alu_rules, increment-Confined)

  pub unless_zero-Confined :
      (value : TypedValue) (k : Exec (Cpu D) Done) → C k → C (unless_zero value k)
  unfolding unless_zero
  unless_zero-Confined value k h = search alu_rules

  pub instruction_compare-Confined :
      (reg : ℕ) (value : TypedValue) → C (instruction_compare reg value)
  unfolding instruction_compare
  instruction_compare-Confined reg value = search alu_rules depth 9

  negate_int-Confined : (w : Width) (x : ℕ) → C (negate_int w x)
  unfolding negate_int
  negate_int-Confined w x = search alu_rules

  pub negate-Confined : (reg : ℕ) → C (negate reg)
  unfolding negate
  negate-Confined reg = search (alu_rules, negate_int-Confined) depth 9

  pub complement-Confined : (reg : ℕ) → C (complement reg)
  unfolding complement
  complement-Confined reg = search alu_rules depth 9

  pub on_register-Confined : (reg : ℕ) (op : ℕ → Width → ℕ → ℕ × Bool) → C (on_register reg op)
  unfolding on_register
  on_register-Confined reg op = search alu_rules depth 9

  pub instruction_load-Confined :
      (destination address : ℕ) → C (instruction_load destination address)
  unfolding instruction_load
  instruction_load-Confined destination address = search confined_rules

  pub instruction_store-Confined : (address source : ℕ) → C (instruction_store address source)
  unfolding instruction_store
  instruction_store-Confined address source = search confined_rules

  pub instruction_swap-Confined : (reg address : ℕ) → C (instruction_swap reg address)
  unfolding instruction_swap
  instruction_swap-Confined reg address = search confined_rules depth 7

  pub instruction_blockcopy-Confined :
      (length dest source : ℕ) → C (instruction_blockcopy length dest source)
  unfolding instruction_blockcopy
  instruction_blockcopy-Confined length dest source = search confined_rules

  pub instruction_blockset-Confined :
      (length dest value : ℕ) → C (instruction_blockset length dest value)
  unfolding instruction_blockset
  instruction_blockset-Confined length dest value = search confined_rules

  pub instruction_blockcmp-Confined :
      (length source1 source2 : ℕ) → C (instruction_blockcmp length source1 source2)
  unfolding instruction_blockcmp
  instruction_blockcmp-Confined length source1 source2 = search confined_rules

  pub instruction_call-Confined : (address : ℕ) → C (instruction_call address)
  unfolding instruction_call
  instruction_call-Confined address = search confined_rules

  -- Fetching moves the program counter and counts the bytes.
  advance-Confined :
      (size : ℕ)
      → C (modify λ c. record c { program_counter = (c.program_counter + size) % 2 ^ 32 })
  advance-Confined size = Keeps-modify _ λ c h. ground arith

  count-Confined : (n : ℕ) → C (modify λ c. record c { rewind = n })
  count-Confined n = Keeps-modify _ λ c h. ground arith

  pub fetch_variable_size-Confined : (t : ValueType) → C (fetch_variable_size t)
  unfolding fetch_variable_size
  fetch_variable_size-Confined t =
      search (confined_rules, advance-Confined, count-Confined) depth 10

  pub fetch_byte-Confined : C fetch_byte
  unfolding fetch_byte
  fetch_byte-Confined = search (confined_rules, fetch_variable_size-Confined)

  pub fetch_word-Confined : C fetch_word
  unfolding fetch_word
  fetch_word-Confined = search (confined_rules, fetch_variable_size-Confined)

  or_illegal-Confined : {A : Type 0} (o : Option A) → C (or_illegal o)
  unfolding or_illegal
  or_illegal-Confined none = search confined_rules
  or_illegal-Confined (some a) = search confined_rules

  pub register_word-Confined : (reg : ℕ) → C (register_word reg)
  unfolding register_word
  register_word-Confined reg = search (confined_rules, or_illegal-Confined)

  pub register_byte-Confined : (reg : ℕ) → C (register_byte reg)
  unfolding register_byte
  register_byte-Confined reg = search (confined_rules, or_illegal-Confined)

  pub check_same_type-Confined : (r1 r2 : ℕ) → C (check_same_type r1 r2)
  unfolding check_same_type
  check_same_type-Confined r1 r2 = search confined_rules

  pub reject_float-Confined : (reg : ℕ) → C (reject_float reg)
  unfolding reject_float
  reject_float-Confined reg = search confined_rules

  pub ruleset instruction_rules = (
    confined_rules, bin_op_multisigned-Confined, bin_op_unsigned-Confined, bin_op_signed-Confined,
    bin_op_bitwise-Confined, with_carry-Confined, unless_zero-Confined,
    instruction_compare-Confined, negate-Confined, complement-Confined, on_register-Confined,
    instruction_load-Confined, instruction_store-Confined, instruction_swap-Confined,
    instruction_blockcopy-Confined, instruction_blockset-Confined, instruction_blockcmp-Confined,
    instruction_call-Confined, fetch_variable_size-Confined, fetch_byte-Confined,
    fetch_word-Confined, register_word-Confined, register_byte-Confined, check_same_type-Confined,
    reject_float-Confined,
  )

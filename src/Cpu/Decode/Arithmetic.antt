-- ===== src/Cpu/Decode/Arithmetic.antt =====
-- Opcodes 0x20 to 0x39 of the `match` in cpu.rs: arithmetic and logic.
use simulatron.Common.{ℕ, List, [], ◌∷◌}
use simulatron.Exec.{Exec, ◌>>=◌, ◌>>◌}
use simulatron.Platform.{Platform}
use simulatron.Cpu.State.{Cpu}
use simulatron.Cpu.Registers.{reg_ref_type, read_from_register}
use simulatron.Cpu.Alu.{
  negate, complement, instruction_add, instruction_addcarry, instruction_sub, instruction_subborrow,
  instruction_mult, instruction_sdiv, instruction_udiv, instruction_srem, instruction_urem,
  instruction_and, instruction_or, instruction_xor,
}
use simulatron.Cpu.Fetch.{
  Ending, case, fetch_variable_size, fetch_byte, check_same_type, reject_float,
}

module _ {D : Type 0} ⦃platform : Platform D⦄ where
  -- NEGATE, ADD, ADDCARRY, SUB and SUBBORROW
  unfoldable pub sums : List (ℕ × Exec (Cpu D) Ending)
  sums =
      case 0x20 (do reg_ref ← fetch_byte; negate reg_ref)
      ∷ case 0x21 (do
        reg_ref ← fetch_byte
        value_type ← reg_ref_type reg_ref
        value ← fetch_variable_size value_type
        instruction_add reg_ref value)
      ∷ case 0x22 (do
        dest ← fetch_byte
        src ← fetch_byte
        check_same_type dest src
        value ← read_from_register src
        instruction_add dest value)
      ∷ case 0x23 (do
        reg_ref ← fetch_byte
        reject_float reg_ref
        value_type ← reg_ref_type reg_ref
        value ← fetch_variable_size value_type
        instruction_addcarry reg_ref value)
      ∷ case 0x24 (do
        dest ← fetch_byte
        reject_float dest
        src ← fetch_byte
        check_same_type dest src
        value ← read_from_register src
        instruction_addcarry dest value)
      ∷ case 0x25 (do
        reg_ref ← fetch_byte
        value_type ← reg_ref_type reg_ref
        value ← fetch_variable_size value_type
        instruction_sub reg_ref value)
      ∷ case 0x26 (do
        dest ← fetch_byte
        src ← fetch_byte
        check_same_type dest src
        value ← read_from_register src
        instruction_sub dest value)
      ∷ case 0x27 (do
        reg_ref ← fetch_byte
        reject_float reg_ref
        value_type ← reg_ref_type reg_ref
        value ← fetch_variable_size value_type
        instruction_subborrow reg_ref value)
      ∷ case 0x28 (do
        dest ← fetch_byte
        reject_float dest
        src ← fetch_byte
        check_same_type dest src
        value ← read_from_register src
        instruction_subborrow dest value)
      ∷ []

  -- MULT, SDIV, UDIV, SREM and UREM
  unfoldable pub products : List (ℕ × Exec (Cpu D) Ending)
  products =
      case 0x29 (do
        reg_ref ← fetch_byte
        value_type ← reg_ref_type reg_ref
        value ← fetch_variable_size value_type
        instruction_mult reg_ref value)
      ∷ case 0x2A (do
        dest ← fetch_byte
        src ← fetch_byte
        check_same_type dest src
        value ← read_from_register src
        instruction_mult dest value)
      ∷ case 0x2B (do
        reg_ref ← fetch_byte
        value_type ← reg_ref_type reg_ref
        value ← fetch_variable_size value_type
        instruction_sdiv reg_ref value)
      ∷ case 0x2C (do
        dest ← fetch_byte
        src ← fetch_byte
        check_same_type dest src
        value ← read_from_register src
        instruction_sdiv dest value)
      ∷ case 0x2D (do
        reg_ref ← fetch_byte
        reject_float reg_ref
        value_type ← reg_ref_type reg_ref
        value ← fetch_variable_size value_type
        instruction_udiv reg_ref value)
      ∷ case 0x2E (do
        dest ← fetch_byte
        reject_float dest
        src ← fetch_byte
        check_same_type dest src
        value ← read_from_register src
        instruction_udiv dest value)
      ∷ case 0x2F (do
        reg_ref ← fetch_byte
        value_type ← reg_ref_type reg_ref
        value ← fetch_variable_size value_type
        instruction_srem reg_ref value)
      ∷ case 0x30 (do
        dest ← fetch_byte
        src ← fetch_byte
        check_same_type dest src
        value ← read_from_register src
        instruction_srem dest value)
      ∷ case 0x31 (do
        reg_ref ← fetch_byte
        reject_float reg_ref
        value_type ← reg_ref_type reg_ref
        value ← fetch_variable_size value_type
        instruction_urem reg_ref value)
      ∷ case 0x32 (do
        dest ← fetch_byte
        reject_float dest
        src ← fetch_byte
        check_same_type dest src
        value ← read_from_register src
        instruction_urem dest value)
      ∷ []

  -- NOT, AND, OR and XOR
  unfoldable pub bitwise : List (ℕ × Exec (Cpu D) Ending)
  bitwise =
      case 0x33 (do reg_ref ← fetch_byte; reject_float reg_ref; complement reg_ref)
      ∷ case 0x34 (do
        reg_ref ← fetch_byte
        reject_float reg_ref
        value_type ← reg_ref_type reg_ref
        value ← fetch_variable_size value_type
        instruction_and reg_ref value)
      ∷ case 0x35 (do
        dest ← fetch_byte
        reject_float dest
        src ← fetch_byte
        check_same_type dest src
        value ← read_from_register src
        instruction_and dest value)
      ∷ case 0x36 (do
        reg_ref ← fetch_byte
        reject_float reg_ref
        value_type ← reg_ref_type reg_ref
        value ← fetch_variable_size value_type
        instruction_or reg_ref value)
      ∷ case 0x37 (do
        dest ← fetch_byte
        reject_float dest
        src ← fetch_byte
        check_same_type dest src
        value ← read_from_register src
        instruction_or dest value)
      ∷ case 0x38 (do
        reg_ref ← fetch_byte
        reject_float reg_ref
        value_type ← reg_ref_type reg_ref
        value ← fetch_variable_size value_type
        instruction_xor reg_ref value)
      ∷ case 0x39 (do
        dest ← fetch_byte
        reject_float dest
        src ← fetch_byte
        check_same_type dest src
        value ← read_from_register src
        instruction_xor dest value)
      ∷ []

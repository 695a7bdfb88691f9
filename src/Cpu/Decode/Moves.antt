-- ===== src/Cpu/Decode/Moves.antt =====
-- Opcodes 0x06 to 0x0F of the `match` in cpu.rs: LOAD, STORE, COPY, SWAP, PUSH and POP.
use simulatron.Common.{ℕ, List, [], ◌∷◌}
use simulatron.Exec.{Exec, ◌>>=◌, ◌>>◌}
use simulatron.Platform.{Platform}
use simulatron.Cpu.State.{Cpu}
use simulatron.Cpu.Registers.{reg_ref_type, read_from_register, write_to_register}
use simulatron.Cpu.Memory.{push, pop}
use simulatron.Cpu.Blocks.{instruction_load, instruction_store, instruction_swap}
use simulatron.Cpu.Fetch.{
  Ending, case, fetch_variable_size, fetch_byte, fetch_word, register_word, check_same_type,
}

module _ {D : Type 0} ⦃platform : Platform D⦄ where
  -- LOAD, STORE, COPY, SWAP, PUSH and POP
  unfoldable pub moves : List (ℕ × Exec (Cpu D) Ending)
  moves =
      case 0x06 (do
        reg_ref_dest ← fetch_byte
        literal_address ← fetch_word
        instruction_load reg_ref_dest literal_address)
      ∷ case 0x07 (do
        reg_ref_dest ← fetch_byte
        reg_ref_address ← fetch_byte
        address ← register_word reg_ref_address
        instruction_load reg_ref_dest address)
      ∷ case 0x08 (do
        literal_address ← fetch_word
        reg_ref_source ← fetch_byte
        instruction_store literal_address reg_ref_source)
      ∷ case 0x09 (do
        reg_ref_address ← fetch_byte
        reg_ref_source ← fetch_byte
        address ← register_word reg_ref_address
        instruction_store address reg_ref_source)
      ∷ case 0x0A (do
        reg_ref_dest ← fetch_byte
        value_type ← reg_ref_type reg_ref_dest
        value ← fetch_variable_size value_type
        write_to_register reg_ref_dest value)
      ∷ case 0x0B (do
        reg_ref_dest ← fetch_byte
        reg_ref_source ← fetch_byte
        check_same_type reg_ref_dest reg_ref_source
        value ← read_from_register reg_ref_source
        write_to_register reg_ref_dest value)
      ∷ case 0x0C (do reg_ref ← fetch_byte; address ← fetch_word; instruction_swap reg_ref address)
      ∷ case 0x0D (do
        reg_ref ← fetch_byte
        address_ref ← fetch_byte
        address ← register_word address_ref
        instruction_swap reg_ref address)
      ∷ case 0x0E (do reg_ref ← fetch_byte; value ← read_from_register reg_ref; push value)
      ∷ case 0x0F (do
        reg_ref ← fetch_byte
        value_type ← reg_ref_type reg_ref
        value ← pop value_type
        write_to_register reg_ref value)
      ∷ []

-- ===== src/Cpu/Decode/Calls.antt =====
-- Opcodes 0x68 to 0x6D of the `match` in cpu.rs: CALL, RETURN, SYSCALL and the conversions.
use simulatron.Common.{ℕ, List, [], ◌∷◌, ◌&&◌, if◌then◌else◌}
use simulatron.Exec.{Exec, Done, unwrap, ◌>>=◌}
use simulatron.Platform.{Platform}
use simulatron.Cpu.State.{Cpu, illegal_operation, send_interrupt}
use simulatron.Mmu.Zones.{interrupt_syscall}
use simulatron.Cpu.Values.{word_type, float_type, word, float, same_type, to_word, to_float}
use simulatron.Cpu.Registers.{reg_ref_type, read_from_register, write_to_register}
use simulatron.Cpu.Memory.{pop}
use simulatron.Cpu.Blocks.{jump, instruction_call}
use simulatron.Cpu.Fetch.{Ending, case, fetch_byte, fetch_word, register_word}

module _ {D : Type 0} ⦃platform : Platform D⦄ where
  unfoldable pub return_from_call : Exec (Cpu D) Done
  return_from_call = do value ← pop word_type; address ← unwrap (to_word value); jump address

  -- SCONVERT and UCONVERT differ in the conversions.
  unfoldable pub convert : (ℕ → ℕ) → (ℕ → ℕ) → Exec (Cpu D) Done
  convert to_f32 from_f32 = do
    dest ← fetch_byte
    src ← fetch_byte
    dest_type ← reg_ref_type dest
    src_type ← reg_ref_type src
    if same_type src_type word_type && same_type dest_type float_type
        then (do
          value ← read_from_register src
          u ← unwrap (to_word value)
          write_to_register dest (float (to_f32 u)))
        else if same_type src_type float_type && same_type dest_type word_type
        then (do
          value ← read_from_register src
          f ← unwrap (to_float value)
          write_to_register dest (word (from_f32 f)))
        else illegal_operation

  -- CALL, RETURN, SYSCALL, SCONVERT and UCONVERT
  unfoldable pub calls : List (ℕ × Exec (Cpu D) Ending)
  calls =
      case 0x68 (do address ← fetch_word; instruction_call address)
      ∷ case 0x69
          (do reg_ref ← fetch_byte; address ← register_word reg_ref; instruction_call address)
      ∷ case 0x6A return_from_call
      ∷ case 0x6B (send_interrupt interrupt_syscall)
      ∷ case 0x6C (convert platform.float.from_i32 platform.float.to_i32)
      ∷ case 0x6D (convert platform.float.from_u32 platform.float.to_u32)
      ∷ []

-- ===== src/Cpu/Decode/Jumps.antt =====
-- Opcodes 0x48 to 0x4B and 0x54 to 0x67 of the `match` in cpu.rs: JUMP, COMPARE and the
-- conditional jumps.
use simulatron.Common.{ℕ, List, [], ◌∷◌, if◌then◌else◌}
use simulatron.Exec.{Exec, Done, pure, gets, ◌>>=◌, ◌>>◌}
use simulatron.Platform.{Platform}
use simulatron.Cpu.State.{Cpu}
use simulatron.Cpu.Registers.{reg_ref_type, read_from_register}
use simulatron.Cpu.Flags.{
  Condition, holds, jequal, jnotequal, sjgreater, sjgreatereq, ujgreater, ujgreatereq, sjlesser,
  sjlessereq, ujlesser, ujlessereq,
}
use simulatron.Cpu.Alu.{instruction_compare}
use simulatron.Cpu.Blocks.{jump}
use simulatron.Cpu.Fetch.{
  Ending, case, fetch_variable_size, fetch_byte, fetch_word, register_word, check_same_type,
}

module _ {D : Type 0} ⦃platform : Platform D⦄ where
  unfoldable pub jump_if : Condition → ℕ → Exec (Cpu D) Done
  jump_if condition address = do
    flags ← gets (λ c. c.flags)
    if holds condition flags then jump address else pure tt

  -- the macros `cond_jump_literal!` and `cond_jump_reference!`
  unfoldable pub cond_jump_literal : Condition → Exec (Cpu D) Done
  cond_jump_literal condition = do address ← fetch_word; jump_if condition address

  unfoldable pub cond_jump_reference : Condition → Exec (Cpu D) Done
  cond_jump_reference condition = do
    reg_ref ← fetch_byte
    address ← register_word reg_ref
    jump_if condition address

  -- JUMP and COMPARE
  unfoldable pub jumps_and_compares : List (ℕ × Exec (Cpu D) Ending)
  jumps_and_compares =
      case 0x48 (do address ← fetch_word; jump address)
      ∷ case 0x49 (do reg_ref ← fetch_byte; address ← register_word reg_ref; jump address)
      ∷ case 0x4A (do
        reg_ref ← fetch_byte
        value_type ← reg_ref_type reg_ref
        value ← fetch_variable_size value_type
        instruction_compare reg_ref value)
      ∷ case 0x4B (do
        dest ← fetch_byte
        src ← fetch_byte
        check_same_type dest src
        value ← read_from_register src
        instruction_compare dest value)
      ∷ []

  -- JEQUAL to UJLESSEREQ
  unfoldable pub conditional_jumps : List (ℕ × Exec (Cpu D) Ending)
  conditional_jumps =
      case 0x54 (cond_jump_literal jequal)
      ∷ case 0x55 (cond_jump_reference jequal)
      ∷ case 0x56 (cond_jump_literal jnotequal)
      ∷ case 0x57 (cond_jump_reference jnotequal)
      ∷ case 0x58 (cond_jump_literal sjgreater)
      ∷ case 0x59 (cond_jump_reference sjgreater)
      ∷ case 0x5A (cond_jump_literal sjgreatereq)
      ∷ case 0x5B (cond_jump_reference sjgreatereq)
      ∷ case 0x5C (cond_jump_literal ujgreater)
      ∷ case 0x5D (cond_jump_reference ujgreater)
      ∷ case 0x5E (cond_jump_literal ujgreatereq)
      ∷ case 0x5F (cond_jump_reference ujgreatereq)
      ∷ case 0x60 (cond_jump_literal sjlesser)
      ∷ case 0x61 (cond_jump_reference sjlesser)
      ∷ case 0x62 (cond_jump_literal sjlessereq)
      ∷ case 0x63 (cond_jump_reference sjlessereq)
      ∷ case 0x64 (cond_jump_literal ujlesser)
      ∷ case 0x65 (cond_jump_reference ujlesser)
      ∷ case 0x66 (cond_jump_literal ujlessereq)
      ∷ case 0x67 (cond_jump_reference ujlessereq)
      ∷ []

-- ===== src/Cpu/Decode/Shifts.antt =====
-- Opcodes 0x3A to 0x47 of the `match` in cpu.rs: shifts and rotations.
use simulatron.Common.{ℕ, List, [], ◌∷◌}
use simulatron.Exec.{Exec, ◌>>=◌, ◌>>◌}
use simulatron.Platform.{Platform}
use simulatron.Cpu.State.{Cpu}
use simulatron.Cpu.Shifts.{
  instruction_lshift, instruction_srshift, instruction_urshift, instruction_lrot, instruction_rrot,
  instruction_lrotcarry, instruction_rrotcarry,
}
use simulatron.Cpu.Fetch.{Ending, case, fetch_byte, register_byte, reject_float}

module _ {D : Type 0} ⦃platform : Platform D⦄ where
  -- LSHIFT, SRSHIFT, URSHIFT, LROT and RROT
  unfoldable pub shifts : List (ℕ × Exec (Cpu D) Ending)
  shifts =
      case 0x3A (do
        reg_ref ← fetch_byte
        reject_float reg_ref
        value ← fetch_byte
        instruction_lshift reg_ref value)
      ∷ case 0x3B (do
        reg_ref ← fetch_byte
        reject_float reg_ref
        value_ref ← fetch_byte
        value ← register_byte value_ref
        instruction_lshift reg_ref value)
      ∷ case 0x3C (do
        reg_ref ← fetch_byte
        reject_float reg_ref
        value ← fetch_byte
        instruction_srshift reg_ref value)
      ∷ case 0x3D (do
        reg_ref ← fetch_byte
        reject_float reg_ref
        value_ref ← fetch_byte
        value ← register_byte value_ref
        instruction_srshift reg_ref value)
      ∷ case 0x3E (do
        reg_ref ← fetch_byte
        reject_float reg_ref
        value ← fetch_byte
        instruction_urshift reg_ref value)
      ∷ case 0x3F (do
        reg_ref ← fetch_byte
        reject_float reg_ref
        value_ref ← fetch_byte
        value ← register_byte value_ref
        instruction_urshift reg_ref value)
      ∷ case 0x40 (do
        reg_ref ← fetch_byte
        reject_float reg_ref
        value ← fetch_byte
        instruction_lrot reg_ref value)
      ∷ case 0x41 (do
        reg_ref ← fetch_byte
        reject_float reg_ref
        value_ref ← fetch_byte
        value ← register_byte value_ref
        instruction_lrot reg_ref value)
      ∷ case 0x42 (do
        reg_ref ← fetch_byte
        reject_float reg_ref
        value ← fetch_byte
        instruction_rrot reg_ref value)
      ∷ case 0x43 (do
        reg_ref ← fetch_byte
        reject_float reg_ref
        value_ref ← fetch_byte
        value ← register_byte value_ref
        instruction_rrot reg_ref value)
      ∷ []

  -- LROTCARRY and RROTCARRY
  unfoldable pub carry_rotations : List (ℕ × Exec (Cpu D) Ending)
  carry_rotations =
      case 0x44 (do
        reg_ref ← fetch_byte
        reject_float reg_ref
        value ← fetch_byte
        instruction_lrotcarry reg_ref value)
      ∷ case 0x45 (do
        reg_ref ← fetch_byte
        reject_float reg_ref
        value_ref ← fetch_byte
        value ← register_byte value_ref
        instruction_lrotcarry reg_ref value)
      ∷ case 0x46 (do
        reg_ref ← fetch_byte
        reject_float reg_ref
        value ← fetch_byte
        instruction_rrotcarry reg_ref value)
      ∷ case 0x47 (do
        reg_ref ← fetch_byte
        reject_float reg_ref
        value_ref ← fetch_byte
        value ← register_byte value_ref
        instruction_rrotcarry reg_ref value)
      ∷ []

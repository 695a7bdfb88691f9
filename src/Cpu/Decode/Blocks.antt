-- ===== src/Cpu/Decode/Blocks.antt =====
-- Opcodes 0x10 to 0x1F and 0x4C to 0x53 of the `match` in cpu.rs: the block instructions.
use simulatron.Common.{ℕ, List, [], ◌∷◌}
use simulatron.Exec.{Exec, ◌>>=◌}
use simulatron.Platform.{Platform}
use simulatron.Cpu.State.{Cpu}
use simulatron.Cpu.Blocks.{instruction_blockcopy, instruction_blockset, instruction_blockcmp}
use simulatron.Cpu.Fetch.{Ending, case, fetch_byte, fetch_word, register_word, register_byte}

module _ {D : Type 0} ⦃platform : Platform D⦄ where
  -- BLOCKCOPY
  unfoldable pub block_copies : List (ℕ × Exec (Cpu D) Ending)
  block_copies =
      case 0x10 (do
        length ← fetch_word
        dest_address ← fetch_word
        source_address ← fetch_word
        instruction_blockcopy length dest_address source_address)
      ∷ case 0x11 (do
        length ← fetch_word
        dest_address ← fetch_word
        source_address_ref ← fetch_byte
        source_address ← register_word source_address_ref
        instruction_blockcopy length dest_address source_address)
      ∷ case 0x12 (do
        length ← fetch_word
        dest_address_ref ← fetch_byte
        source_address ← fetch_word
        dest_address ← register_word dest_address_ref
        instruction_blockcopy length dest_address source_address)
      ∷ case 0x13 (do
        length ← fetch_word
        dest_address_ref ← fetch_byte
        source_address_ref ← fetch_byte
        dest_address ← register_word dest_address_ref
        source_address ← register_word source_address_ref
        instruction_blockcopy length dest_address source_address)
      ∷ case 0x14 (do
        length_ref ← fetch_byte
        dest_address ← fetch_word
        source_address ← fetch_word
        length ← register_word length_ref
        instruction_blockcopy length dest_address source_address)
      ∷ case 0x15 (do
        length_ref ← fetch_byte
        dest_address ← fetch_word
        source_address_ref ← fetch_byte
        length ← register_word length_ref
        source_address ← register_word source_address_ref
        instruction_blockcopy length dest_address source_address)
      ∷ case 0x16 (do
        length_ref ← fetch_byte
        dest_address_ref ← fetch_byte
        source_address ← fetch_word
        length ← register_word length_ref
        dest_address ← register_word dest_address_ref
        instruction_blockcopy length dest_address source_address)
      ∷ case 0x17 (do
        length_ref ← fetch_byte
        dest_address_ref ← fetch_byte
        source_address_ref ← fetch_byte
        length ← register_word length_ref
        dest_address ← register_word dest_address_ref
        source_address ← register_word source_address_ref
        instruction_blockcopy length dest_address source_address)
      ∷ []

  -- BLOCKSET
  unfoldable pub block_sets : List (ℕ × Exec (Cpu D) Ending)
  block_sets =
      case 0x18 (do
        length ← fetch_word
        dest_address ← fetch_word
        value ← fetch_byte
        instruction_blockset length dest_address value)
      ∷ case 0x19 (do
        length ← fetch_word
        dest_address ← fetch_word
        value_ref ← fetch_byte
        value ← register_byte value_ref
        instruction_blockset length dest_address value)
      ∷ case 0x1A (do
        length ← fetch_word
        dest_address_ref ← fetch_byte
        dest_address ← register_word dest_address_ref
        value ← fetch_byte
        instruction_blockset length dest_address value)
      ∷ case 0x1B (do
        length ← fetch_word
        dest_address_ref ← fetch_byte
        dest_address ← register_word dest_address_ref
        value_ref ← fetch_byte
        value ← register_byte value_ref
        instruction_blockset length dest_address value)
      ∷ case 0x1C (do
        length_ref ← fetch_byte
        length ← register_word length_ref
        dest_address ← fetch_word
        value ← fetch_byte
        instruction_blockset length dest_address value)
      ∷ case 0x1D (do
        length_ref ← fetch_byte
        length ← register_word length_ref
        dest_address ← fetch_word
        value_ref ← fetch_byte
        value ← register_byte value_ref
        instruction_blockset length dest_address value)
      ∷ case 0x1E (do
        length_ref ← fetch_byte
        length ← register_word length_ref
        dest_address_ref ← fetch_byte
        dest_address ← register_word dest_address_ref
        value ← fetch_byte
        instruction_blockset length dest_address value)
      ∷ case 0x1F (do
        length_ref ← fetch_byte
        length ← register_word length_ref
        dest_address_ref ← fetch_byte
        dest_address ← register_word dest_address_ref
        value_ref ← fetch_byte
        value ← register_byte value_ref
        instruction_blockset length dest_address value)
      ∷ []

  -- BLOCKCMP
  unfoldable pub block_compares : List (ℕ × Exec (Cpu D) Ending)
  block_compares =
      case 0x4C (do
        length ← fetch_word
        source1 ← fetch_word
        source2 ← fetch_word
        instruction_blockcmp length source1 source2)
      ∷ case 0x4D (do
        length ← fetch_word
        source1 ← fetch_word
        source2_ref ← fetch_byte
        source2 ← register_word source2_ref
        instruction_blockcmp length source1 source2)
      ∷ case 0x4E (do
        length ← fetch_word
        source1_ref ← fetch_byte
        source2 ← fetch_word
        source1 ← register_word source1_ref
        instruction_blockcmp length source1 source2)
      ∷ case 0x4F (do
        length ← fetch_word
        source1_ref ← fetch_byte
        source2_ref ← fetch_byte
        source1 ← register_word source1_ref
        source2 ← register_word source2_ref
        instruction_blockcmp length source1 source2)
      ∷ case 0x50 (do
        length_ref ← fetch_byte
        source1 ← fetch_word
        source2 ← fetch_word
        length ← register_word length_ref
        instruction_blockcmp length source1 source2)
      ∷ case 0x51 (do
        length_ref ← fetch_byte
        source1 ← fetch_word
        source2_ref ← fetch_byte
        length ← register_word length_ref
        source2 ← register_word source2_ref
        instruction_blockcmp length source1 source2)
      ∷ case 0x52 (do
        length_ref ← fetch_byte
        source1_ref ← fetch_byte
        source2 ← fetch_word
        length ← register_word length_ref
        source1 ← register_word source1_ref
        instruction_blockcmp length source1 source2)
      ∷ case 0x53 (do
        length_ref ← fetch_byte
        source1_ref ← fetch_byte
        source2_ref ← fetch_byte
        length ← register_word length_ref
        source1 ← register_word source1_ref
        source2 ← register_word source2_ref
        instruction_blockcmp length source1 source2)
      ∷ []

-- ===== src/Mmu/Keyboard.antt =====
-- The keyboard controller, Crates/simulatron-vm/src/lib/keyboard.rs: the buffers that the listener
-- thread writes and the processor reads.
use simulatron.Common.{ℕ, bit_or, Bool, Option, none, some, ◌==◌, if◌then◌else◌}

pub record SharedData : Type 0 where
  pub key_buffer : ℕ
  pub metadata_buffer : ℕ

-- What the listener thread writes on a key message; it then sends the keyboard interrupt.
unfoldable pub record_key : ℕ → Bool → Bool → SharedData → SharedData
record_key key ctrl alt sd = record {
  key_buffer = key;
  metadata_buffer = bit_or (if ctrl then 0b1 else 0) (if alt then 0b10 else 0);
}

-- `none` is `unreachable!()`.
unfoldable pub load : SharedData → ℕ → Option ℕ
load sd address =
    if address == 0
    then some sd.key_buffer
    else if address == 1
    then some sd.metadata_buffer
    else none

-- ===== src/Mmu/State.antt =====
-- The state of the memory management unit (mmu.rs) and the interrupt channel.
use simulatron.Common.{ℕ, List, [], ◌∷◌, ◌++◌, replicate}
use simulatron.Exec.{Exec, Done, try_again_error, modify, raise, ◌>>◌}
use simulatron.Ram.Eager
use simulatron.Mmu.Zones.{interrupt_vector_size, interrupt_illegal_operation}
use simulatron.Mmu.Display.{UiCommand}
use simulatron.Mmu.Keyboard.{SharedData}

-- `interrupt_channel` holds what has been sent and not received, oldest first. The senders of the
-- unit, of the processor and of the devices are clones of one sender.
pub record Mmu (D : Type 0) : Type 0 where
  pub interrupt_channel : List ℕ
  pub interrupt_vector : List ℕ
  pub disk_a : D
  pub disk_b : D
  pub display : List UiCommand
  pub keyboard : SharedData
  pub ram : Eager.Ram
  pub rom : List ℕ
  pub pfsr : ℕ

unfoldable pub new : {D : Type 0} → D → D → List ℕ → Mmu D
unfolding Eager.new replicate
new disk_a disk_b rom = record {
  interrupt_channel = [];
  interrupt_vector = replicate interrupt_vector_size 0;
  disk_a = disk_a;
  disk_b = disk_b;
  display = [];
  keyboard = record { key_buffer = 0; metadata_buffer = 0 };
  ram = Eager.new;
  rom = rom;
  pfsr = 0;
}

-- `interrupt_tx.send(interrupt).unwrap()`; the receiver lives as long as the processor.
unfoldable pub send : {D : Type 0} → ℕ → Exec (Mmu D) Done
unfolding modify
send interrupt = modify λ m. record m { interrupt_channel = m.interrupt_channel ++ interrupt ∷ [] }

-- the macro `reject!`
unfoldable pub reject : {D A : Type 0} → Exec (Mmu D) A
unfolding send raise ◌>>◌
reject = send interrupt_illegal_operation >> raise try_again_error

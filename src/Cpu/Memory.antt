-- ===== src/Cpu/Memory.antt =====
-- Loads, stores and the stacks (cpu.rs). Kernel mode uses physical addresses.
pub mod Stack
use simulatron.Common.{ℕ, ◌+◌, ◌-◌, ◌%◌, ◌^◌, Bool, false, if◌then◌else◌}
use simulatron.Exec.{Exec, Done, pure, gets, modify, ◌>>=◌, ◌>>◌}
use simulatron.Platform.{Platform}
use simulatron.Mmu.State.{Mmu}
use simulatron.Mmu.Physical.{
  store_physical_8, store_physical_16, store_physical_32, load_physical_8, load_physical_16,
  load_physical_32,
}
use simulatron.Mmu.Virtual.{
  store_virtual_8, store_virtual_16, store_virtual_32, load_virtual_8, load_virtual_16,
  load_virtual_32,
}
use simulatron.Cpu.Values.{
  ValueType, byte_type, half_type, word_type, float_type, TypedValue, byte, half, word, float,
  size_in_bytes,
}
use simulatron.Cpu.State.{Cpu, with_mmu}

module _ {D : Type 0} ⦃platform : Platform D⦄ where
  -- `if self.kernel_mode { physical } else { virtual }`
  unfoldable pub by_mode : {A : Type 0} → Exec (Mmu D) A → (ℕ → Exec (Mmu D) A) → Exec (Cpu D) A
  by_mode physical virtual = do
    kernel ← gets (λ c. c.kernel_mode)
    pdpr ← gets (λ c. c.pdpr)
    with_mmu (if kernel then physical else virtual pdpr)

  unfoldable pub store : ℕ → TypedValue → Exec (Cpu D) Done
  store address (byte b) =
      by_mode (store_physical_8 address b) (λ pdpr. store_virtual_8 pdpr address b)
  store address (half h) =
      by_mode (store_physical_16 address h) (λ pdpr. store_virtual_16 pdpr address h)
  store address (word w) =
      by_mode (store_physical_32 address w) (λ pdpr. store_virtual_32 pdpr address w)
  store address (float f) =
      by_mode (store_physical_32 address f) (λ pdpr. store_virtual_32 pdpr address f)

  unfoldable pub load : ℕ → Bool → ValueType → Exec (Cpu D) TypedValue
  load address is_fetch byte_type = do
    x ← by_mode (load_physical_8 address) (λ pdpr. load_virtual_8 pdpr address is_fetch)
    pure (byte x)
  load address is_fetch half_type = do
    x ← by_mode (load_physical_16 address) (λ pdpr. load_virtual_16 pdpr address is_fetch)
    pure (half x)
  load address is_fetch word_type = do
    x ← by_mode (load_physical_32 address) (λ pdpr. load_virtual_32 pdpr address is_fetch)
    pure (word x)
  load address is_fetch float_type = do
    x ← by_mode (load_physical_32 address) (λ pdpr. load_virtual_32 pdpr address is_fetch)
    pure (float x)

  abbrev pub stack_pointer : Cpu D → ℕ
  stack_pointer c = if c.kernel_mode then c.kspr else c.uspr

  unfoldable pub set_stack_pointer : ℕ → Exec (Cpu D) Done
  set_stack_pointer v =
      modify (λ c. if c.kernel_mode then record c { kspr = v } else record c { uspr = v })

  unfoldable pub push : TypedValue → Exec (Cpu D) Done
  push value = do
    sp ← gets stack_pointer
    let lower = (sp + 2 ^ 32 - size_in_bytes value) % 2 ^ 32
    set_stack_pointer lower
    store lower value

  unfoldable pub pop : ValueType → Exec (Cpu D) TypedValue
  pop value_type = do
    sp ← gets stack_pointer
    value ← load sp false value_type
    set_stack_pointer ((sp + size_in_bytes value) % 2 ^ 32)
    pure value

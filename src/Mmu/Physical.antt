-- ===== src/Mmu/Physical.antt =====
-- Physical memory accesses (mmu.rs): the memory map, and words as big-endian bytes.
pub mod RoundTrip
pub mod Devices
pub mod Answers
pub mod Stored
pub mod Stores
use simulatron.Common.{
  ℕ, ◌+◌, ◌-◌, ◌*◌, ◌/◌, ◌%◌, ◌^◌, Option, none, some, ltb, if◌then◌else◌, get_elem?, set,
}
use simulatron.Exec.{Exec, Outcome, ok, panic, Done, pure, add_u32, ◌>>=◌, ◌>>◌}
use simulatron.Platform.{Platform}
use simulatron.Ram.Eager
use simulatron.Mmu.Zones.{
  begin_reserved_1, begin_rom, begin_display, begin_keyboard, begin_reserved_2, begin_disk_a_status,
  begin_disk_a_address, begin_disk_a_command, begin_disk_b_status, begin_disk_b_address,
  begin_disk_b_command, begin_disk_a_data, begin_disk_b_data, begin_ram,
}
use simulatron.Mmu.Display
use simulatron.Mmu.Keyboard
use simulatron.Mmu.State.{Mmu, reject}

-- `u16::to_be_bytes` and `u32::to_be_bytes`: the byte `k` places from the right.
abbrev pub byte_of : ℕ → ℕ → ℕ
byte_of k value = value / 2 ^ (8 * k) % 2 ^ 8

abbrev pub from_be_bytes_16 : ℕ → ℕ → ℕ
from_be_bytes_16 upper lower = upper * 2 ^ 8 + lower

abbrev pub from_be_bytes_32 : ℕ → ℕ → ℕ → ℕ → ℕ
from_be_bytes_32 upper upper_mid lower_mid lower =
    upper * 2 ^ 24 + upper_mid * 2 ^ 16 + lower_mid * 2 ^ 8 + lower

-- an indexed read, `none` being the panic
abbrev pub or_panic : {S A : Type 0} → Option A → S → Outcome S A
or_panic none s = panic
or_panic (some a) s = ok a s

abbrev pub then_put : {S A : Type 0} → Option A → (A → S) → Outcome S Done
then_put none f = panic
then_put (some a) f = ok tt (f a)

-- `self.interrupt_vector[i] = value`
unfoldable pub store_vector : {D : Type 0} → ℕ → ℕ → Exec (Mmu D) Done
store_vector i value m =
    then_put (get_elem? m.interrupt_vector i)
      λ _. record m { interrupt_vector = set m.interrupt_vector i value }

module _ {D : Type 0} ⦃platform : Platform D⦄ where
  open platform use {debug, disk}

  unfoldable pub store_physical_8 : ℕ → ℕ → Exec (Mmu D) Done
  unfolding store_vector reject
  store_physical_8 address value m =
      if ltb address begin_reserved_1
      then store_vector address value m
      else if ltb address begin_display
      then reject m
      else if ltb address begin_keyboard
      then then_put (Display.store m.display (address - begin_display) value)
          (λ sent. record m { display = sent })
      else if ltb address begin_disk_a_address
      then reject m
      else if ltb address begin_disk_b_status
      then then_put (disk.store_control m.disk_a (address - begin_disk_a_status) value)
          (λ disk_a. record m { disk_a = disk_a })
      else if ltb address begin_disk_b_address
      then reject m
      else if ltb address begin_disk_a_data
      then then_put (disk.store_control m.disk_b (address - begin_disk_b_status) value)
          (λ disk_b. record m { disk_b = disk_b })
      else if ltb address begin_disk_b_data
      then then_put (disk.store_data m.disk_a (address - begin_disk_a_data) value)
          (λ disk_a. record m { disk_a = disk_a })
      else if ltb address begin_ram
      then then_put (disk.store_data m.disk_b (address - begin_disk_b_data) value)
          (λ disk_b. record m { disk_b = disk_b })
      else then_put (Eager.store m.ram (address - begin_ram) value) (λ ram. record m { ram = ram })

  unfoldable pub load_physical_8 : ℕ → Exec (Mmu D) ℕ
  unfolding reject
  load_physical_8 address m =
      if ltb address begin_reserved_1
      then or_panic (get_elem? m.interrupt_vector address) m
      else if ltb address begin_rom
      then reject m
      else if ltb address begin_display
      then or_panic (get_elem? m.rom (address - begin_rom)) m
      else if ltb address begin_keyboard
      then reject m
      else if ltb address begin_reserved_2
      then or_panic (Keyboard.load m.keyboard (address - begin_keyboard)) m
      else if ltb address begin_disk_a_status
      then reject m
      else if ltb address begin_disk_a_command
      then or_panic (disk.load_status m.disk_a (address - begin_disk_a_status)) m
      else if ltb address begin_disk_b_status
      then reject m
      else if ltb address begin_disk_b_command
      then or_panic (disk.load_status m.disk_b (address - begin_disk_b_status)) m
      else if ltb address begin_disk_a_data
      then reject m
      else if ltb address begin_disk_b_data
      then or_panic (disk.load_data m.disk_a (address - begin_disk_a_data)) m
      else if ltb address begin_ram
      then or_panic (disk.load_data m.disk_b (address - begin_disk_b_data)) m
      else or_panic (Eager.index m.ram (address - begin_ram)) m

  unfoldable pub store_physical_16 : ℕ → ℕ → Exec (Mmu D) Done
  store_physical_16 address value = do
    store_physical_8 address (byte_of 1 value)
    a₁ ← add_u32 debug address 1
    store_physical_8 a₁ (byte_of 0 value)

  unfoldable pub store_physical_32 : ℕ → ℕ → Exec (Mmu D) Done
  store_physical_32 address value = do
    store_physical_8 address (byte_of 3 value)
    a₁ ← add_u32 debug address 1
    store_physical_8 a₁ (byte_of 2 value)
    a₂ ← add_u32 debug address 2
    store_physical_8 a₂ (byte_of 1 value)
    a₃ ← add_u32 debug address 3
    store_physical_8 a₃ (byte_of 0 value)

  unfoldable pub load_physical_16 : ℕ → Exec (Mmu D) ℕ
  load_physical_16 address = do
    upper ← load_physical_8 address
    a₁ ← add_u32 debug address 1
    lower ← load_physical_8 a₁
    pure (from_be_bytes_16 upper lower)

  unfoldable pub load_physical_32 : ℕ → Exec (Mmu D) ℕ
  load_physical_32 address = do
    upper ← load_physical_8 address
    a₁ ← add_u32 debug address 1
    upper_mid ← load_physical_8 a₁
    a₂ ← add_u32 debug address 2
    lower_mid ← load_physical_8 a₂
    a₃ ← add_u32 debug address 3
    lower ← load_physical_8 a₃
    pure (from_be_bytes_32 upper upper_mid lower_mid lower)

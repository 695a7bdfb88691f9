-- ===== src/Mmu/Virtual.antt =====
-- Virtual memory accesses (mmu.rs): the two-level page tables and their faults.
pub mod Translation
use simulatron.Common.{ℕ, ◌*◌, ◌/◌, ◌^◌, bit_and, bit_or, Bool, false, not, ◌==◌, if◌then◌else◌}
use simulatron.Exec.{Exec, Done, try_again_error, pure, raise, modify, add_u32, ◌>>=◌, ◌>>◌}
use simulatron.Platform.{Platform}
use simulatron.Mmu.Zones.{
  page_fault_invalid_page, page_fault_illegal_access, page_fault_not_present, page_fault_cow,
  interrupt_page_fault,
}
use simulatron.Mmu.State.{Mmu, send}
use simulatron.Mmu.Physical.{
  byte_of, from_be_bytes_16, from_be_bytes_32, store_physical_8, load_physical_8, load_physical_32,
}

pub data Intent : Type 0 where
  read write execute : Intent

-- the permission bit of a page table entry
abbrev pub permission : Intent → ℕ
permission read = 4
permission write = 8
permission execute = 16

-- the test of copy-on-write, made for writes only
abbrev pub copies_on : Intent → ℕ → Bool
copies_on write entry = not (bit_and entry 32 == 0)
copies_on _ entry = false

-- `if test { self.pfsr = code; self.interrupt_tx.send(..); return Err(TryAgainError); }`
unfoldable pub fault_if : {D : Type 0} → Bool → ℕ → Exec (Mmu D) Done
fault_if test code =
    if test
    then (do modify λ m. record m { pfsr = code }; send interrupt_page_fault; raise try_again_error)
    else pure tt

module _ {D : Type 0} ⦃platform : Platform D⦄ where
  open platform use {debug}

  unfoldable pub virtual_to_physical_address : ℕ → ℕ → Intent → Exec (Mmu D) ℕ
  virtual_to_physical_address virtual_address pdpr intent = do
    directory_entry_address ← add_u32 debug pdpr (4 * (virtual_address / 2 ^ 22))
    directory_entry ← load_physical_32 directory_entry_address
    fault_if (bit_and directory_entry 1 == 0) page_fault_invalid_page
    let page_table_base = bit_and directory_entry 0xFFFFF000
    let page_table_offset = 4 * bit_and (virtual_address / 2 ^ 12) 0x3FF
    entry_address ← add_u32 debug page_table_base page_table_offset
    page_table_entry ← load_physical_32 entry_address
    fault_if (bit_and page_table_entry 1 == 0) page_fault_invalid_page
    fault_if (bit_and page_table_entry 2 == 0) page_fault_not_present
    fault_if (bit_and page_table_entry (permission intent) == 0) page_fault_illegal_access
    fault_if (copies_on intent page_table_entry) page_fault_cow
    let frame = bit_and page_table_entry 0xFFFFF000
    let frame_offset = bit_and virtual_address 0xFFF
    pure (bit_or frame frame_offset)

  unfoldable pub store_virtual_8 : ℕ → ℕ → ℕ → Exec (Mmu D) Done
  store_virtual_8 pdpr address value = do
    physical_address ← virtual_to_physical_address address pdpr write
    store_physical_8 physical_address value

  unfoldable pub store_virtual_16 : ℕ → ℕ → ℕ → Exec (Mmu D) Done
  store_virtual_16 pdpr address value = do
    store_virtual_8 pdpr address (byte_of 1 value)
    a₁ ← add_u32 debug address 1
    store_virtual_8 pdpr a₁ (byte_of 0 value)

  unfoldable pub store_virtual_32 : ℕ → ℕ → ℕ → Exec (Mmu D) Done
  store_virtual_32 pdpr address value = do
    store_virtual_8 pdpr address (byte_of 3 value)
    a₁ ← add_u32 debug address 1
    store_virtual_8 pdpr a₁ (byte_of 2 value)
    a₂ ← add_u32 debug address 2
    store_virtual_8 pdpr a₂ (byte_of 1 value)
    a₃ ← add_u32 debug address 3
    store_virtual_8 pdpr a₃ (byte_of 0 value)

  unfoldable pub load_virtual_8 : ℕ → ℕ → Bool → Exec (Mmu D) ℕ
  load_virtual_8 pdpr address is_fetch = do
    physical_address ← virtual_to_physical_address address pdpr (if is_fetch then execute else read)
    load_physical_8 physical_address

  unfoldable pub load_virtual_16 : ℕ → ℕ → Bool → Exec (Mmu D) ℕ
  load_virtual_16 pdpr address is_fetch = do
    upper ← load_virtual_8 pdpr address is_fetch
    a₁ ← add_u32 debug address 1
    lower ← load_virtual_8 pdpr a₁ is_fetch
    pure (from_be_bytes_16 upper lower)

  unfoldable pub load_virtual_32 : ℕ → ℕ → Bool → Exec (Mmu D) ℕ
  load_virtual_32 pdpr address is_fetch = do
    upper ← load_virtual_8 pdpr address is_fetch
    a₁ ← add_u32 debug address 1
    upper_mid ← load_virtual_8 pdpr a₁ is_fetch
    a₂ ← add_u32 debug address 2
    lower_mid ← load_virtual_8 pdpr a₂ is_fetch
    a₃ ← add_u32 debug address 3
    lower ← load_virtual_8 pdpr a₃ is_fetch
    pure (from_be_bytes_32 upper upper_mid lower_mid lower)

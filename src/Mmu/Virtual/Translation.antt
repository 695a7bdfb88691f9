-- ===== src/Mmu/Virtual/Translation.antt =====
-- What the page tables make of a virtual address (mmu.rs).
use simulatron.Common.{
  ℕ, zero, suc, ◌+◌, ◌-◌, ◌*◌, ◌/◌, ◌%◌, ◌^◌, ◌<◌, ◌≡◌, refl, ◌∙◌, arith, bit_and, bit_or, Bool,
  true, false, not, ◌&&◌, ◌==◌, if◌then◌else◌, ◌++◌, ◌∷◌, [],
}
use simulatron.Common.Bits.{and_low, and_field, or_fields}
use simulatron.Exec.{Exec, Outcome, ok, err, try_again_error, pure, raise, modify, ◌>>=◌, ◌>>◌}
use simulatron.Platform.{Platform}
use simulatron.Mmu.Zones.{
  page_fault_invalid_page, page_fault_illegal_access, page_fault_not_present, page_fault_cow,
  interrupt_page_fault,
}
use simulatron.Mmu.State.{Mmu, send}
use simulatron.Mmu.Physical.{load_physical_32}
use simulatron.Mmu.Physical.RoundTrip.{add_u32_fits}
use simulatron.Mmu.Virtual.{
  Intent, read, write, execute, permission, copies_on, fault_if, virtual_to_physical_address,
}

-- bit `k` of an entry
abbrev pub bit : ℕ → ℕ → Bool
bit k entry = entry / 2 ^ k % 2 == 1

-- the number of the bit that permits an access
abbrev pub permission_bit : Intent → ℕ
permission_bit read = 2
permission_bit write = 3
permission_bit execute = 4

abbrev pub writes : Intent → Bool
writes write = true
writes _ = false

-- A page fault records its code and sends its interrupt.
abbrev pub faulted : {D : Type 0} → Mmu D → ℕ → Outcome (Mmu D) ℕ
faulted m code =
    err try_again_error (record m {
      pfsr = code;
      interrupt_channel = m.interrupt_channel ++ interrupt_page_fault ∷ [];
    })

-- The outcome for a page table entry, by its fields: a frame of 2 ^ 12 bytes above the flags.
abbrev pub located : {D : Type 0} → Mmu D → ℕ → Intent → ℕ → Outcome (Mmu D) ℕ
located m address intent entry =
    if not (bit 0 entry)
    then faulted m page_fault_invalid_page
    else if not (bit 1 entry)
    then faulted m page_fault_not_present
    else if not (bit (permission_bit intent) entry)
    then faulted m page_fault_illegal_access
    else if writes intent && bit 5 entry
    then faulted m page_fault_cow
    else ok (entry / 2 ^ 12 * 2 ^ 12 + address % 2 ^ 12) m

-- The outcome for a directory entry and the page table entry that it leads to.
abbrev pub translated : {D : Type 0} → Mmu D → ℕ → Intent → ℕ → ℕ → Outcome (Mmu D) ℕ
translated m address intent directory_entry entry =
    if not (bit 0 directory_entry)
    then faulted m page_fault_invalid_page
    else located m address intent entry

scaled : (q y : ℕ) → 0 < y → q < 2 → (q * y == 0) ≡ not (q == 1)
scaled zero y h k = ground arith
scaled (suc zero) y h k = ground arith
scaled (suc (suc q)) y h k = absurd (omega arith)

test_bit : (k x : ℕ) → 0 < 2 ^ k → (bit_and x ((2 ^ 1 - 1) * 2 ^ k) == 0) ≡ not (bit k x)
test_bit k x h = rw (and_field k 1 x) (scaled (x / 2 ^ k % 2) (2 ^ k) h (omega arith))

permitted :
    (intent : Intent) (entry : ℕ)
    → (bit_and entry (permission intent) == 0) ≡ not (bit (permission_bit intent) entry)
permitted read entry = test_bit 2 entry (omega arith)
permitted write entry = test_bit 3 entry (omega arith)
permitted execute entry = test_bit 4 entry (omega arith)

copied : (intent : Intent) (entry : ℕ) → copies_on intent entry ≡ (writes intent && bit 5 entry)
copied read entry = refl
copied write entry = ground (arith, test_bit 5 entry (omega arith))
copied execute entry = refl

upper_field : (x : ℕ) → x < 2 ^ 32 → bit_and x 0xFFFFF000 ≡ x / 2 ^ 12 * 2 ^ 12
upper_field x h = and_field 12 20 x ∙ omega arith

joined : (x a : ℕ) → bit_or (x / 2 ^ 12 * 2 ^ 12) (a % 2 ^ 12) ≡ x / 2 ^ 12 * 2 ^ 12 + a % 2 ^ 12
joined x a = or_fields 12 (x / 2 ^ 12) (a % 2 ^ 12) (omega arith)

module _ {D : Type 0} (m : Mmu D) where
  -- a test for a fault, and what follows it
  tested :
      (b : Bool) (code : ℕ) (k : Exec (Mmu D) ℕ)
      → (fault_if b code >> k) m ≡ (if b then faulted m code else k m)
  unfolding fault_if send modify raise pure ◌>>=◌ ◌>>◌
  tested true code k = refl
  tested false code k = refl

module _ {D : Type 0} ⦃platform : Platform D⦄ where
  open platform use {debug}

  located_lem :
      (m : Mmu D) (address : ℕ) (intent : Intent) (entry : ℕ)
      → entry < 2 ^ 32
      → (fault_if (bit_and entry 1 == 0) page_fault_invalid_page
            >> (fault_if (bit_and entry 2 == 0) page_fault_not_present
                >> (fault_if (bit_and entry (permission intent) == 0) page_fault_illegal_access
                    >> (fault_if (copies_on intent entry) page_fault_cow
                        >> pure (bit_or (bit_and entry 0xFFFFF000) (bit_and address 0xFFF))))))
          m
        ≡ located m address intent entry
  unfolding pure
  located_lem m address intent entry h =
      rw
        (
          tested m,
          tested m,
          tested m,
          tested m,
          test_bit 0 entry (omega arith),
          test_bit 1 entry (omega arith),
          permitted intent entry,
          copied intent entry,
          upper_field entry h,
          and_low 12 address,
          joined entry address,
        )
        refl

  -- Where the directory entry and the page table entry for an address can be loaded, at addresses
  -- that do not overflow, translating the address faults with the code of the first condition
  -- that fails, recording it and sending the interrupt, or gives the frame of the page table
  -- entry with the address's low twelve bits and changes nothing: the directory entry is valid,
  -- the page table entry is valid, present and permits the access, and a write is not to a
  -- copy-on-write page.
  pub virtual_to_physical_address-translated :
      (m : Mmu D) (address pdpr : ℕ) (intent : Intent) (directory_entry entry : ℕ)
      → address < 2 ^ 32
      → pdpr + 4 * (address / 2 ^ 22) < 2 ^ 32
      → directory_entry < 2 ^ 32
      → entry < 2 ^ 32
      → load_physical_32 (pdpr + 4 * (address / 2 ^ 22)) m ≡ ok directory_entry m
      → load_physical_32 (directory_entry / 2 ^ 12 * 2 ^ 12 + 4 * (address / 2 ^ 12 % 2 ^ 10)) m
        ≡ ok entry m
      → virtual_to_physical_address address pdpr intent m
        ≡ translated m address intent directory_entry entry
  unfolding virtual_to_physical_address ◌>>=◌ pure
  virtual_to_physical_address-translated m address pdpr intent directory_entry entry ha hd hde he ed
        ee =
      rw
        (
          add_u32_fits debug m pdpr (4 * (address / 2 ^ 22)) hd,
          ed,
          tested m,
          test_bit 0 directory_entry (omega arith),
          upper_field directory_entry hde,
          and_low 10 (address / 2 ^ 12),
          add_u32_fits debug m (directory_entry / 2 ^ 12 * 2 ^ 12) (4 * (address / 2 ^ 12 % 2 ^ 10))
              (omega arith),
          ee,
          located_lem m address intent entry he,
        )
        refl

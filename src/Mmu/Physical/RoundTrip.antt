-- ===== src/Mmu/Physical/RoundTrip.antt =====
-- Memory accesses to RAM (mmu.rs).
use simulatron.Common.{
  ℕ, ◌+◌, ◌-◌, ◌^◌, ◌<◌, ◌≤◌, ◌≡◌, ◌⊎◌, refl, ap, ◌∙◌, arith, Bool, ◌==◌, if◌then◌else◌,
}
use simulatron.Exec.{ok, add_u32, pure, ◌>>=◌, ◌>>◌}
use simulatron.Platform.{Platform}
use simulatron.Ram.Eager
use simulatron.Mmu.Zones.{begin_ram}
use simulatron.Mmu.State.{Mmu}
use simulatron.Mmu.Physical.{
  byte_of, from_be_bytes_16, from_be_bytes_32, store_physical_8, load_physical_8, store_physical_16,
  load_physical_16, store_physical_32, load_physical_32,
}

module _ {D : Type 0} where
  -- the unit with one byte of RAM replaced
  abbrev pub with_byte : Mmu D → ℕ → ℕ → Mmu D
  with_byte m address value = record m {
    ram = record { cell = λ j. if (address - begin_ram) == j then value else m.ram.cell j };
  }

  abbrev pub with_half : Mmu D → ℕ → ℕ → Mmu D
  with_half m address value =
      with_byte (with_byte m address (byte_of 1 value)) (address + 1) (byte_of 0 value)

  abbrev pub with_word : Mmu D → ℕ → ℕ → Mmu D
  with_word m address value =
      with_byte
        (with_byte
          (with_byte (with_byte m address (byte_of 3 value)) (address + 1) (byte_of 2 value))
          (address + 2) (byte_of 1 value))
        (address + 3) (byte_of 0 value)

  -- the number that two or four bytes of RAM are
  abbrev pub cells_16 : Mmu D → ℕ → ℕ
  cells_16 m address =
      from_be_bytes_16 (m.ram.cell (address - begin_ram)) (m.ram.cell (address + 1 - begin_ram))

  abbrev pub cells_32 : Mmu D → ℕ → ℕ
  cells_32 m address =
      from_be_bytes_32 (m.ram.cell (address - begin_ram)) (m.ram.cell (address + 1 - begin_ram))
        (m.ram.cell (address + 2 - begin_ram)) (m.ram.cell (address + 3 - begin_ram))

module _ {D : Type 0} ⦃platform : Platform D⦄ (m : Mmu D) where
  pub store_ram_8 :
      (address value : ℕ)
      → begin_ram ≤ address
      → address < 2 ^ 32
      → store_physical_8 address value m ≡ ok tt (with_byte m address value)
  unfolding store_physical_8 Eager.store
  store_ram_8 address value h k = ground arith

  pub load_ram_8 :
      (address : ℕ)
      → begin_ram ≤ address
      → address < 2 ^ 32
      → load_physical_8 address m ≡ ok (m.ram.cell (address - begin_ram)) m
  unfolding load_physical_8 Eager.index
  load_ram_8 address h k = ground arith

module _ {S : Type 0} (debug : Bool) (s : S) where
  pub add_u32_fits : (a b : ℕ) → a + b < 2 ^ 32 → add_u32 debug a b s ≡ ok (a + b) s
  unfolding add_u32
  add_u32_fits a b h = ground arith

module _ {D : Type 0} ⦃platform : Platform D⦄ where
  open platform use {debug}

  pub store_ram_32 :
      (m : Mmu D) (address value : ℕ)
      → begin_ram ≤ address
      → address + 3 < 2 ^ 32
      → store_physical_32 address value m ≡ ok tt (with_word m address value)
  unfolding store_physical_32 ◌>>=◌ ◌>>◌
  store_ram_32 m address value h k =
      rw
        (
          store_ram_8 m address (byte_of 3 value) h (omega arith),
          add_u32_fits debug _ address 1 (omega arith),
          store_ram_8 _ (address + 1) (byte_of 2 value) (omega arith) (omega arith),
          add_u32_fits debug _ address 2 (omega arith),
          store_ram_8 _ (address + 2) (byte_of 1 value) (omega arith) (omega arith),
          add_u32_fits debug _ address 3 (omega arith),
          store_ram_8 _ (address + 3) (byte_of 0 value) (omega arith) (omega arith),
        )
        refl

  pub load_ram_32 :
      (m : Mmu D) (address : ℕ)
      → begin_ram ≤ address
      → address + 3 < 2 ^ 32
      → load_physical_32 address m ≡ ok (cells_32 m address) m
  unfolding load_physical_32 ◌>>=◌ pure
  load_ram_32 m address h k =
      rw
        (
          load_ram_8 m address h (omega arith),
          add_u32_fits debug _ address 1 (omega arith),
          load_ram_8 m (address + 1) (omega arith) (omega arith),
          add_u32_fits debug _ address 2 (omega arith),
          load_ram_8 m (address + 2) (omega arith) (omega arith),
          add_u32_fits debug _ address 3 (omega arith),
          load_ram_8 m (address + 3) (omega arith) (omega arith),
        )
        refl

  pub cells-with_word :
      (m : Mmu D) (address value : ℕ)
      → begin_ram ≤ address
      → value < 2 ^ 32
      → cells_32 (with_word m address value) address ≡ value
  cells-with_word m address value h k = ground arith

  pub store_ram_16 :
      (m : Mmu D) (address value : ℕ)
      → begin_ram ≤ address
      → address + 1 < 2 ^ 32
      → store_physical_16 address value m ≡ ok tt (with_half m address value)
  unfolding store_physical_16 ◌>>=◌ ◌>>◌
  store_ram_16 m address value h k =
      rw
        (
          store_ram_8 m address (byte_of 1 value) h (omega arith),
          add_u32_fits debug _ address 1 (omega arith),
          store_ram_8 _ (address + 1) (byte_of 0 value) (omega arith) (omega arith),
        )
        refl

  pub load_ram_16 :
      (m : Mmu D) (address : ℕ)
      → begin_ram ≤ address
      → address + 1 < 2 ^ 32
      → load_physical_16 address m ≡ ok (cells_16 m address) m
  unfolding load_physical_16 ◌>>=◌ pure
  load_ram_16 m address h k =
      rw
        (
          load_ram_8 m address h (omega arith),
          add_u32_fits debug _ address 1 (omega arith),
          load_ram_8 m (address + 1) (omega arith) (omega arith),
        )
        refl

  pub cells-with_half :
      (m : Mmu D) (address value : ℕ)
      → begin_ram ≤ address
      → value < 2 ^ 16
      → cells_16 (with_half m address value) address ≡ value
  cells-with_half m address value h k = ground arith

  -- After a word is stored at an address of RAM, only RAM has changed, no byte of RAM but the
  -- word's four, and a load from the address gives the word back.
  pub store_physical_32-load :
      (m : Mmu D) (address value : ℕ)
      → begin_ram ≤ address
      → address + 3 < 2 ^ 32
      → value < 2 ^ 32
      → (ram : Eager.Ram) × (store_physical_32 address value m ≡ ok tt (record m { ram = ram }))
        × (load_physical_32 address (record m { ram = ram }) ≡ ok value (record m { ram = ram }))
        × ((i : ℕ)
            → ((address - begin_ram ≤ i) × (i < address - begin_ram + 4))
              ⊎ (ram.cell i ≡ m.ram.cell i))
  store_physical_32-load m address value h k v = (
    (with_word m address value).ram,
    store_ram_32 m address value h k,
    load_ram_32 _ address h k
        ∙ ap (λ x. ok x (with_word m address value)) (cells-with_word m address value h v),
    λ i. ground arith,
  )

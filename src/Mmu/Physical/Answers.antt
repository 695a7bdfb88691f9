-- ===== src/Mmu/Physical/Answers.antt =====
-- Byte loads of the machine with its real disks, by the memory map (mmu.rs, disk_real.rs).
use simulatron.Common.{
  get_elem?, ◌≤◌, ℕ, ◌-◌, ◌<◌, ◌≡◌, refl, Bool, true, false, ◌&&◌, ◌||◌, ltb, leb, if◌then◌else◌,
  some, [], ◌∷◌, ◌++◌, length,
}
use simulatron.Exec.{Outcome, ok, err, blocked, panic, try_again_error}
use simulatron.Platform.{Platform, Float32}
use simulatron.Ram.Eager
use simulatron.Mmu.Keyboard
use simulatron.Disk.Real.{load_status, RealDiskController, real_disk}
use simulatron.Mmu.Zones.{interrupt_illegal_operation}
use simulatron.Mmu.State.{Mmu}
use simulatron.Disk.Access.{IsRunning}

-- What the memory unit keeps: the interrupt vector and the ROM have their sizes, and both disks run.
pub record IsSound (m : Mmu RealDiskController) : Type 0 where
  pub vector : length m.interrupt_vector ≡ 0x20
  pub rom : length m.rom ≡ 512
  pub first : IsRunning m.disk_a
  pub second : IsRunning m.disk_b

-- the addresses that the memory map says can be written, and read
abbrev pub is_writable : ℕ → Bool
is_writable address =
    ltb address 0x20
    || (leb 0x240 address && ltb address 0x19B0)
    || (leb 0x1FF1 address && ltb address 0x1FF6)
    || leb 0x1FFB address

abbrev pub is_readable : ℕ → Bool
is_readable address =
    ltb address 0x20
    || (leb 0x40 address && ltb address 0x240)
    || (leb 0x19B0 address && ltb address 0x19B2)
    || (leb 0x1FEC address && ltb address 0x1FF5)
    || (leb 0x1FF6 address && ltb address 0x1FFF)
    || leb 0x2000 address

-- the unit with an illegal operation reported
abbrev pub rejected : Mmu RealDiskController → Mmu RealDiskController
rejected m = record m {
  interrupt_channel = m.interrupt_channel ++ interrupt_illegal_operation ∷ [];
}

-- The value that a load gives, by the part of the unit to which the address belongs in the map.
pub data IsLoaded (address : ℕ) (m : Mmu RealDiskController) (v : ℕ) : Type 0 where
  vector : address < 0x20 → get_elem? m.interrupt_vector address ≡ some v → IsLoaded address m v
  rom :
      0x40 ≤ address
      → address < 0x240
      → get_elem? m.rom (address - 0x40) ≡ some v
      → IsLoaded address m v
  keyboard :
      0x19B0 ≤ address
      → address < 0x19B2
      → Keyboard.load m.keyboard (address - 0x19B0) ≡ some v
      → IsLoaded address m v
  first_register :
      0x1FEC ≤ address
      → address < 0x1FF5
      → load_status m.disk_a (address - 0x1FEC) ≡ some v
      → IsLoaded address m v
  second_register :
      0x1FF6 ≤ address
      → address < 0x1FFF
      → load_status m.disk_b (address - 0x1FF6) ≡ some v
      → IsLoaded address m v
  first_data :
      0x2000 ≤ address
      → address < 0x3000
      → get_elem? m.disk_a.shared_data.buffer (address - 0x2000) ≡ some v
      → IsLoaded address m v
  second_data :
      0x3000 ≤ address
      → address < 0x4000
      → get_elem? m.disk_b.shared_data.buffer (address - 0x3000) ≡ some v
      → IsLoaded address m v
  ram : 0x4000 ≤ address → v ≡ m.ram.cell (address - 0x4000) → IsLoaded address m v

-- What a load comes to.
abbrev pub Loads : ℕ → Mmu RealDiskController → Outcome (Mmu RealDiskController) ℕ → Type 0
Loads address m (ok v m') = (is_readable address ≡ true) × IsLoaded address m v × (m' ≡ m)
Loads address m (err e m') =
    (is_readable address ≡ false) × (e ≡ try_again_error) × (m' ≡ rejected m)
Loads address m (blocked m') = ⊥
Loads address m panic = ⊥

-- The machine with its real disks
abbrev pub machine : Bool → Float32 → Platform RealDiskController
machine debug float = record { debug = debug; float = float; disk = real_disk }

pub branch :
    {A : Type 0} (P : A → Type 0) (b : Bool) (x y : A)
    → (b ≡ true → P x)
    → (b ≡ false → P y)
    → P (if b then x else y)
branch P true x y h k = h refl
branch P false x y h k = k refl

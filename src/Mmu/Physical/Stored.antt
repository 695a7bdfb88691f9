-- ===== src/Mmu/Physical/Stored.antt =====
-- What a byte store comes to in the machine with its real disks (mmu.rs).
use simulatron.Common.{
  ℕ, ◌+◌, ◌-◌, ◌<◌, ◌≤◌, ◌≡◌, refl, arith, true, false, ◌&&◌, ◌==◌, ltb, leb, if◌then◌else◌, Option,
  none, some, set,
}
use simulatron.Exec.{
  Outcome, ok, err, blocked, panic, Done, modify, raise, ◌>>=◌, ◌>>◌, try_again_error,
}
use simulatron.Ram.Eager
use simulatron.Disk.Real.{RealDiskController}
use simulatron.Mmu.Display.{
  UiCommand, Rgb, with_some, coloured, quantise, rgb, u8_to_printable_char,
}
use simulatron.Mmu.Display
use simulatron.Mmu.State.{Mmu, send, reject}
use simulatron.Mmu.Physical.{then_put}
use simulatron.Disk.Access.{IsSome, IsRunning, Ready}
use simulatron.Mmu.Physical.Answers.{IsSound, is_writable, rejected, branch}
use simulatron.Disk.Stored.{IsDiskStored}

abbrev pub SetsCell : Eager.Ram → ℕ → ℕ → Option Eager.Ram → Type 0
SetsCell ram i value none = Unit
SetsCell ram i value (some ram') = (j : ℕ) → ram'.cell j ≡ (if i == j then value else ram.cell j)

pub store-SetsCell :
    (ram : Eager.Ram) (i value : ℕ) → SetsCell ram i value (Eager.store ram i value)
unfolding Eager.store
store-SetsCell ram i value =
    branch (SetsCell ram i value) (ltb i Eager.ram_size) _ _ (λ _ j. refl) (λ _. tt)

-- What a store at a writable address does. Each part of the unit takes the byte at its own
-- addresses in the memory map and stays at all others.
pub record IsStored (address value : ℕ) (m m' : Mmu RealDiskController) : Type 0 where
  pub vector :
      m'.interrupt_vector
      ≡ (if ltb address 0x20 then set m.interrupt_vector address value else m.interrupt_vector)
  pub display : (leb 0x240 address && ltb address 0x19B0) ≡ false → m'.display ≡ m.display
  pub shown :
      (leb 0x240 address && ltb address 0x19B0) ≡ true
      → Display.store m.display (address - 0x240) value ≡ some m'.display
  pub first : IsDiskStored 0x1FEC 0x2000 address value m.disk_a m'.disk_a
  pub second : IsDiskStored 0x1FF6 0x3000 address value m.disk_b m'.disk_b
  pub ram : (i : ℕ) → m'.ram.cell i ≡ (if address == 0x4000 + i then value else m.ram.cell i)
  pub same_rom : m'.rom ≡ m.rom
  pub same_channel : m'.interrupt_channel ≡ m.interrupt_channel
  pub same_keyboard : m'.keyboard ≡ m.keyboard
  pub same_pfsr : m'.pfsr ≡ m.pfsr

-- What a store comes to.
abbrev pub Stores : ℕ → ℕ → Mmu RealDiskController → Outcome (Mmu RealDiskController) Done → Type 0
Stores address value m (ok _ m') =
    (is_writable address ≡ true) × IsSound m' × IsStored address value m m'
Stores address value m (err e m') =
    (is_writable address ≡ false) × (e ≡ try_again_error) × (m' ≡ rejected m)
Stores address value m (blocked m') = ⊥
Stores address value m panic = ⊥

module _ (address value : ℕ) (m : Mmu RealDiskController) where
  pub put-Stores :
      {A : Type 0} (o : Option A) (f : A → Mmu RealDiskController)
      → is_writable address ≡ true
      → IsSome o
      → ((a : A) → o ≡ some a → IsSound (f a) × IsStored address value m (f a))
      → Stores address value m (then_put o f)
  put-Stores none f e h k = h
  put-Stores (some a) f e h k = let (sound, stored) = k a refl in (e, sound, stored)

  pub Ready-Stores :
      (o : Option RealDiskController) (f : RealDiskController → Mmu RealDiskController)
      → is_writable address ≡ true
      → Ready o
      → ((c : RealDiskController)
          → o ≡ some c
          → IsRunning c
          → IsSound (f c) × IsStored address value m (f c))
      → Stores address value m (then_put o f)
  Ready-Stores none f e h k = h
  Ready-Stores (some c) f e h k = let (sound, stored) = k c refl h in (e, sound, stored)

  pub reject-Stores : is_writable address ≡ false → Stores address value m (reject m)
  unfolding reject send modify raise ◌>>◌ ◌>>=◌
  reject-Stores e = (e, refl, refl)

  -- a store to the first disk, and one to the second
  pub first-IsStored :
      IsSound m
      → (c : RealDiskController) → 0x1FEC ≤ address
      → address < 0x3000
      → IsDiskStored 0x1FEC 0x2000 address value m.disk_a c
      → IsDiskStored 0x1FF6 0x3000 address value m.disk_b m.disk_b
      → IsSound (record m { disk_a = c }) × IsStored address value m (record m { disk_a = c })
  first-IsStored h c l u d d' = (
    record { vector = h.vector; rom = h.rom; first = d.running; second = h.second },
    record {
      vector = ground arith;
      display = λ _. refl;
      shown = λ on. absurd (ground arith);
      first = d;
      second = d';
      ram = λ i. ground arith;
      same_rom = refl;
      same_channel = refl;
      same_keyboard = refl;
      same_pfsr = refl;
    },
  )

  pub second-IsStored :
      IsSound m
      → (c : RealDiskController) → 0x1FEC ≤ address
      → address < 0x4000
      → IsDiskStored 0x1FEC 0x2000 address value m.disk_a m.disk_a
      → IsDiskStored 0x1FF6 0x3000 address value m.disk_b c
      → IsSound (record m { disk_b = c }) × IsStored address value m (record m { disk_b = c })
  second-IsStored h c l u d d' = (
    record { vector = h.vector; rom = h.rom; first = h.first; second = d'.running },
    record {
      vector = ground arith;
      display = λ _. refl;
      shown = λ on. absurd (ground arith);
      first = d;
      second = d';
      ram = λ i. ground arith;
      same_rom = refl;
      same_channel = refl;
      same_keyboard = refl;
      same_pfsr = refl;
    },
  )

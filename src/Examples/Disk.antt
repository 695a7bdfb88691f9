-- ===== src/Examples/Disk.antt =====
-- The theorems on the disk controller at a host with one file, whose every call succeeds.
use simulatron.Common.{
  List, Option, none, ◌*◌, ◌==◌, ◌&&◌, if◌then◌else◌, Bool, Bool-cases, inl, false, length, ap,
  subst, ℕ, ◌≡◌, inr, refl, arith, true, some, [], ◌∷◌, replicate, length-replicate,
}
use simulatron.Disk.Host.{Host}
use simulatron.Disk.Real.{
  DiskCommand, RealDiskController, new, store_control, with_block, with_buffer,
}
use simulatron.Disk.Worker.{worker_iteration, write_block}
use simulatron.Disk.WriteRead.{IsFaithful, worker_iteration-write_read}
use simulatron.Disk.Registers.{store_all, block_address, ReadsAddress, store_control-load_status}
use simulatron.Disk.Ends.{IsDisk}
use simulatron.Disk.Access.{IsRunning}
use simulatron.Mmu.State
use simulatron.Mmu.State.{Mmu}
use simulatron.Mmu.Physical.{store_physical_8}
use simulatron.Mmu.Physical.Answers.{IsSound, machine}
use simulatron.Mmu.Physical.Stored.{Stores}
use simulatron.Mmu.Physical.Stores.{store_physical_8-Stores}
use simulatron.Examples.{zero_float}
use simulatron.Disk.Reachable.{control, fresh, after, Reachable-IsDisk}

abbrev one_file : Host (Unit {0}) (Unit {0}) (Unit {0})
one_file = record {
  read_dir = λ h. some (tt ∷ []);
  metadata = λ h path. some (true, 8192);
  open_file = λ h path. some tt;
  open_for_writing = λ h path. some tt;
  seek = λ file offset. some tt;
  read_exact = λ h file buffer. (true, buffer);
  length-read_exact = λ h file buffer. refl;
  write_all = λ h file buffer. (true, h);
}

-- connected to two blocks, the second of which is accessed next
abbrev with_disk : RealDiskController
with_disk = record {
  interrupt_num = 5;
  worker_tx = some [];
  shared_data = record {
    status = 1;
    blocks_available = 2;
    block_to_access = 1;
    buffer = replicate 4096 0;
  };
  interrupts = [];
}

with_disk-IsDisk : IsDisk with_disk
with_disk-IsDisk = record {
  flags = omega arith;
  blocks = omega arith;
  block = omega arith;
  present = inr (refl, omega arith);
  whole = length-replicate {A = ℕ} 4096 0;
}

stored : store_control (new 5) 8 3 ≡ some (with_block 3 (new 5))
unfolding store_control new
stored = refl

Reachable-IsDisk_example : IsDisk (with_block 3 (new 5))
Reachable-IsDisk_example = Reachable-IsDisk one_file true tt (with_block 3 (new 5)) (
    after tt tt (new 5) (with_block 3 (new 5)) (fresh tt 5)
      (control tt (new 5) (with_block 3 (new 5)) 8 3 (omega arith) stored))

store_control-load_status_example :
    (store_all with_disk ((5, 1) ∷ (6, 2) ∷ (7, 3) ∷ (8, 4) ∷ [])
      ≡ some (with_block (block_address 1 2 3 4) with_disk))
    × ReadsAddress (with_block (block_address 1 2 3 4) with_disk) 1 3 4
store_control-load_status_example =
    store_control-load_status with_disk 1 2 3 4 (omega arith) (omega arith) (omega arith)
      (omega arith) (omega arith)

-- A host that keeps the bytes that were written last, and where; its only file is always there.
abbrev kept_read : ℕ × List ℕ → ℕ → List ℕ → Bool × List ℕ
kept_read (offset, bytes) file buffer =
    if (file == offset) && (length bytes == length buffer) then (true, bytes) else (false, buffer)

length-kept_read :
    (h : ℕ × List ℕ) (file : ℕ) (buffer : List ℕ)
    → length ((kept_read h file buffer).1) ≡ length buffer
length-kept_read (offset, bytes) file buffer =
    elim (Bool-cases ((file == offset) && (length bytes == length buffer))) [
      | inl same ↦ rw same (ground (arith, same))
      | inr other ↦ rw other refl
    ]

abbrev keeping : Host (ℕ × List ℕ) (Unit {0}) ℕ
keeping = record {
  read_dir = λ h. some (tt ∷ []);
  metadata = λ h path. some (true, 8192);
  open_file = λ h path. some 0;
  open_for_writing = λ h path. some 0;
  seek = λ file offset. some offset;
  read_exact = kept_read;
  length-read_exact = length-kept_read;
  write_all = λ h file buffer. (true, (file, buffer));
}

kept_lem :
    (offset : ℕ) (bytes buffer : List ℕ)
    → length buffer ≡ length bytes
    → kept_read (offset, bytes) offset buffer ≡ (true, bytes)
kept_lem offset bytes buffer l =
    let same : ((offset == offset) && (length bytes == length buffer)) ≡ true = ground (arith, l) in
    rw same refl

the : Option ℕ → ℕ
the none = 0
the (some n) = n

offset_of : (offset file : ℕ) → some offset ≡ some file → offset ≡ file
unfolding the
offset_of offset file e = ap the e

keeping-IsFaithful : IsFaithful keeping
keeping-IsFaithful = record {
  listing = λ h h' file bytes e. refl;
  contents = λ h h' path file file' offset bytes o s w. (
    0,
    offset,
    refl,
    refl,
    λ buffer l.
        let at : offset ≡ file' = offset_of offset file' s in
        subst (λ (k : ℕ × List ℕ). kept_read k offset buffer ≡ (true, bytes)) (ap (λ p. p.1) w)
          (subst (λ (f : ℕ). kept_read (f, bytes) offset buffer ≡ (true, bytes)) at
            (kept_lem offset bytes buffer l)),
  );
}

written :
    write_block keeping true (0, []) (1 * 4096) (replicate 4096 0)
    ≡ some (true, (4096, replicate 4096 0))
unfolding write_block
written = refl

worker_iteration-write_read_example :
    (c₁ : RealDiskController) × (c₂ : RealDiskController) × (worker_iteration keeping true
        (DiskCommand.write false)
        (0, [])
        with_disk
      ≡ some ((4096, replicate 4096 0), c₁))
    × (worker_iteration keeping true
          (DiskCommand.read false)
          (4096, replicate 4096 0)
          (with_buffer (replicate 4096 7) c₁)
        ≡ some ((4096, replicate 4096 0), c₂))
    × (c₂.shared_data.buffer ≡ replicate 4096 0)
    × (c₂.shared_data.block_to_access ≡ 1)
    × (c₁.shared_data.status ≡ 0b0111)
    × (c₂.shared_data.status ≡ 0b0101)
worker_iteration-write_read_example =
    worker_iteration-write_read keeping true (0, []) (4096, replicate 4096 0) with_disk
      (replicate 4096 7) keeping-IsFaithful with_disk-IsDisk refl (omega arith) written
      (length-replicate {A = ℕ} 4096 7)

-- a machine with two such disks
abbrev with_disks : Mmu RealDiskController
with_disks = State.new with_disk with_disk (replicate 512 0)

with_disk-IsRunning : IsRunning with_disk
with_disk-IsRunning = record { disk = with_disk-IsDisk; running = tt }

with_disks-IsSound : IsSound with_disks
unfolding State.new
with_disks-IsSound = record {
  vector = length-replicate {A = ℕ} 0x20 0;
  rom = length-replicate {A = ℕ} 512 0;
  first = with_disk-IsRunning;
  second = with_disk-IsRunning;
}

store_physical_8-Stores_example :
    Stores 0x1FFF 4 with_disks
      (store_physical_8 ⦃platform = machine true zero_float⦄ 0x1FFF 4 with_disks)
store_physical_8-Stores_example =
    store_physical_8-Stores true zero_float with_disks with_disks-IsSound 0x1FFF 4 (omega arith)
      (omega arith)

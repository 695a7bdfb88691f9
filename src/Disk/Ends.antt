-- ===== src/Disk/Ends.antt =====
-- The ways in which a command can end (disk_real.rs).
use simulatron.Common.{
  ℕ, ◌+◌, ◌*◌, ◌/◌, ◌%◌, ◌^◌, ◌<◌, ◌≤◌, ◌≡◌, ◌⊎◌, refl, ap, sym, arith, Bool, true, false, List, [],
  ◌∷◌, ◌++◌, length, ltb, inl, inr, subst, if◌then◌else◌, Option, none, some,
}
use simulatron.Disk.Host.{Host}
use simulatron.Disk.Real.{
  DiskCommand, RealDiskController, with_block, with_buffer, return_successful, return_failed,
  return_bad, return_disconnected,
}
use simulatron.Disk.Worker.{next_block, finish}
use simulatron.Disk.Flags.{ended, successful_lem, failed_lem, bad_lem, disconnected_lem}

-- What the controller keeps of its registers: four flags, 32-bit numbers of blocks, none of them
-- available unless the disk is connected, and a buffer of 4096 bytes.
pub record IsDisk (c : RealDiskController) : Type 0 where
  pub flags : c.shared_data.status < 16
  pub blocks : c.shared_data.blocks_available < 2 ^ 32
  pub block : c.shared_data.block_to_access < 2 ^ 32
  pub present :
      ((c.shared_data.status % 2 ≡ 0) × (c.shared_data.blocks_available ≡ 0))
      ⊎ ((c.shared_data.status % 2 ≡ 1) × (0 < c.shared_data.blocks_available))
  pub whole : length c.shared_data.buffer ≡ 4096

abbrev pub sustained : DiskCommand → ℕ
sustained (DiskCommand.read b) = if b then 1 else 0
sustained (DiskCommand.write b) = if b then 1 else 0
sustained DiskCommand.join_thread = 0

-- How a command that the controller takes ends: it is not connected, the block is out of range, or the
-- host succeeds or fails.
abbrev pub Outcome : DiskCommand → RealDiskController → RealDiskController → Type 0
Outcome cmd c c' =
    let sd = c.shared_data in
    let sd' = c'.shared_data in
    ((sd.status % 2 ≡ 0) × (sd'.status ≡ sd.status) × (sd'.block_to_access ≡ sd.block_to_access))
    ⊎ ((sd.status % 2 ≡ 1)
        × (sd.blocks_available ≤ sd.block_to_access)
        × (sd'.status ≡ ended sd.status 0 1)
        × (sd'.block_to_access ≡ sd.block_to_access))
    ⊎ ((sd.status % 2 ≡ 1)
        × (sd.block_to_access < sd.blocks_available)
        × (sd'.status ≡ ended sd.status 1 0)
        × (sd'.block_to_access ≡ sd.block_to_access + sustained cmd))
    ⊎ ((sd.status % 2 ≡ 1)
        × (sd.block_to_access < sd.blocks_available)
        × (sd'.status ≡ ended sd.status 0 0)
        × (sd'.block_to_access ≡ sd.block_to_access))

-- What a command leaves, apart from how it ends.
pub record IsServed (cmd : DiskCommand) (c c' : RealDiskController) : Type 0 where
  pub outcome : Outcome cmd c c'
  pub interrupt : c'.interrupts ≡ c.interrupts ++ c.interrupt_num ∷ []
  pub same_number : c'.interrupt_num ≡ c.interrupt_num
  pub same_channel : c'.worker_tx ≡ c.worker_tx
  pub kept : IsDisk c'

-- Only a directory that cannot be read panics.
abbrev pub Served :
    {H P F : Type 0}
    → Host H P F
    → DiskCommand
    → H
    → RealDiskController
    → Option (H × RealDiskController)
    → Type 0
Served host cmd h c none = (cmd ≡ DiskCommand.join_thread) ⊎ (Host.read_dir host h ≡ none)
Served host cmd h c (some (h', c')) = IsServed cmd c c'

-- The controller after it has changed its status, block and buffer and sent its interrupt.
abbrev pub changed : RealDiskController → ℕ → ℕ → List ℕ → RealDiskController
changed c status block buffer = record c {
  shared_data = record {
    status = status;
    blocks_available = c.shared_data.blocks_available;
    block_to_access = block;
    buffer = buffer;
  };
  interrupts = c.interrupts ++ c.interrupt_num ∷ [];
}

module _ (cmd : DiskCommand) (c : RealDiskController) (d : IsDisk c) where
  abbrev pub S : ℕ
  S = c.shared_data.status

  abbrev pub B : ℕ
  B = c.shared_data.block_to_access

  changed-IsDisk :
      (status block : ℕ) (buffer : List ℕ)
      → status < 16
      → status % 2 ≡ S % 2
      → block < 2 ^ 32
      → length buffer ≡ 4096
      → IsDisk (changed c status block buffer)
  changed-IsDisk status block buffer small same fits whole = record {
    flags = small;
    blocks = d.blocks;
    block = fits;
    present = elim (d.present) [
      | inl (off, empty) ↦ inl (omega arith, empty)
      | inr (on, filled) ↦ inr (omega arith, filled)
    ];
    whole = whole;
  }

  pub return_bad-IsDisk : IsDisk (return_bad c)
  unfolding return_bad
  return_bad-IsDisk =
      subst (λ (s : ℕ). IsDisk (changed c s B c.shared_data.buffer)) (sym (bad_lem S d.flags))
        (changed-IsDisk (ended S 0 1) B c.shared_data.buffer (omega (arith, d.flags)) (omega arith)
          d.block d.whole)

  served :
      (status block : ℕ) (buffer : List ℕ)
      → Outcome cmd c (changed c status block buffer)
      → status < 16
      → status % 2 ≡ S % 2
      → block < 2 ^ 32
      → length buffer ≡ 4096
      → IsServed cmd c (changed c status block buffer)
  served status block buffer outcome small same fits whole = record {
    outcome = outcome;
    interrupt = refl;
    same_number = refl;
    same_channel = refl;
    kept = changed-IsDisk status block buffer small same fits whole;
  }

  pub away : S % 2 ≡ 0 → IsServed cmd c (return_disconnected c)
  unfolding return_disconnected
  away off =
      let e = disconnected_lem S d.flags in
      let same : S / 2 * 2 ≡ S = omega arith in
      subst (λ (s : ℕ). IsServed cmd c (changed c s B c.shared_data.buffer)) (sym e)
        (served (S / 2 * 2) B c.shared_data.buffer (inl (off, same, refl)) (omega (arith, d.flags))
          (omega arith) d.block d.whole)

  pub bad : S % 2 ≡ 1 → c.shared_data.blocks_available ≤ B → IsServed cmd c (return_bad c)
  unfolding return_bad
  bad on beyond =
      subst (λ (s : ℕ). IsServed cmd c (changed c s B c.shared_data.buffer))
        (sym (bad_lem S d.flags))
        (served (ended S 0 1) B c.shared_data.buffer (inr (inl (on, beyond, refl, refl)))
          (omega (arith, d.flags)) (omega arith) d.block d.whole)

  next_block_lem :
      (checks : Bool) (buffer : List ℕ)
      → ltb (B + 1) (2 ^ 32) ≡ true
      → next_block checks (with_buffer buffer c) ≡ some (with_block (B + 1) (with_buffer buffer c))
  unfolding next_block
  next_block_lem checks buffer fits = rw fits refl

  -- the end of a command that the host has carried out, or not
  pub finish_lem :
      (checks success : Bool) (b : Bool) (buffer : List ℕ)
      → (if b then 1 else 0) ≡ sustained cmd
      → S % 2 ≡ 1
      → B < c.shared_data.blocks_available
      → length buffer ≡ 4096
      → (c' : RealDiskController) × (finish checks success b (with_buffer buffer c) ≡ some c')
        × IsServed cmd c c'
  unfolding finish return_successful return_failed
  finish_lem checks false b buffer e on within whole = (
    _,
    refl,
    subst (λ (s : ℕ). IsServed cmd c (changed c s B buffer)) (sym (failed_lem S d.flags))
        (served (ended S 0 0) B buffer (inr (inr (inr (on, within, refl, refl))))
          (omega (arith, d.flags)) (omega arith) d.block whole),
  )
  finish_lem checks true true buffer e on within whole =
      let fits : ltb (B + 1) (2 ^ 32) ≡ true = ground (arith, d.blocks) in
      (
        changed c (ended S 1 0) (B + 1) buffer,
        rw (next_block_lem checks buffer fits)
            (ap (λ (s : ℕ). some (changed c s (B + 1) buffer)) (successful_lem S d.flags)),
        served (ended S 1 0) (B + 1) buffer
            (inr (inr (inl (on, within, refl, ap (λ (k : ℕ). B + k) e)))) (omega (arith, d.flags))
            (omega arith) (omega (arith, d.blocks)) whole,
      )
  finish_lem checks true false buffer e on within whole = (
    _,
    refl,
    subst (λ (s : ℕ). IsServed cmd c (changed c s B buffer)) (sym (successful_lem S d.flags))
        (served (ended S 1 0) B buffer (inr (inr (inl (on, within, refl, omega (arith, e)))))
          (omega (arith, d.flags)) (omega arith) d.block whole),
  )

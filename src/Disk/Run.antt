-- ===== src/Disk/Run.antt =====
-- The disk controller at work: the processor's stores, the worker, the watcher, and whatever happens to
-- the host's files in between (disk_real.rs).
use simulatron.Common.{
  ℕ, ◌/◌, ◌%◌, ◌^◌, ◌<◌, refl, ◌∙◌, arith, Bool, true, false, ◌&&◌, [], ◌∷◌, ◌++◌, ◌==◌, ltb,
  Bool-cases, inl, inr, if◌then◌else◌, Option, none, some, set, get_elem?, length-set,
  length-replicate,
}
use simulatron.Disk.Host.{Host}
use simulatron.Disk.Real.{
  DiskCommand, RealDiskController, new, with_block, with_buffer, store_control, store_data,
  send_command, return_bad, return_connected, return_disconnected,
}
use simulatron.Disk.Worker.{get_file_name, size_in_blocks, watcher_iteration, with_available}
use simulatron.Disk.Registers.{da_1_lem, da_2_lem, da_3_lem, da_4_lem}
use simulatron.Disk.Flags.{connected_lem, disconnected_lem}
use simulatron.Disk.Ends.{IsDisk, return_bad-IsDisk}

-- a panic, or a controller with a property
abbrev pub Unless : (RealDiskController → Type 0) → Option RealDiskController → Type 0
Unless P none = Unit
Unless P (some c) = P c

with_block-IsDisk :
    (c : RealDiskController) (block : ℕ) → IsDisk c → block < 2 ^ 32 → IsDisk (with_block block c)
with_block-IsDisk c block d h = record {
  flags = d.flags;
  blocks = d.blocks;
  block = h;
  present = d.present;
  whole = d.whole;
}

pub store_control-IsDisk :
    (c : RealDiskController) (address value : ℕ)
    → IsDisk c
    → value < 2 ^ 8
    → Unless IsDisk (store_control c address value)
unfolding store_control send_command
store_control-IsDisk c address value d h =
    let x : ℕ = c.shared_data.block_to_access in
    step (address == 5) (address == 6) (address == 7) (address == 8) (address == 9) (value == 1)
      (value == 2) (value == 3) (value == 4) _ _ _ _
      (with_block-IsDisk c _ d (omega (arith, da_1_lem x value)))
      (with_block-IsDisk c _ d (omega (arith, da_2_lem x value d.block h, d.block)))
      (with_block-IsDisk c _ d (omega (arith, da_3_lem x value d.block h, d.block)))
      (with_block-IsDisk c _ d (omega (arith, da_4_lem x value d.block h, d.block)))
  where
    sends : (cmd : DiskCommand) → Unless IsDisk (send_command cmd c)
    sends cmd =
        elim c.worker_tx
          as (λ o. Unless IsDisk (elim o as (λ _. Option RealDiskController) [
            | none ↦ none
            | some commands ↦ some (record c { worker_tx = some (commands ++ cmd ∷ []) })
          ])) [
            | none ↦ tt
            | some commands ↦ record {
              flags = d.flags;
              blocks = d.blocks;
              block = d.block;
              present = d.present;
              whole = d.whole;
            }
          ]

    step :
        (a₁ a₂ a₃ a₄ a₅ v₁ v₂ v₃ v₄ : Bool) (c₁ c₂ c₃ c₄ : RealDiskController)
        → IsDisk c₁
        → IsDisk c₂
        → IsDisk c₃
        → IsDisk c₄
        → Unless IsDisk (
            if a₁
            then some c₁
            else if a₂
            then some c₂
            else if a₃
            then some c₃
            else if a₄
            then some c₄
            else if a₅
            then (if v₁
                then send_command (DiskCommand.read false) c
                else if v₂
                then send_command (DiskCommand.write false) c
                else if v₃
                then send_command (DiskCommand.read true) c
                else if v₄
                then send_command (DiskCommand.write true) c
                else some (return_bad c))
            else none)
    step true a₂ a₃ a₄ a₅ v₁ v₂ v₃ v₄ c₁ c₂ c₃ c₄ p q r s = p
    step false true a₃ a₄ a₅ v₁ v₂ v₃ v₄ c₁ c₂ c₃ c₄ p q r s = q
    step false false true a₄ a₅ v₁ v₂ v₃ v₄ c₁ c₂ c₃ c₄ p q r s = r
    step false false false true a₅ v₁ v₂ v₃ v₄ c₁ c₂ c₃ c₄ p q r s = s
    step false false false false false v₁ v₂ v₃ v₄ c₁ c₂ c₃ c₄ p q r s = tt
    step false false false false true true v₂ v₃ v₄ c₁ c₂ c₃ c₄ p q r s =
        sends (DiskCommand.read false)
    step false false false false true false true v₃ v₄ c₁ c₂ c₃ c₄ p q r s =
        sends (DiskCommand.write false)
    step false false false false true false false true v₄ c₁ c₂ c₃ c₄ p q r s =
        sends (DiskCommand.read true)
    step false false false false true false false false true c₁ c₂ c₃ c₄ p q r s =
        sends (DiskCommand.write true)
    step false false false false true false false false false c₁ c₂ c₃ c₄ p q r s =
        return_bad-IsDisk (DiskCommand.read false) c d

pub store_data-IsDisk :
    (c : RealDiskController) (address value : ℕ)
    → IsDisk c
    → Unless IsDisk (store_data c address value)
unfolding store_data
store_data-IsDisk c address value d = step (get_elem? c.shared_data.buffer address)
  where
    step :
        (o : Option ℕ)
        → Unless IsDisk (elim o as (λ _. Option RealDiskController) [
          | none ↦ none
          | some old ↦ some (with_buffer (set c.shared_data.buffer address value) c)
        ])
    step none = tt
    step (some old) = record {
      flags = d.flags;
      blocks = d.blocks;
      block = d.block;
      present = d.present;
      whole = length-set c.shared_data.buffer address value ∙ d.whole;
    }

pub new-IsDisk : (interrupt_num : ℕ) → IsDisk (new interrupt_num)
unfolding new
new-IsDisk interrupt_num = record {
  flags = omega arith;
  blocks = omega arith;
  block = omega arith;
  present = inl (refl, refl);
  whole = length-replicate {A = ℕ} 4096 0;
}

abbrev IsSize : Option ℕ → Type 0
IsSize none = Unit
IsSize (some blocks) = (0 < blocks) × (blocks < 2 ^ 32)

module _ {H P F : Type 0} (host : Host H P F) (checks : Bool) where
  size_in_blocks-IsSize : (h : H) (path : P) → IsSize (size_in_blocks host checks h path)
  unfolding size_in_blocks
  size_in_blocks-IsSize h path = step (Host.metadata host h path)
    where
      step :
          (o : Option (Bool × ℕ))
          → IsSize (elim o as (λ _. Option ℕ) [
            | none ↦ none
            | some (is_file, bytes) ↦
                if is_file
                then (if ltb 0 bytes && (bytes % 4096 == 0)
                    then (if ltb (bytes / 4096) (2 ^ 32) then some (bytes / 4096) else none)
                    else none)
                else none
          ])
      step none = tt
      step (some (false, bytes)) = tt
      step (some (true, bytes)) = elim (Bool-cases (ltb 0 bytes && (bytes % 4096 == 0))) [
        | inl whole ↦ rw whole (elim (Bool-cases (ltb (bytes / 4096) (2 ^ 32))) [
          | inl fits ↦ rw fits (ground (arith, whole), ground (arith, fits))
          | inr large ↦ rw large tt
        ])
        | inr other ↦ rw other tt
      ]

  gone : (c : RealDiskController) → IsDisk c → IsDisk (return_disconnected (with_available 0 c))
  unfolding return_disconnected
  gone c d =
      let e = disconnected_lem c.shared_data.status d.flags in
      record {
        flags = omega (arith, e, d.flags);
        blocks = omega arith;
        block = d.block;
        present = inl (omega (arith, e), refl);
        whole = d.whole;
      }

  there :
      (c : RealDiskController) (blocks : ℕ)
      → IsDisk c
      → 0 < blocks
      → blocks < 2 ^ 32
      → IsDisk (return_connected (with_available blocks c))
  unfolding return_connected
  there c blocks d some_blocks fits =
      let e = connected_lem c.shared_data.status d.flags in
      record {
        flags = omega (arith, e, d.flags);
        blocks = fits;
        block = d.block;
        present = inr (omega (arith, e), some_blocks);
        whole = d.whole;
      }

  pub watcher_iteration-IsDisk :
      (h : H) (c : RealDiskController)
      → IsDisk c
      → Unless IsDisk (watcher_iteration host checks h c)
  unfolding watcher_iteration
  watcher_iteration-IsDisk h c d = step (get_file_name host checks h)
    where
      sized :
          (o : Option ℕ)
          → IsSize o
          → Unless IsDisk (elim o as (λ _. Option RealDiskController) [
            | none ↦ some (return_disconnected (with_available 0 c))
            | some blocks ↦ some (return_connected (with_available blocks c))
          ])
      sized none z = gone c d
      sized (some blocks) z = there c blocks d z.0 z.1

      step :
          (o : Option (Option P))
          → Unless IsDisk (elim o as (λ _. Option RealDiskController) [
            | none ↦ none
            | some none ↦ some (return_disconnected (with_available 0 c))
            | some (some path) ↦ elim (size_in_blocks host checks h path) [
              | none ↦ some (return_disconnected (with_available 0 c))
              | some blocks ↦ some (return_connected (with_available blocks c))
            ]
          ])
      step none = tt
      step (some none) = gone c d
      step (some (some path)) =
          sized (size_in_blocks host checks h path) (size_in_blocks-IsSize h path)

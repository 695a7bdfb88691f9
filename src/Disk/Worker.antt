-- ===== src/Disk/Worker.antt =====
-- The worker, which serves commands, and the watcher, which sees disks come and go (disk_real.rs).
use simulatron.Common.{
  ℕ, ◌+◌, ◌*◌, ◌/◌, ◌%◌, ◌^◌, Bool, false, not, ◌&&◌, Option, none, some, List, [], ◌∷◌, ◌++◌, ltb,
  leb, ◌==◌, if◌then◌else◌,
}
use simulatron.Disk.Interface.{flag_connected, disk_buffer_size}
use simulatron.Disk.Host.{Host}
use simulatron.Disk.Real.{
  DiskCommand, RealDiskController, has_flag, with_block, with_buffer, return_successful,
  return_failed, return_bad, return_connected, return_disconnected,
}

abbrev pub with_available : ℕ → RealDiskController → RealDiskController
with_available blocks c = record c {
  shared_data = record c.shared_data { blocks_available = blocks };
}

-- with overflow checks or without; `none` is a panic here and below
module _ (checks : Bool) where
  -- `sd.block_to_access += 1`
  unfoldable pub next_block : RealDiskController → Option RealDiskController
  next_block c =
      let next = c.shared_data.block_to_access + 1 in
      if ltb next (2 ^ 32)
      then some (with_block next c)
      else if checks
      then none
      else some (with_block (next % 2 ^ 32) c)

  -- the end of a command that was served
  unfoldable pub finish : Bool → Bool → RealDiskController → Option RealDiskController
  unfolding next_block
  finish success sustained c =
      if success
      then (if sustained
          then (elim (next_block c) [ none ↦ none | some c' ↦ some (return_successful c') ])
          else some (return_successful c))
      else some (return_failed c)

-- the controller and the host
module _ {H P F : Type 0} (host : Host H P F) (checks : Bool) where
  -- the one path of the directory
  unfoldable pub get_file_name : H → Option (Option P)
  get_file_name h = elim (host.read_dir h) [
    | none ↦ none
    | some [] ↦ some none
    | some (path ∷ []) ↦ some (some path)
    | some (path ∷ (path' ∷ others)) ↦ some none
  ]

  -- Finding, opening and seeking the file and then reading: whether all of it succeeds, and the buffer.
  unfoldable pub read_block : H → ℕ → List ℕ → Option (Bool × List ℕ)
  unfolding get_file_name
  read_block h offset buffer = elim (get_file_name h) [
    | none ↦ none
    | some none ↦ some (false, buffer)
    | some (some path) ↦ elim (host.open_file h path) [
      | none ↦ some (false, buffer)
      | some file ↦ elim (host.seek file offset) [
        | none ↦ some (false, buffer)
        | some file' ↦ some (host.read_exact h file' buffer)
      ]
    ]
  ]

  -- The same for writing from the buffer, with the state of the host.
  unfoldable pub write_block : H → ℕ → List ℕ → Option (Bool × H)
  unfolding get_file_name
  write_block h offset buffer = elim (get_file_name h) [
    | none ↦ none
    | some none ↦ some (false, h)
    | some (some path) ↦ elim (host.open_for_writing h path) [
      | none ↦ some (false, h)
      | some file ↦ elim (host.seek file offset) [
        | none ↦ some (false, h)
        | some file' ↦ some (host.write_all h file' buffer)
      ]
    ]
  ]

  -- what a command does once it is accepted
  unfoldable pub serve : DiskCommand → H → RealDiskController → Option (H × RealDiskController)
  unfolding read_block write_block finish
  serve (DiskCommand.read sustained) h c =
      let offset = c.shared_data.block_to_access * disk_buffer_size in
      elim (read_block h offset c.shared_data.buffer) [
        | none ↦ none
        | some (success, buffer) ↦ elim (finish checks success sustained (with_buffer buffer c)) [
          | none ↦ none
          | some c' ↦ some (h, c')
        ]
      ]
  serve (DiskCommand.write sustained) h c =
      let offset = c.shared_data.block_to_access * disk_buffer_size in
      elim (write_block h offset c.shared_data.buffer) [
        | none ↦ none
        | some (success, h') ↦ elim (finish checks success sustained c) [
          | none ↦ none
          | some c' ↦ some (h', c')
        ]
      ]
  serve DiskCommand.join_thread h c = none

  unfoldable pub worker_iteration :
      DiskCommand → H → RealDiskController → Option (H × RealDiskController)
  unfolding serve
  worker_iteration cmd h c =
      if not (has_flag c.shared_data.status flag_connected)
      then some (h, return_disconnected c)
      else if leb c.shared_data.blocks_available c.shared_data.block_to_access
      then some (h, return_bad c)
      else serve cmd h c

  -- The disk's size in blocks: of a regular file of some whole blocks, fewer than 2 ^ 32.
  unfoldable pub size_in_blocks : H → P → Option ℕ
  size_in_blocks h path = elim (host.metadata h path) [
    | none ↦ none
    | some (is_file, bytes) ↦
        let blocks = bytes / disk_buffer_size in
        if is_file
        then (if ltb 0 bytes && (bytes % disk_buffer_size == 0)
            then (if ltb blocks (2 ^ 32) then some blocks else none)
            else none)
        else none
  ]

  unfoldable pub watcher_iteration : H → RealDiskController → Option RealDiskController
  unfolding get_file_name size_in_blocks
  watcher_iteration h c = elim (get_file_name h) [
    | none ↦ none
    | some none ↦ some (return_disconnected (with_available 0 c))
    | some (some path) ↦ elim (size_in_blocks h path) [
      | none ↦ some (return_disconnected (with_available 0 c))
      | some blocks ↦ some (return_connected (with_available blocks c))
    ]
  ]

  -- `start`, which panics if the controller runs. The channel is new, and the watcher looks once.
  unfoldable pub start : H → RealDiskController → Option RealDiskController
  unfolding watcher_iteration
  start h c = elim c.worker_tx [
    | none ↦ watcher_iteration h (record c { worker_tx = some [] })
    | some commands ↦ none
  ]

  -- The worker up to the command to join, where the commands of the channel are `commands`.
  unfoldable pub work_off :
      List DiskCommand → H → RealDiskController → Option (H × RealDiskController)
  unfolding worker_iteration
  work_off [] h c = some (h, c)
  work_off (DiskCommand.join_thread ∷ commands) h c = some (h, c)
  work_off (cmd ∷ commands) h c = elim (worker_iteration cmd h c) [
    | none ↦ none
    | some (h', c') ↦ work_off commands h' c'
  ]

  -- `stop`, which panics if the controller does not run, and waits for the worker. The wait is one
  -- step here: the watcher, which stops after it, has no event meanwhile.
  unfoldable pub stop : H → RealDiskController → Option (H × RealDiskController)
  unfolding work_off
  stop h c = elim c.worker_tx [
    | none ↦ none
    | some commands ↦
        work_off (commands ++ DiskCommand.join_thread ∷ []) h (record c { worker_tx = none })
  ]

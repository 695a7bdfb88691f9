-- ===== src/Disk/Real.antt =====
-- The disk controller over the host's file system (disk_real.rs).
use simulatron.Common.{
  ℕ, ◌-◌, ◌*◌, ◌/◌, ◌%◌, ◌^◌, Bool, true, false, not, Option, none, some, List, [], ◌∷◌, ◌++◌,
  replicate, set, get_elem?, bit_and, bit_or, ◌==◌, if◌then◌else◌,
}
use simulatron.Platform.{DiskController}
use simulatron.Disk.Interface.{
  address_status, address_nba_1, address_nba_2, address_nba_3, address_nba_4, address_da_1,
  address_da_2, address_da_3, address_da_4, address_cmd, flag_connected, flag_finished,
  flag_success, flag_bad_command, command_read, command_write, command_contiguous_read,
  command_contiguous_write, disk_buffer_size,
}

-- A sustained command goes on to the next block.
pub data DiskCommand : Type 0 where
  read write : Bool → DiskCommand
  join_thread : DiskCommand

pub record SharedData : Type 0 where
  pub status : ℕ
  pub blocks_available : ℕ
  pub block_to_access : ℕ
  pub buffer : List ℕ

-- `worker_tx` is the channel to the worker, with what has been sent and not received, oldest first;
-- it is there while the controller runs. `interrupts` are those that have been sent. The mutex makes
-- each operation on the shared data one step.
pub record RealDiskController : Type 0 where
  pub interrupt_num : ℕ
  pub worker_tx : Option (List DiskCommand)
  pub shared_data : SharedData
  pub interrupts : List ℕ

unfoldable pub new : ℕ → RealDiskController
new interrupt_num = record {
  interrupt_num = interrupt_num;
  worker_tx = none;
  shared_data = record {
    status = 0;
    blocks_available = 0;
    block_to_access = 0;
    buffer = replicate disk_buffer_size 0;
  };
  interrupts = [];
}

-- `a & !b` on `u8`
abbrev pub clear_flag : ℕ → ℕ → ℕ
clear_flag status flag = bit_and status (0xFF - flag)

abbrev pub has_flag : ℕ → ℕ → Bool
has_flag status flag = not (bit_and status flag == 0)

-- the macro `return_with_status!`
unfoldable pub return_with_status : ℕ → RealDiskController → RealDiskController
return_with_status status c = record c {
  shared_data = record c.shared_data { status = status };
  interrupts = c.interrupts ++ c.interrupt_num ∷ [];
}

-- the macro `return_finished!`
unfoldable pub return_finished : ℕ → RealDiskController → RealDiskController
unfolding return_with_status
return_finished status c =
    return_with_status
      (if has_flag status flag_finished
        then clear_flag status flag_finished
        else bit_or status flag_finished)
      c

unfoldable pub return_successful : RealDiskController → RealDiskController
unfolding return_finished
return_successful c =
    return_finished (clear_flag (bit_or c.shared_data.status flag_success) flag_bad_command) c

unfoldable pub return_failed : RealDiskController → RealDiskController
unfolding return_finished
return_failed c =
    return_finished (clear_flag (clear_flag c.shared_data.status flag_success) flag_bad_command) c

unfoldable pub return_bad : RealDiskController → RealDiskController
unfolding return_finished
return_bad c =
    return_finished (bit_or (clear_flag c.shared_data.status flag_success) flag_bad_command) c

unfoldable pub return_connected : RealDiskController → RealDiskController
unfolding return_with_status
return_connected c = return_with_status (bit_or c.shared_data.status flag_connected) c

unfoldable pub return_disconnected : RealDiskController → RealDiskController
unfolding return_with_status
return_disconnected c = return_with_status (clear_flag c.shared_data.status flag_connected) c

abbrev pub with_block : ℕ → RealDiskController → RealDiskController
with_block block c = record c { shared_data = record c.shared_data { block_to_access = block } }

abbrev pub with_buffer : List ℕ → RealDiskController → RealDiskController
with_buffer buffer c = record c { shared_data = record c.shared_data { buffer = buffer } }

-- `self.worker_tx.as_ref().unwrap().send(..)`; a controller that does not run panics.
unfoldable pub send_command : DiskCommand → RealDiskController → Option RealDiskController
send_command cmd c = elim c.worker_tx [
  | none ↦ none
  | some commands ↦ some (record c { worker_tx = some (commands ++ cmd ∷ []) })
]

-- Here and below, `none` is a panic: for this function an address that is not handled.
unfoldable pub store_control : RealDiskController → ℕ → ℕ → Option RealDiskController
unfolding send_command return_bad
store_control c address value =
    let block = c.shared_data.block_to_access in
    if address == address_da_1
    then some (with_block (bit_or (bit_and block 0x00FFFFFF) (value * 2 ^ 24)) c)
    else if address == address_da_2
    then some (with_block (bit_or (bit_and block 0xFF00FFFF) (value * 2 ^ 16)) c)
    else if address == address_da_3
    then some (with_block (bit_or (bit_and block 0xFFFF00FF) (value * 2 ^ 8)) c)
    else if address == address_da_4
    then some (with_block (bit_or (bit_and block 0xFFFFFF00) value) c)
    else if address == address_cmd
    then (if value == command_read
        then send_command (read false) c
        else if value == command_write
        then send_command (write false) c
        else if value == command_contiguous_read
        then send_command (read true) c
        else if value == command_contiguous_write
        then send_command (write true) c
        else some (return_bad c))
    else none

unfoldable pub load_status : RealDiskController → ℕ → Option ℕ
load_status c address =
    let sd = c.shared_data in
    if address == address_status
    then some sd.status
    else if address == address_nba_1
    then some (bit_and sd.blocks_available 0xFF000000 / 2 ^ 24 % 2 ^ 8)
    else if address == address_nba_2
    then some (bit_and sd.blocks_available 0x00FF0000 / 2 ^ 26 % 2 ^ 8)
    else if address == address_nba_3
    then some (bit_and sd.blocks_available 0x0000FF00 / 2 ^ 8 % 2 ^ 8)
    else if address == address_nba_4
    then some (bit_and sd.blocks_available 0x000000FF % 2 ^ 8)
    else if address == address_da_1
    then some (bit_and sd.block_to_access 0xFF000000 / 2 ^ 24 % 2 ^ 8)
    else if address == address_da_2
    then some (bit_and sd.block_to_access 0x00FF0000 / 2 ^ 26 % 2 ^ 8)
    else if address == address_da_3
    then some (bit_and sd.block_to_access 0x0000FF00 / 2 ^ 8 % 2 ^ 8)
    else if address == address_da_4
    then some (bit_and sd.block_to_access 0x000000FF % 2 ^ 8)
    else none

-- An index out of bounds panics.
unfoldable pub store_data : RealDiskController → ℕ → ℕ → Option RealDiskController
store_data c address value = elim (get_elem? c.shared_data.buffer address) [
  | none ↦ none
  | some old ↦ some (with_buffer (set c.shared_data.buffer address value) c)
]

unfoldable pub load_data : RealDiskController → ℕ → Option ℕ
load_data c address = get_elem? c.shared_data.buffer address

-- `impl DiskController for RealDiskController`: what the memory unit calls
abbrev pub real_disk : DiskController RealDiskController
real_disk = record {
  store_control = store_control;
  load_status = load_status;
  store_data = store_data;
  load_data = load_data;
}

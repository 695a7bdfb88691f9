-- ===== src/Disk/Interface.antt =====
-- Registers, flags and commands of a disk controller (disk_interface.rs).
use simulatron.Common.{ℕ}

abbrev pub address_status : ℕ
address_status = 0

-- the number of blocks available
abbrev pub address_nba_1 : ℕ
address_nba_1 = 1

abbrev pub address_nba_2 : ℕ
address_nba_2 = 2

abbrev pub address_nba_3 : ℕ
address_nba_3 = 3

abbrev pub address_nba_4 : ℕ
address_nba_4 = 4

-- the disk address
abbrev pub address_da_1 : ℕ
address_da_1 = 5

abbrev pub address_da_2 : ℕ
address_da_2 = 6

abbrev pub address_da_3 : ℕ
address_da_3 = 7

abbrev pub address_da_4 : ℕ
address_da_4 = 8

abbrev pub address_cmd : ℕ
address_cmd = 9

abbrev pub flag_connected : ℕ
flag_connected = 0x01

abbrev pub flag_finished : ℕ
flag_finished = 0x02

abbrev pub flag_success : ℕ
flag_success = 0x04

abbrev pub flag_bad_command : ℕ
flag_bad_command = 0x08

abbrev pub command_read : ℕ
command_read = 1

abbrev pub command_write : ℕ
command_write = 2

abbrev pub command_contiguous_read : ℕ
command_contiguous_read = 3

abbrev pub command_contiguous_write : ℕ
command_contiguous_write = 4

abbrev pub disk_buffer_size : ℕ
disk_buffer_size = 0x1000

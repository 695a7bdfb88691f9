-- ===== src/Mmu/Zones.antt =====
-- The constants of mmu.rs and the interrupt numbers of cpu.rs.
use simulatron.Common.{ℕ}

abbrev pub page_fault_invalid_page : ℕ
page_fault_invalid_page = 0

abbrev pub page_fault_illegal_access : ℕ
page_fault_illegal_access = 1

abbrev pub page_fault_not_present : ℕ
page_fault_not_present = 2

abbrev pub page_fault_cow : ℕ
page_fault_cow = 3

abbrev pub begin_reserved_1 : ℕ
begin_reserved_1 = 0x0020

abbrev pub begin_rom : ℕ
begin_rom = 0x0040

abbrev pub begin_display : ℕ
begin_display = 0x0240

abbrev pub begin_keyboard : ℕ
begin_keyboard = 0x19B0

abbrev pub begin_reserved_2 : ℕ
begin_reserved_2 = 0x19B2

abbrev pub begin_disk_a_status : ℕ
begin_disk_a_status = 0x1FEC

abbrev pub begin_disk_a_address : ℕ
begin_disk_a_address = 0x1FF1

abbrev pub begin_disk_a_command : ℕ
begin_disk_a_command = 0x1FF5

abbrev pub begin_disk_b_status : ℕ
begin_disk_b_status = 0x1FF6

abbrev pub begin_disk_b_address : ℕ
begin_disk_b_address = 0x1FFB

abbrev pub begin_disk_b_command : ℕ
begin_disk_b_command = 0x1FFF

abbrev pub begin_disk_a_data : ℕ
begin_disk_a_data = 0x2000

abbrev pub begin_disk_b_data : ℕ
begin_disk_b_data = 0x3000

abbrev pub begin_ram : ℕ
begin_ram = 0x4000

abbrev pub interrupt_vector_size : ℕ
interrupt_vector_size = 0x20

abbrev pub rom_size : ℕ
rom_size = 512

abbrev pub interrupt_illegal_operation : ℕ
interrupt_illegal_operation = 0

abbrev pub interrupt_div_by_0 : ℕ
interrupt_div_by_0 = 1

abbrev pub interrupt_page_fault : ℕ
interrupt_page_fault = 2

abbrev pub interrupt_keyboard : ℕ
interrupt_keyboard = 3

abbrev pub interrupt_timer : ℕ
interrupt_timer = 6

abbrev pub interrupt_syscall : ℕ
interrupt_syscall = 7

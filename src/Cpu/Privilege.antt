-- ===== src/Cpu/Privilege.antt =====
-- User mode cannot change the privileged state: the mode, the kernel stack pointer, the page
-- directory pointer and the interrupt mask.
pub mod Base
pub mod Instructions
pub mod Decode
pub mod Cycle

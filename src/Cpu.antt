-- ===== src/Cpu.antt =====
-- The processor, Crates/simulatron-vm/src/lib/cpu.rs, with cpu/macros.rs and cpu/rotcarry.rs.
pub mod Values
pub mod Rotcarry
pub mod State
pub mod Registers
pub mod Memory
pub mod Flags
pub mod Arith
pub mod Alu
pub mod Shifts
pub mod Blocks
pub mod Latch
pub mod Fetch
pub mod Decode
pub mod Cycle
pub mod Privilege

-- ===== src/Disk.antt =====
-- Disk controllers, Crates/simulatron-vm/src/lib/disk/.
pub mod Interface
pub mod Mock
pub mod Host
pub mod Real
pub mod Worker
pub mod Registers
pub mod Flags
pub mod Ends
pub mod Commands
pub mod WriteRead
pub mod Run
pub mod Reachable
pub mod Access
pub mod Stored

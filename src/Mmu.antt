-- ===== src/Mmu.antt =====
-- The memory management unit, Crates/simulatron-vm/src/lib/mmu.rs, and the devices that it maps.
pub mod Zones
pub mod Display
pub mod Keyboard
pub mod State
pub mod Physical
pub mod Virtual

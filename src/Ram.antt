-- ===== src/Ram.antt =====
-- The two implementations of RAM (Crates/simulatron-vm/src/lib/ram.rs): one vector, the default,
-- and a hash map of pages behind the feature `lazy-ram`.
pub mod Eager
pub mod Lazy
pub mod Refinement

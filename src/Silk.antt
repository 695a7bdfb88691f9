-- ===== src/Silk.antt =====
-- The object code tools, Crates/simulatron-silk, with Crates/simulatron-utils/src/read_be.rs.
pub mod Result
pub mod Names
pub mod Data
pub mod Parser
pub mod Object
pub mod Tables
pub mod Verify
pub mod Parse
pub mod Linker
pub mod Combine
pub mod Link

-- ===== src/Storage.antt =====
-- src/storage: what the broker keeps across connections.
pub mod Types
pub mod Trait
pub mod Refinement
pub mod Memory
pub mod Sqlite

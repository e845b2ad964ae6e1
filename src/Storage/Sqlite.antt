-- ===== src/Storage/Sqlite.antt =====
-- src/storage/sqlite.rs: `SqliteStorage`, the other backend behind the `Storage` trait.
pub mod Rows
pub mod Columns
pub mod Database
pub mod Run
pub mod Store
pub mod Steps
pub mod Atomic
pub mod Expired
pub mod RoundTrip
pub mod Collected
pub mod Loaded
pub mod Retained
pub mod TestDatabase
pub mod Tests

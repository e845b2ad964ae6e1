-- ===== src/Session.antt =====
-- src/session.rs: the task of one client, its handlers and its persistence.
pub mod Types
pub mod Effect
pub mod Outbound
pub mod Inbound
pub mod Subscribing
pub mod Persist
pub mod Connect
pub mod Keeps
pub mod Run
pub mod TestWorld
mod Tests

-- ===== src/Router.antt =====
-- src/router.rs: topics, subscriptions, routing and retained messages.
pub mod Topic
pub mod Qos
pub mod Index
pub mod Retained
pub mod Subscribe
pub mod Route
pub mod Lifecycle
pub mod Lock
mod Tests

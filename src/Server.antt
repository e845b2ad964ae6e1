-- ===== src/Server.antt =====
-- src/server.rs, src/main.rs and the start-up of the parts that they put together.
pub mod Listen
pub mod Address
pub mod Bound
pub mod Start
pub mod Args
pub mod Serve
pub mod Shutdown
pub mod Accept
mod Tests

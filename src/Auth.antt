-- ===== src/Auth.antt =====
-- src/auth: who may connect, publish and subscribe.
pub mod Types
pub mod Text
pub mod Acl
pub mod AclFile
pub mod Password
pub mod PasswordFile
mod Tests

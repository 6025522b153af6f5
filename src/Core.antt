-- ===== src/Core.antt =====
-- crates/aegis-core/src: the domain types that every other crate shares.
pub mod FailureClass
pub mod Error
pub mod Preflight
pub mod Session
pub mod Network
pub mod Gateway
pub mod Update
pub mod Vm
pub mod Fingerprint
pub mod Permissions
pub mod Config
pub mod Browser
pub mod Profile
pub mod Events

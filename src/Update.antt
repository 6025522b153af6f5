-- ===== src/Update.antt =====
-- crates/update-client/src/lib.rs
pub mod Host
pub mod Transport
pub mod Client
pub mod Apply
pub mod Checked
pub mod Undo
pub mod Installing
pub mod Installed
pub mod Progress
pub mod Looping
pub mod Changes
pub mod Restoring
pub mod Targets
pub mod Applied

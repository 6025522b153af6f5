-- ===== src/Daemon.antt =====
-- crates/aegis-daemon/src: the privileged orchestrator and what it drives.
pub mod Calls
pub mod State
pub mod HostProxy
pub mod Orchestrator
pub mod Teardown
pub mod Start
pub mod StartHost
pub mod Sessions
pub mod Trace
pub mod Reachable
pub mod Table

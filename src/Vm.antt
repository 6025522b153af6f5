-- ===== src/Vm.antt =====
-- crates/vm-controller
pub mod Xml
pub mod Runner
pub mod Controller
pub mod Noted
pub mod Tracked
pub mod Provisioning
pub mod Destroying
pub mod Outcomes
pub mod Reachable

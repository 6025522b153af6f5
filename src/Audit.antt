-- ===== src/Audit.antt =====
-- crates/network-audit/src: the preflight checks over a probe.
pub mod Auditor
pub mod Measured
pub mod Single

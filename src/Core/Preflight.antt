-- ===== src/Core/Preflight.antt =====
-- crates/aegis-core/src/preflight.rs: checks, reports, and the checklist with its verdict.
pub mod Checks
pub mod Report
pub mod Checklist

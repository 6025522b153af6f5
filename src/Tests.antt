-- ===== src/Tests.antt =====
-- The theorems applied at concrete inputs, and the inputs.
mod Sample
mod CoreExamples
mod DaemonExamples
mod GatewayExamples
mod IpcExamples
mod AuditExamples
mod UpdateExamples
mod VmExamples
mod StoreExamples

-- ===== src/Remediate.antt =====
-- Remediation of one unhealthy node, internal/controller/nodehealthcheck_controller.go: what comes
-- before the CR (Setup), what comes after it (Outcome), remediate itself (Run), and the proofs.
pub mod Setup
pub mod Outcome
pub mod Run
pub mod Safety
pub mod Exclusive
pub mod Cancelled

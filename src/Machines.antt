-- ===== src/Machines.antt =====
-- The MachineHealthCheck reconciler, internal/controller/machinehealthcheck_controller.go.
pub mod Health
pub mod Targets
pub mod Limit
pub mod Conditions
pub mod Remediate
pub mod Outcome
pub mod Run
pub mod Verdicts
pub mod Bounds
pub mod Quiet
pub mod Held
pub mod Safety
pub mod Allowed
pub mod Panics
pub mod Unfinished
pub mod Stated

-- ===== src/Reconcile.antt =====
-- Reconcile of internal/controller/nodehealthcheck_controller.go: its steps, the whole of it, and what
-- holds of it.
pub mod Operator
pub mod Report
pub mod Alert
pub mod Healthy
pub mod Unhealthy
pub mod Outcome
pub mod Run
pub mod Quiet
pub mod Loops
pub mod Safety
pub mod Deleting
pub mod HeldBack
pub mod Unheld
pub mod GoesAhead
pub mod Updates
pub mod Updated
pub mod Recorded
pub mod Present
pub mod InTime
pub mod AlertLoop
pub mod Upgrading

-- ===== src/Storm.antt =====
-- Storm recovery of internal/controller/nodehealthcheck_controller.go: the code (Evaluate), what it
-- promises (Machine), the refinement (Refinement) and its runs (Quiet).
pub mod Evaluate
pub mod Machine
pub mod Refinement
pub mod Quiet

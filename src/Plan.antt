-- ===== src/Plan.antt =====
-- worker/planner.go.
pub mod Types
pub mod Batches
pub mod Build

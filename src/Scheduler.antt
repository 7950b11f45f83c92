-- ===== src/Scheduler.antt =====
-- worker/scheduler.go and worker/scheduling.go.
pub mod Job
pub mod Dependencies
pub mod Loop
pub mod Steps
pub mod Invariant
pub mod Progress
pub mod Doom
pub mod Finish
pub mod Later
pub mod Safety

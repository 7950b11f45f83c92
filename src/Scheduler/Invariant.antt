-- ===== src/Scheduler/Invariant.antt =====
-- What holds in every state of the assigner's loop.
pub mod Defs
pub mod Propagate
pub mod Failing
pub mod Launching
pub mod Selecting
pub mod Assigning
pub mod Receiving
pub mod Stepping

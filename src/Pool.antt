-- ===== src/Pool.antt =====
-- worker/pool.go.
pub mod Message
pub mod Records

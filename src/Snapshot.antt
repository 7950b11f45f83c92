-- ===== src/Snapshot.antt =====
-- The records of a binary cache, in worker/snapshot.go and worker/snapshot_index.go.
pub mod Files
pub mod Paths
pub mod Narinfo
pub mod Index
pub mod Records

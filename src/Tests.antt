-- ===== src/Tests.antt =====
-- The models run on small inputs, and the theorems applied there.
pub mod SchedulerRuns
pub mod BatchesRuns
pub mod DownloadRuns
pub mod PlanRuns
pub mod BuilderRuns
pub mod RecordRuns
pub mod IndexRuns
pub mod CatalogRuns
pub mod SnapshotRuns
pub mod PackerRuns
pub mod PublishRuns
pub mod LiveRuns

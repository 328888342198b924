-- ===== src/Cephfs/Source.antt =====
-- SourceWorker of internal/worker/cephfs/source.go.
pub mod Batches
pub mod Walk
pub mod Routes
pub mod Rsync
pub mod Plan
pub mod Stateless
pub mod BlockPipeline
mod Tests

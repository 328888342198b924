-- ===== src/Cephfs.antt =====
-- internal/worker/cephfs: the source and the destination of file systems.
pub mod Split
pub mod Drainer
pub mod Iterator
pub mod FileCache
pub mod Paths
pub mod Source
pub mod Destination
mod Tests

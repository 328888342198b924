-- ===== src/Mover.antt =====
-- internal/mover/ceph: what the operator does around a mover's job.
pub mod Snapshots
pub mod Handles
pub mod Catalog
pub mod Ports

-- ===== src/Rbd.antt =====
-- internal/worker/rbd: the source and the destination of block devices.
pub mod Adapter
pub mod Destination
pub mod Source

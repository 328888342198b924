-- ===== src/Ceph.antt =====
-- internal/ceph: the connections and identifiers that the movers use.
pub mod ConnPool
pub mod Volid
pub mod Config

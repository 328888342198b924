-- ===== src/Cephfs/Source/Plan/Tests.antt =====
-- The choice of what is compared at concrete handles.
use ceph_volsync_plugin.Base.{ℕ, [], ◌∷◌, replicate}
use ceph_volsync_plugin.Base.Text.{Text}
use ceph_volsync_plugin.Ceph.Volid.{CsiIdentifier, encode_hex, join_fields}
use ceph_volsync_plugin.Ceph.Config.{ClusterInfo, ConfigFile, clusters}
use ceph_volsync_plugin.Cephfs.Paths.{codes}

-- An identifier whose UUID is one digit, 36 times.
abbrev identifier : ℕ → CsiIdentifier
identifier digit = record {
  location_id = 3000;
  encoding_version = 0;
  cluster_id = codes "ce";
  object_uuid = replicate 36 digit;
}

abbrev handle : ℕ → Text
handle digit =
    join_fields (encode_hex 4 1) (encode_hex 4 2) (codes "ce") (encode_hex 16 3000)
      (replicate 36 digit)

abbrev cluster : ClusterInfo
cluster = record {
  cluster_id = codes "ce";
  monitors = codes "m1" ∷ codes "m2" ∷ [];
  rbd_rados_namespace = [];
  rbd_secret = ([], []);
  cephfs_rados_namespace = [];
  subvolume_group = [];
  cephfs_secret = ([], []);
}

abbrev file : ConfigFile
file = clusters (cluster ∷ [])

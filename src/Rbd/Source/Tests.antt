-- ===== src/Rbd/Source/Tests.antt =====
-- The theorem on the source's snapshots at a concrete input.
use ceph_volsync_plugin.Base.{ℕ, ◌%◌, ◌≡◌, refl, List, [], ◌∷◌, some, length, replicate, arith}
use ceph_volsync_plugin.Ceph.Volid.{
  CsiIdentifier, compose_csi_id, join_fields, encode_hex, version_of, u16,
}
use ceph_volsync_plugin.Rbd.Source.{
  SourceContext, ParentInfo, parent, Cluster, resolved, resolve_parent_image,
}
use ceph_volsync_plugin.Rbd.Source.Snapshots.{HandleOf, base, resolve_parent_image_snapshots}

abbrev snapshot_id : ℕ → CsiIdentifier
snapshot_id c = record {
  location_id = 3;
  encoding_version = 1;
  cluster_id = 99 ∷ [];
  object_uuid = replicate 36 c;
}

abbrev handle_of : CsiIdentifier → List ℕ
handle_of ci =
    join_fields (encode_hex 4 (version_of ci)) (encode_hex 4 (length ci.cluster_id % u16))
      ci.cluster_id (encode_hex 16 ci.location_id) ci.object_uuid

abbrev parent_info : ParentInfo
parent_info = record {
  pool_name = 112 ∷ [];
  pool_namespace = [];
  image_name = 105 ∷ [];
  pool_id = 3;
  snap_id = 9;
}

abbrev cluster : Cluster
cluster = record {
  pool_name_by_id = λ i. some (112 ∷ []);
  image_parent = λ s. some (parent parent_info);
}

abbrev context : SourceContext
context = record {
  rados_ns = 110 ∷ [];
  volume_id = snapshot_id 48;
  parent_pool_id = 0;
  parent_ns = [];
  parent_image_name = [];
  parent_pool_name = [];
  from_snap_id = 0;
  target_snap_id = 0;
}

target_handle : HandleOf (snapshot_id 49) (handle_of (snapshot_id 49))
unfolding compose_csi_id
target_handle = record { location = omega arith; version = omega arith; composed = refl }

base_handle : HandleOf (snapshot_id 50) (handle_of (snapshot_id 50))
unfolding compose_csi_id
base_handle = record { location = omega arith; version = omega arith; composed = refl }

resolve_parent_image_snapshots_example :
    resolve_parent_image cluster (handle_of (snapshot_id 50)) (handle_of (snapshot_id 49)) context
    ≡ resolved (record {
      rados_ns = context.rados_ns;
      volume_id = context.volume_id;
      parent_pool_id = parent_info.pool_id;
      parent_ns = parent_info.pool_namespace;
      parent_image_name = parent_info.image_name;
      parent_pool_name = parent_info.pool_name;
      from_snap_id = 9;
      target_snap_id = parent_info.snap_id;
    })
resolve_parent_image_snapshots_example =
    resolve_parent_image_snapshots cluster context (snapshot_id 49) (handle_of (snapshot_id 49))
      (handle_of (snapshot_id 50)) (112 ∷ []) parent_info 9 target_handle refl refl refl
      (base (snapshot_id 50) parent_info base_handle refl)

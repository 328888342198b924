-- ===== src/Rbd/Source.antt =====
-- Which image and which snapshots the source of internal/worker/rbd/source.go compares. Names are
-- lists of bytes; what the cluster answers (internal/ceph/rbd/rbd.go over librbd) is an input.
pub mod Sync
pub mod Snapshots
mod Tests
use ceph_volsync_plugin.Base.{
  ℕ, Bool, true, false, ◌&&◌, List, [], ◌∷◌, ◌++◌, Option, none, some, if◌then◌else◌,
}
use ceph_volsync_plugin.Ceph.Volid.{
  CsiIdentifier, Decomposed, decomposed, refused, panicked, decompose_csi_id,
}

-- sourceContext, without the monitors.
pub record SourceContext : Type 0 where
  pub rados_ns : List ℕ
  pub volume_id : CsiIdentifier
  pub parent_pool_id : ℕ
  pub parent_ns : List ℕ
  pub parent_image_name : List ℕ
  pub parent_pool_name : List ℕ
  pub from_snap_id : ℕ
  pub target_snap_id : ℕ

-- ParentInfo of go-ceph.
pub record ParentInfo : Type 0 where
  pub pool_name : List ℕ
  pub pool_namespace : List ℕ
  pub image_name : List ℕ
  pub pool_id : ℕ
  pub snap_id : ℕ

-- What GetParent of an image gives.
pub data Parent : Type 0 where
  parent_error no_parent : Parent
  parent : ParentInfo → Parent

-- The answers of the cluster: the name of a pool, and the parent of an image that can be opened.
pub record Cluster : Type 0 where
  pub pool_name_by_id : ℕ → Option (List ℕ)
  pub image_parent : List ℕ → Option Parent

pub data SourceError : Type 0 where
  bad_target_handle bad_base_handle pool_unknown : SourceError
  target_not_opened target_parent_error target_has_no_parent : SourceError
  base_not_opened base_parent_error base_has_no_parent : SourceError

pub data Resolved : Type 0 where
  resolved : SourceContext → Resolved
  failed : SourceError → Resolved
  crashed : Resolved

abbrev pub is_empty : List ℕ → Bool
is_empty [] = true
is_empty (c ∷ cs) = false

-- RBDImageSpec: "pool/[ns/]image".
unfoldable pub rbd_image_spec : List ℕ → List ℕ → List ℕ → List ℕ
rbd_image_spec pool [] image = pool ++ 47 ∷ image
rbd_image_spec pool (c ∷ cs) image = pool ++ 47 ∷ ((c ∷ cs) ++ 47 ∷ image)

-- "csi-snap-" and "csi-vol-" before an identifier.
abbrev pub snap_name : CsiIdentifier → List ℕ
snap_name ci = (99 ∷ 115 ∷ 105 ∷ 45 ∷ 115 ∷ 110 ∷ 97 ∷ 112 ∷ 45 ∷ []) ++ ci.object_uuid

abbrev pub vol_name : CsiIdentifier → List ℕ
vol_name ci = (99 ∷ 115 ∷ 105 ∷ 45 ∷ 118 ∷ 111 ∷ 108 ∷ 45 ∷ []) ++ ci.object_uuid

abbrev pub with_identifier : SourceError → Decomposed → (CsiIdentifier → Resolved) → Resolved
with_identifier e (decomposed ci) f = f ci
with_identifier e (refused _) f = failed e
with_identifier e panicked f = crashed

abbrev pub with_pool : Option (List ℕ) → (List ℕ → Resolved) → Resolved
with_pool none f = failed pool_unknown
with_pool (some name) f = f name

-- NewImage and GetParent, with the three errors that they lead to.
abbrev pub with_parent :
    SourceError → SourceError → SourceError → Option Parent → (ParentInfo → Resolved) → Resolved
with_parent closed err missing none f = failed closed
with_parent closed err missing (some parent_error) f = failed err
with_parent closed err missing (some no_parent) f = failed missing
with_parent closed err missing (some (parent p)) f = f p

unfoldable pub resolve_full_diff_from_volume : Cluster → SourceContext → Resolved
resolve_full_diff_from_volume cl sc =
    with_pool (cl.pool_name_by_id sc.volume_id.location_id) (λ pool. resolved (record sc {
      parent_pool_id = sc.volume_id.location_id;
      parent_ns = sc.rados_ns;
      parent_image_name = vol_name sc.volume_id;
      parent_pool_name = pool;
    }))

-- The context of the target's parent.
abbrev pub with_target : ParentInfo → SourceContext → SourceContext
with_target p sc = record sc {
  parent_pool_name = p.pool_name;
  parent_ns = p.pool_namespace;
  parent_image_name = p.image_name;
  parent_pool_id = p.pool_id;
  target_snap_id = p.snap_id;
}

-- The base snapshot, looked for where the parent of the target is.
abbrev pub with_base : Cluster → Option CsiIdentifier → SourceContext → Resolved
with_base cl none sc = resolved sc
with_base cl (some base) sc =
    with_parent base_not_opened base_parent_error base_has_no_parent
      (cl.image_parent (rbd_image_spec sc.parent_pool_name sc.parent_ns (snap_name base)))
      (λ p. resolved (record sc { from_snap_id = p.snap_id }))

unfoldable pub resolve_target :
    Cluster → CsiIdentifier → Option CsiIdentifier → SourceContext → Resolved
resolve_target cl target base sc = with_pool (cl.pool_name_by_id target.location_id) (λ pool.
    with_parent target_not_opened target_parent_error target_has_no_parent
      (cl.image_parent (rbd_image_spec pool sc.rados_ns (snap_name target)))
      (λ p. with_base cl base (with_target p sc)))

abbrev pub base_identifier : List ℕ → (Option CsiIdentifier → Resolved) → Resolved
base_identifier [] f = f none
base_identifier (c ∷ cs) f =
    with_identifier bad_base_handle (decompose_csi_id (c ∷ cs)) (λ base. f (some base))

unfoldable pub resolve_snapshot_diff : Cluster → List ℕ → List ℕ → SourceContext → Resolved
unfolding resolve_target
resolve_snapshot_diff cl base_handle target_handle sc =
    with_identifier bad_target_handle (decompose_csi_id target_handle)
      (λ target. base_identifier base_handle (λ base. resolve_target cl target base sc))

pub resolve_parent_image : Cluster → List ℕ → List ℕ → SourceContext → Resolved
unfolding resolve_full_diff_from_volume resolve_snapshot_diff
resolve_parent_image cl base_handle target_handle sc =
    if is_empty base_handle && is_empty target_handle
    then resolve_full_diff_from_volume cl sc
    else resolve_snapshot_diff cl base_handle target_handle sc

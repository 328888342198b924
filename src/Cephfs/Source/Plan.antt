-- ===== src/Cephfs/Source/Plan.antt =====
-- The choice that Sync of internal/worker/cephfs/source.go makes from the three handles of its
-- environment, and what runSnapdiffSync compares.
pub mod Handles
mod Tests
use ceph_volsync_plugin.Base.{ℕ, List, [], ◌∷◌, ◌++◌, Result, ok, err}
use ceph_volsync_plugin.Base.Text.{Text}
use ceph_volsync_plugin.Ceph.Volid.{
  CsiIdentifier, Decomposed, decomposed, refused, panicked, decompose_csi_id,
}
use ceph_volsync_plugin.Ceph.Config.{ConfigFile, ConfigError, mons, cephfs_subvolume_group}

-- The arguments of cephfsdiffer.New.
pub record Differ : Type 0 where
  pub monitors : Text
  pub location_id : ℕ
  pub sub_volume_group : Text
  pub sub_volume_name : Text
  pub base_snap_name : Text
  pub target_snap_name : Text

pub data Plan : Type 0 where
  rsync_fallback : Plan
  snapdiff : Differ → Plan
  bad_base bad_target bad_volume no_group no_mons panics : Plan

abbrev pub with_id : Plan → Decomposed → (CsiIdentifier → Plan) → Plan
with_id e (decomposed ci) f = f ci
with_id e (refused _) f = e
with_id e panicked f = panics

abbrev pub with_text : Plan → Result ConfigError Text → (Text → Plan) → Plan
with_text e (err _) f = e
with_text e (ok t) f = f t

-- "csi-snap-" and "csi-vol-".
abbrev pub snap_name : CsiIdentifier → Text
snap_name ci = (99 ∷ 115 ∷ 105 ∷ 45 ∷ 115 ∷ 110 ∷ 97 ∷ 112 ∷ 45 ∷ []) ++ ci.object_uuid

abbrev pub vol_name : CsiIdentifier → Text
vol_name ci = (99 ∷ 115 ∷ 105 ∷ 45 ∷ 118 ∷ 111 ∷ 108 ∷ 45 ∷ []) ++ ci.object_uuid

-- runSnapdiffSync up to cephfsdiffer.New.
unfoldable pub run_snapdiff_sync : ConfigFile → Text → Text → Text → Plan
unfolding decompose_csi_id mons cephfs_subvolume_group
run_snapdiff_sync file base target volume = with_id bad_base (decompose_csi_id base) λ b.
    with_id bad_target (decompose_csi_id target) λ t.
      with_id bad_volume (decompose_csi_id volume) λ v.
        with_text no_group (cephfs_subvolume_group file v.cluster_id) λ group.
          with_text no_mons (mons file v.cluster_id) λ ms. snapdiff (record {
            monitors = ms;
            location_id = v.location_id;
            sub_volume_group = group;
            sub_volume_name = vol_name v;
            base_snap_name = snap_name b;
            target_snap_name = snap_name t;
          })

-- The end of Sync: an empty handle is one that is not set.
unfoldable pub sync : ConfigFile → Text → Text → Text → Plan
unfolding run_snapdiff_sync
sync file [] target volume = rsync_fallback
sync file (b ∷ bs) [] volume = rsync_fallback
sync file (b ∷ bs) (t ∷ ts) [] = rsync_fallback
sync file (b ∷ bs) (t ∷ ts) (v ∷ vs) = run_snapdiff_sync file (b ∷ bs) (t ∷ ts) (v ∷ vs)

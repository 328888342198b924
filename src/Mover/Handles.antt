-- ===== src/Mover/Handles.antt =====
-- The handles that getVolumeEnvVars of internal/mover/ceph/snapshot_method.go gives to the worker,
-- with getVolumeHandle and getSnapshotHandle. List always answers.
use ceph_volsync_plugin.Base.{
  ℕ, Bool, List, [], ◌∷◌, Option, none, some, Result, ok, err, ◌==◌, if◌then◌else◌,
}
use ceph_volsync_plugin.Base.Text.{Text}
use ceph_volsync_plugin.Mover.Snapshots.{
  Snapshot, is_previous, list_snapshots_with_status, find_current_snapshot,
}

pub data EnvError : Type 0 where
  get_error not_ready no_content no_handle no_current not_bound not_csi : EnvError

-- A PersistentVolume as getVolumeHandle meets it.
pub data Volume : Type 0 where
  unknown unbound no_csi : Volume
  csi_volume : Text → Volume

-- What the API server knows: of contents, where Get fails or the handle may not be set; whether
-- the source PVC is there; the volumes of the source, of the data PVC, and of the PVC that the
-- options name, if it is there.
pub record Api : Type 0 where
  pub contents : ℕ → Option (Option Text)
  pub source_found : Bool
  pub source_volume : Volume
  pub data_volume : Volume
  pub named_volume : Option Volume

abbrev pub handle_of : Option (Option Text) → Result EnvError Text
handle_of none = err get_error
handle_of (some none) = err no_handle
handle_of (some (some h)) = ok h

abbrev pub content_of : Api → Option ℕ → Result EnvError Text
content_of api none = err no_content
content_of api (some c) = handle_of (api.contents c)

-- getSnapshotHandle, by name.
unfoldable pub get_snapshot_handle : Api → ℕ → List Snapshot → Result EnvError Text
get_snapshot_handle api name [] = err get_error
get_snapshot_handle api name (s ∷ ss) =
    let rest = get_snapshot_handle api name ss in
    if s.name == name then if s.ready then content_of api s.content else err not_ready else rest

-- The variables for the worker: the volume only, or a base and a target too.
pub data EnvVars : Type 0 where
  volume_only : Text → EnvVars
  with_snapshots : Text → Text → Text → EnvVars

abbrev pub with_handle {ℓ} : {A : Type ℓ} → Result EnvError Text → (EnvError → A) → (Text → A) → A
with_handle (err e) f g = f e
with_handle (ok t) f g = g t

abbrev pub get_volume_handle : Volume → Result EnvError Text
get_volume_handle unknown = err get_error
get_volume_handle unbound = err not_bound
get_volume_handle no_csi = err not_csi
get_volume_handle (csi_volume h) = ok h

abbrev pub target_name : Option Snapshot → Result EnvError ℕ
target_name none = err no_current
target_name (some s) = ok s.name

abbrev pub handle_of_target : Api → List Snapshot → Result EnvError ℕ → Result EnvError Text
handle_of_target api ss (err e) = err e
handle_of_target api ss (ok n) = get_snapshot_handle api n ss

-- The part of getVolumeEnvVars for a source that takes snapshots.
abbrev pub env_vars_from : Api → List Snapshot → List Snapshot → Result EnvError EnvVars
env_vars_from api ss [] =
    with_handle (get_volume_handle api.source_volume) err (λ v. ok (volume_only v))
env_vars_from api ss (p ∷ ps) = with_handle (get_snapshot_handle api p.name ss) err λ base.
    with_handle (handle_of_target api ss (target_name (find_current_snapshot ss))) err λ target.
      with_handle (get_volume_handle api.source_volume) err λ v. ok (with_snapshots v base target)

-- The options of the copy method Direct, none where an option is empty.
pub record DirectOptions : Type 0 where
  pub volume_name : Option ℕ
  pub base_snapshot_name : Option ℕ
  pub target_snapshot_name : Option ℕ

pub data Mode : Type 0 where
  destination snapshots : Mode
  direct : DirectOptions → Mode

abbrev pub volume_vars : Volume → Result EnvError EnvVars
volume_vars v = with_handle (get_volume_handle v) err (λ h. ok (volume_only h))

-- With all three options; the PVC is fetched first.
abbrev pub direct_vars : Api → List Snapshot → Option Volume → ℕ → ℕ → Result EnvError EnvVars
direct_vars api ss none base target = err get_error
direct_vars api ss (some volume) base target = with_handle (get_volume_handle volume) err λ v.
    with_handle (get_snapshot_handle api base ss) err
      λ b. with_handle (get_snapshot_handle api target ss) err λ t. ok (with_snapshots v b t)

abbrev pub choose_direct :
    Api → List Snapshot → Option ℕ → Option ℕ → Option ℕ → Result EnvError EnvVars
choose_direct api ss (some volume) (some base) (some target) =
    direct_vars api ss api.named_volume base target
choose_direct api ss _ _ _ = volume_vars api.data_volume

unfoldable pub vars_for : Mode → Api → List Snapshot → Result EnvError EnvVars
unfolding get_snapshot_handle find_current_snapshot list_snapshots_with_status
vars_for destination api ss = volume_vars api.data_volume
vars_for (direct o) api ss =
    choose_direct api ss o.volume_name o.base_snapshot_name o.target_snapshot_name
vars_for snapshots api ss = env_vars_from api ss (list_snapshots_with_status is_previous ss)

unfoldable pub get_volume_env_vars : Mode → Api → List Snapshot → Result EnvError EnvVars
unfolding vars_for
get_volume_env_vars mode api ss = if api.source_found then vars_for mode api ss else err get_error

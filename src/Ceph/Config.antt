-- ===== src/Ceph/Config.antt =====
-- The CSI configuration of internal/ceph/config/csiconfig.go. Texts are lists of bytes; the file,
-- as json.Unmarshal reads it, is an input.
pub mod Lookup
use ceph_volsync_plugin.Base.{
  ℕ, Bool, true, false, ◌&&◌, List, [], ◌∷◌, ◌++◌, Option, none, some, Result, ok, err,
  if◌then◌else◌,
}
use ceph_volsync_plugin.Base.Text.{Text, eq_text}

-- kubernetes.ClusterInfo, the fields that are read; a secret is its name and its namespace.
pub record ClusterInfo : Type 0 where
  pub cluster_id : Text
  pub monitors : List Text
  pub rbd_rados_namespace : Text
  pub rbd_secret : Text × Text
  pub cephfs_rados_namespace : Text
  pub subvolume_group : Text
  pub cephfs_secret : Text × Text

-- The content of the configuration: the file cannot be read, is not JSON of this form, or is a
-- list.
pub data ConfigFile : Type 0 where
  unread malformed : ConfigFile
  clusters : List ClusterInfo → ConfigFile

pub data ConfigError : Type 0 where
  read_error unmarshal_error config_not_found empty_monitors : ConfigError

-- The loop of ReadClusterInfoFromData.
pub find_cluster : List ClusterInfo → Text → Result ConfigError ClusterInfo
find_cluster [] id = err config_not_found
find_cluster (c ∷ cs) id =
    let rest = find_cluster cs id in if eq_text c.cluster_id id then ok c else rest

pub read_cluster_info : ConfigFile → Text → Result ConfigError ClusterInfo
unfolding find_cluster
read_cluster_info unread id = err read_error
read_cluster_info malformed id = err unmarshal_error
read_cluster_info (clusters cs) id = find_cluster cs id

abbrev pub with_cluster {ℓ} :
    {A : Type ℓ} → Result ConfigError ClusterInfo → (ConfigError → A) → (ClusterInfo → A) → A
with_cluster (err e) f g = f e
with_cluster (ok c) f g = g c

-- strings.Join with a comma.
abbrev pub join_comma : List Text → Text
join_comma [] = []
join_comma (m ∷ []) = m
join_comma (m ∷ n ∷ ms) = m ++ 44 ∷ join_comma (n ∷ ms)

abbrev pub join_monitors : List Text → Result ConfigError Text
join_monitors [] = err empty_monitors
join_monitors (m ∷ ms) = ok (join_comma (m ∷ ms))

unfoldable pub mons : ConfigFile → Text → Result ConfigError Text
unfolding read_cluster_info
mons file id = with_cluster (read_cluster_info file id) err (λ c. join_monitors c.monitors)

-- "csi", the default of the subvolume group and of the RADOS namespace.
abbrev pub default_csi : Text
default_csi = 99 ∷ 115 ∷ 105 ∷ []

abbrev pub or_default : Text → Text
or_default [] = default_csi
or_default (b ∷ bs) = b ∷ bs

unfoldable pub cephfs_subvolume_group : ConfigFile → Text → Result ConfigError Text
unfolding read_cluster_info
cephfs_subvolume_group file id =
    with_cluster (read_cluster_info file id) err (λ c. ok (or_default c.subvolume_group))

unfoldable pub get_cephfs_rados_namespace : ConfigFile → Text → Result ConfigError Text
unfolding read_cluster_info
get_cephfs_rados_namespace file id =
    with_cluster (read_cluster_info file id) err (λ c. ok (or_default c.cephfs_rados_namespace))

unfoldable pub get_rbd_rados_namespace : ConfigFile → Text → Result ConfigError Text
unfolding read_cluster_info
get_rbd_rados_namespace file id =
    with_cluster (read_cluster_info file id) err (λ c. ok c.rbd_rados_namespace)

unfoldable pub get_rbd_controller_publish_secret_ref :
    ConfigFile → Text → Result ConfigError (Text × Text)
unfolding read_cluster_info
get_rbd_controller_publish_secret_ref file id =
    with_cluster (read_cluster_info file id) err (λ c. ok c.rbd_secret)

unfoldable pub get_cephfs_controller_publish_secret_ref :
    ConfigFile → Text → Result ConfigError (Text × Text)
unfolding read_cluster_info
get_cephfs_controller_publish_secret_ref file id =
    with_cluster (read_cluster_info file id) err (λ c. ok c.cephfs_secret)

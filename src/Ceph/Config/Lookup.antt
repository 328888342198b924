-- ===== src/Ceph/Config/Lookup.antt =====
-- Which entry of the configuration is used.
use ceph_volsync_plugin.Base.{
  ◌≡◌, ◌≢◌, refl, ap, inl, inr, List, [], ◌∷◌, ◌++◌, All, Result, ok, err, Bool-cases,
}
use ceph_volsync_plugin.Base.Text.{Text, eq_text, eq_text-eq, eq_text_ne}
use ceph_volsync_plugin.Ceph.Config.{ClusterInfo, ConfigError, config_not_found, find_cluster}

-- The answer is the first entry with the identifier, or there is none.
abbrev pub IsFirst : List ClusterInfo → Text → Result ConfigError ClusterInfo → Type 0
IsFirst cs id (ok c) =
    (before : List ClusterInfo) × (after : List ClusterInfo) × (cs ≡ before ++ c ∷ after)
    × (c.cluster_id ≡ id)
    × All (λ b. b.cluster_id ≢ id) before
IsFirst cs id (err e) = (e ≡ config_not_found) × All (λ b. b.cluster_id ≢ id) cs

skip-IsFirst :
    (b : ClusterInfo) (cs : List ClusterInfo) (id : Text) (r : Result ConfigError ClusterInfo)
    → b.cluster_id ≢ id
    → IsFirst cs id r
    → IsFirst (b ∷ cs) id r
skip-IsFirst b cs id (ok c) n (before, after, e, same, others) =
    (b ∷ before, after, ap (◌∷◌ b) e, same, (n, others))
skip-IsFirst b cs id (err e) n (k, others) = (k, (n, others))

-- The look-up gives the first entry of the list whose identifier is the one asked for, whole, and
-- fails with "missing configuration" exactly if there is no such entry.
pub find_cluster-IsFirst : (cs : List ClusterInfo) (id : Text) → IsFirst cs id (find_cluster cs id)
unfolding find_cluster
find_cluster-IsFirst [] id = (refl, tt)
find_cluster-IsFirst (c ∷ cs) id = elim (Bool-cases (eq_text c.cluster_id id)) [
  | inl e ↦ simp e ([], cs, refl, eq_text-eq c.cluster_id id e, tt)
  | inr e ↦ simp e (
      skip-IsFirst c cs id (find_cluster cs id) (eq_text_ne c.cluster_id id e)
        (find_cluster-IsFirst cs id))
]

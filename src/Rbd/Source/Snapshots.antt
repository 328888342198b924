-- ===== src/Rbd/Source/Snapshots.antt =====
-- What the handles of two snapshots lead to.
use ceph_volsync_plugin.Base.{
  ℕ, ◌≡◌, ◌<◌, ◌^◌, refl, sym, ap, ◌∙◌, List, [], ◌∷◌, ◌++◌, Option, none, some, ok,
}
use ceph_volsync_plugin.Ceph.Volid.{
  CsiIdentifier, decomposed, refused, underflow, version_of, compose_csi_id, decompose_csi_id, u16,
}
use ceph_volsync_plugin.Ceph.Volid.RoundTrip.{compose-decompose}
use ceph_volsync_plugin.Cephfs.Paths.{codes}
use ceph_volsync_plugin.Rbd.Source.{
  SourceContext, ParentInfo, parent, Cluster, resolved, rbd_image_spec, snap_name, with_pool,
  with_parent, with_target, with_base, with_identifier, bad_base_handle, bad_target_handle,
  resolve_target, resolve_snapshot_diff, resolve_parent_image, target_not_opened,
  target_parent_error, target_has_no_parent, base_not_opened, base_parent_error, base_has_no_parent,
}

-- A handle that was composed from an identifier.
pub record HandleOf (ci : CsiIdentifier) (handle : List ℕ) : Type 0 where
  pub location : ci.location_id < 2 ^ 64
  pub version : ci.encoding_version < u16
  pub composed : compose_csi_id ci ≡ ok handle

-- The identifier that comes back differs at most in its version.
abbrev with_version : CsiIdentifier → CsiIdentifier
with_version ci = record ci { encoding_version = version_of ci }

HandleOf-decompose :
    (ci : CsiIdentifier) (handle : List ℕ)
    → HandleOf ci handle
    → decompose_csi_id handle ≡ decomposed (with_version ci)
HandleOf-decompose ci handle h = compose-decompose ci handle h.location h.version h.composed

empty_refused : decompose_csi_id [] ≡ refused underflow
unfolding decompose_csi_id
empty_refused = refl

-- The base: none, or a snapshot whose parent the cluster gives.
pub data Base (cl : Cluster) (p : ParentInfo) : List ℕ → ℕ → Type 0 where
  no_base : Base cl p [] 0
  base :
      {handle : List ℕ} (ci : CsiIdentifier) (q : ParentInfo)
      → HandleOf ci handle
      → cl.image_parent
          (rbd_image_spec p.pool_name p.pool_namespace (codes "csi-snap-" ++ ci.object_uuid))
        ≡ some (parent q)
      → Base cl p handle q.snap_id

abbrev expected : ParentInfo → ℕ → SourceContext → SourceContext
expected p from sc = record (with_target p sc) { from_snap_id = from }

found_base :
    (cl : Cluster) (p : ParentInfo) (sc : SourceContext) (ci : CsiIdentifier) (q : ParentInfo)
    → cl.image_parent (rbd_image_spec p.pool_name p.pool_namespace (snap_name ci)) ≡ some (parent q)
    → with_base cl (some (with_version ci)) (with_target p sc) ≡ resolved (expected p q.snap_id sc)
found_base cl p sc ci q e =
    ap
      (λ a.
        with_parent base_not_opened base_parent_error base_has_no_parent a
          (λ b. resolved (record (with_target p sc) { from_snap_id = b.snap_id })))
      e

resolve_target-found :
    (cl : Cluster) (sc : SourceContext) (t : CsiIdentifier) (b : Option CsiIdentifier)
    (pool : List ℕ) (p : ParentInfo)
    → cl.pool_name_by_id t.location_id ≡ some pool
    → cl.image_parent (rbd_image_spec pool sc.rados_ns (snap_name t)) ≡ some (parent p)
    → resolve_target cl (with_version t) b sc ≡ with_base cl b (with_target p sc)
unfolding resolve_target
resolve_target-found cl sc t b pool p e f =
    ap
      (λ a. with_pool a (λ n.
        with_parent target_not_opened target_parent_error target_has_no_parent
          (cl.image_parent (rbd_image_spec n sc.rados_ns (snap_name t)))
          (λ x. with_base cl b (with_target x sc))))
      e
    ∙ ap
        (λ a.
          with_parent target_not_opened target_parent_error target_has_no_parent a
            (λ x. with_base cl b (with_target x sc)))
        f

no_handle :
    {A : Type 0} (ci : CsiIdentifier) (handle : List ℕ) → HandleOf ci handle → handle ≡ [] → A
no_handle ci handle h e =
    absurd (cc (sym (HandleOf-decompose ci handle h) ∙ ap decompose_csi_id e ∙ empty_refused))

-- The context after the handles of a target and a base.
diff_found :
    (cl : Cluster) (sc : SourceContext) (t : CsiIdentifier)
    (target_handle base_handle pool : List ℕ) (p : ParentInfo) (from : ℕ)
    → HandleOf t target_handle
    → cl.pool_name_by_id t.location_id ≡ some pool
    → cl.image_parent (rbd_image_spec pool sc.rados_ns (snap_name t)) ≡ some (parent p)
    → sc.from_snap_id ≡ 0
    → Base cl p base_handle from
    → resolve_snapshot_diff cl base_handle target_handle sc ≡ resolved (expected p from sc)
unfolding resolve_snapshot_diff
diff_found cl sc t th bh pool p from h e f fresh no_base =
    ap (λ d. with_identifier bad_target_handle d (λ x. resolve_target cl x none sc))
      (HandleOf-decompose t th h)
    ∙ resolve_target-found cl sc t none pool p e f
    ∙ ap (λ n. resolved (expected p n sc)) fresh
diff_found cl sc t th [] pool p from h e f fresh (base ci q k g) = no_handle ci [] k refl
diff_found cl sc t th (c ∷ cs) pool p from h e f fresh (base ci q k g) =
    ap
      (λ d. with_identifier bad_target_handle d (λ x.
        with_identifier bad_base_handle (decompose_csi_id (c ∷ cs))
          (λ y. resolve_target cl x (some y) sc)))
      (HandleOf-decompose t th h)
    ∙ ap
        (λ d.
          with_identifier bad_base_handle d (λ y. resolve_target cl (with_version t) (some y) sc))
        (HandleOf-decompose ci (c ∷ cs) k)
    ∙ resolve_target-found cl sc t (some (with_version ci)) pool p e f
    ∙ found_base cl p sc ci q g

-- With the handle of a target snapshot, composed from an identifier, and a cluster in which its pool
-- is found and its image, `csi-snap-` and its UUID, has a parent, a context without a base becomes
-- one that compares snapshots of that parent, named by its pool, namespace and image, up to the
-- parent's snapshot: from snapshot 0 if no base handle is given, and from the snapshot of the base's
-- parent if the base's handle was composed from an identifier and its image, looked for in the pool
-- of the target's parent, has a parent too.
pub resolve_parent_image_snapshots :
    (cl : Cluster) (sc : SourceContext) (t : CsiIdentifier)
    (target_handle base_handle pool : List ℕ) (p : ParentInfo) (from : ℕ)
    → HandleOf t target_handle
    → cl.pool_name_by_id t.location_id ≡ some pool
    → cl.image_parent (rbd_image_spec pool sc.rados_ns (codes "csi-snap-" ++ t.object_uuid))
      ≡ some (parent p)
    → sc.from_snap_id ≡ 0
    → Base cl p base_handle from
    → resolve_parent_image cl base_handle target_handle sc
      ≡ resolved (record {
        rados_ns = sc.rados_ns;
        volume_id = sc.volume_id;
        parent_pool_id = p.pool_id;
        parent_ns = p.pool_namespace;
        parent_image_name = p.image_name;
        parent_pool_name = p.pool_name;
        from_snap_id = from;
        target_snap_id = p.snap_id;
      })
unfolding resolve_parent_image
resolve_parent_image_snapshots cl sc t [] bh pool p from h e f fresh b = no_handle t [] h refl
resolve_parent_image_snapshots cl sc t (c ∷ cs) [] pool p from h e f fresh b =
    diff_found cl sc t (c ∷ cs) [] pool p from h e f fresh b
resolve_parent_image_snapshots cl sc t (c ∷ cs) (d ∷ ds) pool p from h e f fresh b =
    diff_found cl sc t (c ∷ cs) (d ∷ ds) pool p from h e f fresh b

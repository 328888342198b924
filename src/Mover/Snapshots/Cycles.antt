-- ===== src/Mover/Snapshots/Cycles.antt =====
-- One sync after the other: the snapshots that stay, and the base of the next sync.
use mathlib.Core.Path.{fun_ext}
use ceph_volsync_plugin.Base.{
  ℕ, ◌<◌, ◌≡◌, refl, ap, ◌∙◌, Bool, true, false, not, List, [], ◌∷◌, some, ok, ◌==◌, if◌then◌else◌,
  Bool-cases, inl, inr, arith, lt→ltb,
}
use ceph_volsync_plugin.Base.Text.{Text}
use ceph_volsync_plugin.Mover.Snapshots.{
  Status, current, previous, unlabelled, Snapshot, Utils, is_previous, ensure_snapshot,
  transition_snapshot_statuses,
}
use ceph_volsync_plugin.Mover.Handles.{
  Api, with_snapshots, snapshots, csi_volume, get_volume_env_vars,
}

abbrev is_labelled : Status → Bool
is_labelled unlabelled = false
is_labelled _ = true

-- What volsync documents of its helpers: the change is made, and they answer whether it was one.
pub record IsUtils (u : Utils) : Type 0 where
  pub marks : (s : Snapshot) → u.mark_for_cleanup s ≡ (record s { marked = true }, not s.marked)
  pub removes :
      (s : Snapshot) → u.remove_label s ≡ (record s { status = unlabelled }, is_labelled s.status)
  pub adds :
      (s : Snapshot)
      → u.add_previous s ≡ (record s { status = previous }, not (is_previous s.status))

-- What volsync documents of CleanupObjects: it deletes the objects that are marked for cleanup.
pub record IsCleanup (cleanup : List Snapshot → List Snapshot) : Type 0 where
  pub nothing : cleanup [] ≡ []
  pub deletes :
      (s : Snapshot) (ss : List Snapshot) → s.marked ≡ true → cleanup (s ∷ ss) ≡ cleanup ss
  pub keeps :
      (s : Snapshot) (ss : List Snapshot) → s.marked ≡ false → cleanup (s ∷ ss) ≡ s ∷ cleanup ss

-- A cleanup as documented.
pub unmarked : List Snapshot → List Snapshot
unmarked [] = []
unmarked (s ∷ ss) = let rest = unmarked ss in if s.marked then rest else s ∷ rest

pub unmarked-IsCleanup : IsCleanup unmarked
unfolding unmarked
unmarked-IsCleanup = record {
  nothing = refl;
  deletes = λ s ss e. simp e refl;
  keeps = λ s ss e. simp e refl;
}

cleanup_only :
    (cleanup : List Snapshot → List Snapshot)
    → IsCleanup cleanup
    → (ss : List Snapshot) → cleanup ss ≡ unmarked ss
unfolding unmarked
cleanup_only cleanup laws [] = laws.nothing
cleanup_only cleanup laws (s ∷ ss) =
    let rest = cleanup_only cleanup laws ss in
    elim (Bool-cases s.marked) [
      | inl e ↦ simp e (laws.deletes s ss e ∙ rest)
      | inr e ↦ simp e (laws.keeps s ss e ∙ ap (◌∷◌ s) rest)
    ]

-- A snapshot that was taken at a time.
abbrev pub taken : Status → ℕ → Snapshot
taken st t = record {
  name = t;
  status = st;
  marked = false;
  created = t;
  ready = true;
  content = some t;
}

-- A sync of the source: a snapshot is taken, the worker runs, and Cleanup rotates the labels and
-- deletes what is marked. The snapshot is ready at once, no call of the API fails, and what `cleanup`
-- deletes is gone before the next sync.
pub cycle : Utils → (List Snapshot → List Snapshot) → ℕ → List Snapshot → List Snapshot
unfolding ensure_snapshot transition_snapshot_statuses
cycle u cleanup t ss =
    cleanup
      (transition_snapshot_statuses u (λ n. true) (ensure_snapshot (taken current t) ss).0).snaps

pub cycles : Utils → (List Snapshot → List Snapshot) → List ℕ → List Snapshot → List Snapshot
unfolding cycle unmarked
cycles u cleanup [] ss = ss
cycles u cleanup (t ∷ ts) ss = cycles u cleanup ts (cycle u cleanup t ss)

-- The helpers as documented.
abbrev pub plain : Utils
plain = record {
  mark_for_cleanup = λ s. (record s { marked = true }, not s.marked);
  remove_label = λ s. (record s { status = unlabelled }, is_labelled s.status);
  add_previous = λ s. (record s { status = previous }, not (is_previous s.status));
}

plain_only : (u : Utils) → IsUtils u → u ≡ plain
plain_only u laws = λ i. record {
  mark_for_cleanup = fun_ext laws.marks i;
  remove_label = fun_ext laws.removes i;
  add_previous = fun_ext laws.adds i;
}

cycle-none : (t : ℕ) → cycle plain unmarked t [] ≡ taken previous t ∷ []
unfolding cycle unmarked
cycle-none t = refl

cycle-one :
    (a t : ℕ)
    → cycle plain unmarked t (taken previous a ∷ []) ≡ taken previous a ∷ taken previous t ∷ []
unfolding cycle unmarked
cycle-one a t = refl

cycle-two :
    (a b t : ℕ)
    → a < b
    → cycle plain unmarked t (taken previous a ∷ taken previous b ∷ [])
      ≡ taken previous b ∷ taken previous t ∷ []
unfolding cycle unmarked
cycle-two a b t h = simp (lt→ltb a b h) refl

abbrev pub IsAscending : ℕ → List ℕ → Type 0
IsAscending a [] = Unit
IsAscending a (b ∷ bs) = (a < b) × IsAscending b bs

-- The times of the last two syncs.
abbrev pub last_two : ℕ → ℕ → List ℕ → ℕ × ℕ
last_two a b [] = (a, b)
last_two a b (t ∷ ts) = last_two b t ts

last_two-lt :
    (a b : ℕ) (ts : List ℕ) → a < b → IsAscending b ts → (last_two a b ts).0 < (last_two a b ts).1
last_two-lt a b [] h k = h
last_two-lt a b (t ∷ ts) h (k, ks) = last_two-lt b t ts k ks

abbrev pub pair_of : ℕ × ℕ → List Snapshot
pair_of (a, b) = taken previous a ∷ taken previous b ∷ []

cycles-two :
    (a b : ℕ) (ts : List ℕ)
    → a < b
    → IsAscending b ts
    → cycles plain unmarked ts (pair_of (a, b)) ≡ pair_of (last_two a b ts)
unfolding cycles
cycles-two a b [] h k = refl
cycles-two a b (t ∷ ts) h (k, ks) =
    ap (cycles plain unmarked ts) (cycle-two a b t h) ∙ cycles-two b t ts k ks

-- After two syncs or more, at strictly ascending times, there are exactly the snapshots of the last
-- two of them, both labelled as previous and neither marked for cleanup, the older one first: where
-- each snapshot is ready at once, no call of the API fails, and the objects marked for cleanup are
-- deleted before the next sync.
pub cycles_keep_two :
    (u : Utils) (cleanup : List Snapshot → List Snapshot) (a b : ℕ) (ts : List ℕ)
    → IsUtils u
    → IsCleanup cleanup
    → a < b
    → IsAscending b ts
    → cycles u cleanup (a ∷ b ∷ ts) [] ≡ pair_of (last_two a b ts)
cycles_keep_two u cleanup a b ts laws cleans h k =
    rw (plain_only u laws, fun_ext (cleanup_only cleanup cleans)) (started ∙ cycles-two a b ts h k)
  where
    started : cycles plain unmarked (a ∷ b ∷ ts) [] ≡ cycles plain unmarked ts (pair_of (a, b))
    started =
        unfold cycles in
        ap (cycles plain unmarked ts) (ap (cycle plain unmarked b) (cycle-none a) ∙ cycle-one a b)

-- The handles that a worker gets where two previous snapshots stand before the current one.
pair-env :
    (api : Api) (handle : ℕ → Text) (v : Text) (x y t : ℕ)
    → ((n : ℕ) → api.contents n ≡ some (some (handle n)))
    → api.source_found ≡ true
    → api.source_volume ≡ csi_volume v
    → x < y
    → y < t
    → get_volume_env_vars snapshots api (ensure_snapshot (taken current t) (pair_of (x, y))).0
      ≡ ok (with_snapshots v (handle x) (handle t))
unfolding get_volume_env_vars ensure_snapshot
pair-env api handle v x y t h f k xy yt =
    let same_x : x == x ≡ true = ground arith in
    let same_t : t == t ≡ true = ground arith in
    let other_x : x == t ≡ false = ground arith in
    let other_y : y == t ≡ false = ground arith in
    simp (same_x, same_t, other_x, other_y, h x, h t, f, k) refl

-- From the third sync on the worker is given, as the base, the snapshot of the sync before the last
-- one: not the one that the destination has been brought to. This is for syncs at strictly
-- ascending times, where List gives older snapshots first, each snapshot is ready at once and has its
-- content and handle, the source volume is found and is one of the driver, no call of the API
-- fails, and the objects marked for cleanup are deleted before the next sync.
pub base_before_last :
    (u : Utils) (cleanup : List Snapshot → List Snapshot) (api : Api) (handle : ℕ → Text) (v : Text)
    (a b t : ℕ) (ts : List ℕ)
    → IsUtils u
    → IsCleanup cleanup
    → ((n : ℕ) → api.contents n ≡ some (some (handle n)))
    → api.source_found ≡ true
    → api.source_volume ≡ csi_volume v
    → a < b
    → IsAscending b ts
    → (last_two a b ts).1 < t
    → get_volume_env_vars snapshots api
        (ensure_snapshot (taken current t) (cycles u cleanup (a ∷ b ∷ ts) [])).0
      ≡ ok (with_snapshots v (handle (last_two a b ts).0) (handle t))
base_before_last u cleanup api handle v a b t ts laws cleans h f k ab up last =
    rw (cycles_keep_two u cleanup a b ts laws cleans ab up) (
      pair-env api handle v (last_two a b ts).0 (last_two a b ts).1 t h f k
        (last_two-lt a b ts ab up) last)

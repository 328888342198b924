-- ===== src/Mover/Snapshots.antt =====
-- The snapshots of internal/mover/ceph/snapshot_method.go: their status labels, the rotation of
-- transitionSnapshotStatuses. The cluster
-- is the list of the owner's snapshots in the order of List; names stand for their suffix.
pub mod Latest
pub mod Cycles
mod Tests
use ceph_volsync_plugin.Base.{
  ℕ, zero, suc, ◌+◌, Bool, true, false, not, List, [], ◌∷◌, ◌++◌, Option, none, some, Result, ok,
  err, length, ltb, ◌==◌, if◌then◌else◌,
}
use ceph_volsync_plugin.Base.Text.{Text}

-- The status label.
pub data Status : Type 0 where
  current previous other unlabelled : Status

-- `marked` is the label for cleanup, `content` the bound content's name.
pub record Snapshot : Type 0 where
  pub name : ℕ
  pub status : Status
  pub marked : Bool
  pub created : ℕ
  pub ready : Bool
  pub content : Option ℕ

-- MarkForCleanup, RemoveLabel of the status label and AddLabel with the value `previous` in
-- volsync's utils: the object and whether it has changed.
pub record Utils : Type 0 where
  pub mark_for_cleanup : Snapshot → Snapshot × Bool
  pub remove_label : Snapshot → Snapshot × Bool
  pub add_previous : Snapshot → Snapshot × Bool

abbrev pub is_current : Status → Bool
is_current current = true
is_current _ = false

abbrev pub is_previous : Status → Bool
is_previous previous = true
is_previous _ = false

-- listSnapshotsWithStatus.
unfoldable pub list_snapshots_with_status : (Status → Bool) → List Snapshot → List Snapshot
list_snapshots_with_status test [] = []
list_snapshots_with_status test (s ∷ ss) =
    let rest = list_snapshots_with_status test ss in if test s.status then s ∷ rest else rest

abbrev pub first : List Snapshot → Option Snapshot
first [] = none
first (s ∷ ss) = some s

unfoldable pub find_current_snapshot : List Snapshot → Option Snapshot
unfolding list_snapshots_with_status
find_current_snapshot ss = first (list_snapshots_with_status is_current ss)

-- What ensurePVCFromSrcWithStatusLabels takes: the current snapshot if it is ready, or a new one,
-- which List gives after the others; none is to try again later.
abbrev pub if_ready : Snapshot → Option Snapshot
if_ready s = if s.ready then some s else none

abbrev pub new_or_current :
    Snapshot → Option Snapshot → List Snapshot → List Snapshot × Option Snapshot
new_or_current new none ss = (ss ++ new ∷ [], if_ready new)
new_or_current new (some s) ss = (ss, if_ready s)

unfoldable pub ensure_snapshot : Snapshot → List Snapshot → List Snapshot × Option Snapshot
unfolding find_current_snapshot
ensure_snapshot new ss = new_or_current new (find_current_snapshot ss) ss

-- The loop that looks for the most recent of the snapshots, from index `i` on.
unfoldable pub latest_loop : ℕ → ℕ → ℕ → List Snapshot → ℕ
latest_loop i index time [] = index
latest_loop i index time (s ∷ ss) =
    let later = ltb time s.created in
    latest_loop (i + 1) (if later then i else index) (if later then s.created else time) ss

unfoldable pub latest_snap_index : List Snapshot → ℕ
unfolding latest_loop
latest_snap_index [] = 0
latest_snap_index (s ∷ ss) = latest_loop 1 0 s.created ss

-- The snapshots after a call, and whether it ended without an error.
pub record Changed : Type 0 where
  pub snaps : List Snapshot
  pub ok : Bool

abbrev pub put_first : Snapshot → Changed → Changed
put_first s c = record c { snaps = s ∷ c.snaps }

-- `updated || RemoveLabel(...)`: a snapshot that has just been marked keeps its label.
abbrev pub or_remove : Utils → Snapshot × Bool → Snapshot × Bool
or_remove u (s, true) = (s, true)
or_remove u (s, false) = u.remove_label s

-- An Update of an object that has changed.
abbrev pub store : Bool → Snapshot → Snapshot × Bool → List Snapshot → Changed → Changed
store updates s (new, false) after rest = put_first s rest
store true s (new, true) after rest = put_first new rest
store false s (new, true) after rest = record { snaps = s ∷ after; ok = false }

-- The loop that marks all previous snapshots but the one with index `latest`; `updates` says for
-- which names an Update succeeds.
unfoldable pub mark_loop : Utils → (ℕ → Bool) → ℕ → ℕ → List Snapshot → Changed
mark_loop u updates latest i [] = record { snaps = []; ok = true }
mark_loop u updates latest i (s ∷ ss) =
    let next = mark_loop u updates latest (if is_previous s.status then i + 1 else i) ss in
    if is_previous s.status
    then if i == latest
      then put_first s next
      else store (updates s.name) s (or_remove u (u.mark_for_cleanup s)) ss next
    else put_first s next

-- The first current snapshot becomes the previous one.
unfoldable pub current_to_previous : Utils → (ℕ → Bool) → List Snapshot → Changed
current_to_previous u updates [] = record { snaps = []; ok = true }
current_to_previous u updates (s ∷ ss) =
    let rest = current_to_previous u updates ss in
    if is_current s.status
    then store (updates s.name) s (u.add_previous s) ss (record { snaps = ss; ok = true })
    else put_first s rest

unfoldable pub transition_snapshot_statuses : Utils → (ℕ → Bool) → List Snapshot → Changed
unfolding mark_loop current_to_previous latest_snap_index list_snapshots_with_status
transition_snapshot_statuses u updates ss =
    let olds = list_snapshots_with_status is_previous ss in
    let marked =
      if ltb 1 (length olds)
      then mark_loop u updates (latest_snap_index olds) 0 ss
      else record { snaps = ss; ok = true } in
    if marked.ok then current_to_previous u updates marked.snaps else marked

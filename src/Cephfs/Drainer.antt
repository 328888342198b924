-- ===== src/Cephfs/Drainer.antt =====
-- commitDrainer of internal/worker/cephfs/commit_drainer.go: files are committed once all their
-- blocks are acknowledged. What the environment answers to a request for a commit, to IsReleased
-- and to a wait is an input.
pub mod Commits
pub mod Loops
pub mod Run
use Prim.Native.String.{String}
use ceph_volsync_plugin.Base.{
  ℕ, ◌+◌, ◌%◌, Bool, true, false, ◌&&◌, List, [], ◌∷◌, ◌++◌, length, leb, if◌then◌else◌,
}
use ceph_volsync_plugin.Base.Int.{ℤ}
use ceph_volsync_plugin.Pipeline.Window.{u64}

-- fileBoundary of block_iterator.go.
pub record FileBoundary : Type 0 where
  pub path : String
  pub last_req_id : ℕ
  pub total_size : ℤ

abbrev pub commit_batch_size : ℕ
commit_batch_size = 1000

-- What becomes of a batch: it is committed and its paths are handed on, the stream fails, or the
-- context ends while the paths are handed on.
pub data Commit : Type 0 where
  committed refused unnotified : Commit

pub data DrainEnd : Type 0 where
  drained commit_error notify_error cancelled : DrainEnd

-- The batches that were committed so far, the files taken into a batch that was not, and the files
-- still pending.
pub record Drained : Type 0 where
  pub sent : List (List FileBoundary)
  pub unsent : List FileBoundary
  pub pending : List FileBoundary
  pub end : DrainEnd

-- sendCommitBatch and notifyCommitted; the answers are numbered by the batches sent before.
unfoldable pub send_batch :
    (ℕ → Commit) → List (List FileBoundary) → List FileBoundary → List FileBoundary → Drained
send_batch commits sent batch pending = elim (commits (length sent)) [
  | committed ↦ record { sent = sent ++ batch ∷ []; unsent = []; pending = pending; end = drained }
  | refused ↦ record { sent = sent; unsent = batch; pending = pending; end = commit_error }
  | unnotified ↦ record {
    sent = sent ++ batch ∷ [];
    unsent = [];
    pending = pending;
    end = notify_error;
  }
]

-- What follows the loops: a batch that is not empty is sent.
unfoldable pub send_rest :
    (ℕ → Commit) → List (List FileBoundary) → List FileBoundary → List FileBoundary → Drained
unfolding send_batch
send_rest commits sent [] pending = record {
  sent = sent;
  unsent = [];
  pending = pending;
  end = drained;
}
send_rest commits sent (b ∷ bs) pending = send_batch commits sent (b ∷ bs) pending

-- The distance check, in uint64.
abbrev pub far_enough : ℕ → ℕ → FileBoundary → Bool
far_enough max_window current head = leb ((head.last_req_id + max_window + 2) % u64) current

-- The loop of drainQualified; `ready` says that a file passes the distance check and the ack check.
unfoldable pub drain_qualified :
    (ℕ → Commit)
    → (FileBoundary → Bool)
    → List (List FileBoundary)
    → List FileBoundary
    → List FileBoundary
    → Drained
unfolding send_rest
drain_qualified commits ready sent batch [] = send_rest commits sent batch []
drain_qualified commits ready sent batch (head ∷ rest) =
    let next = batch ++ head ∷ [] in
    let full = send_batch commits sent next rest in
    let after_full = drain_qualified commits ready full.sent [] rest in
    let more = drain_qualified commits ready sent next rest in
    if ready head
    then if leb commit_batch_size (length next)
      then elim full.end [ drained ↦ after_full | _ ↦ full ]
      else more
    else send_rest commits sent batch (head ∷ rest)

-- The loop of flushAll; `waits` says that a file is acknowledged before the context ends.
unfoldable pub flush_all :
    (ℕ → Commit)
    → (FileBoundary → Bool)
    → List (List FileBoundary)
    → List FileBoundary
    → List FileBoundary
    → Drained
unfolding send_rest
flush_all commits waits sent batch [] = send_rest commits sent batch []
flush_all commits waits sent batch (head ∷ rest) =
    let next = batch ++ head ∷ [] in
    let full = send_batch commits sent next rest in
    let after_full = flush_all commits waits full.sent [] rest in
    let more = flush_all commits waits sent next rest in
    if waits head
    then if leb commit_batch_size (length next)
      then elim full.end [ drained ↦ after_full | _ ↦ full ]
      else more
    else record { sent = sent; unsent = batch; pending = head ∷ rest; end = cancelled }

-- A file boundary that Run receives, with what IsReleased answers then.
pub record Event : Type 0 where
  pub boundary : FileBoundary
  pub is_released : ℕ → Bool

-- How the boundaries end: the channel is closed, or the context is done.
pub data Input : Type 0 where
  closed done : Input

abbrev pub ready_at : ℕ → Event → FileBoundary → Bool
ready_at max_window e head =
    far_enough max_window e.boundary.last_req_id head && e.is_released head.last_req_id

-- Run over the boundaries that it receives.
unfoldable pub run :
    ℕ
    → (ℕ → Commit)
    → (FileBoundary → Bool)
    → Input
    → List (List FileBoundary)
    → List FileBoundary
    → List Event
    → Drained
unfolding drain_qualified flush_all
run max_window commits waits closed sent pending [] = flush_all commits waits sent [] pending
run max_window commits waits done sent pending [] = record {
  sent = sent;
  unsent = [];
  pending = pending;
  end = cancelled;
}
run max_window commits waits input sent pending (e ∷ es) =
    let r = drain_qualified commits (ready_at max_window e) sent [] (pending ++ e.boundary ∷ []) in
    let more = run max_window commits waits input r.sent r.pending es in
    elim r.end [ drained ↦ more | _ ↦ r ]

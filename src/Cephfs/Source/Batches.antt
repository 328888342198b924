-- ===== src/Cephfs/Source/Batches.antt =====
-- The batches of paths of internal/worker/cephfs/source.go: rsyncWorkerLoop with rsyncBatch,
-- consumeDeletes with sendDeleteBatch. Paths are lists of bytes; what the system and the streams
-- answer is an input.
pub mod Delivery
pub mod Workers
use Prim.Native.String.{String}
use ceph_volsync_plugin.Base.{
  ℕ, zero, suc, Bool, true, false, List, [], ◌∷◌, ◌++◌, Option, none, some, length, leb, ◌==◌,
  if◌then◌else◌,
}
use ceph_volsync_plugin.Cephfs.Paths.{Text}

abbrev pub small_batch_size : ℕ
small_batch_size = 500

abbrev pub delete_batch_size : ℕ
delete_batch_size = 10_000

-- What a round of the select gives: a path, the closed channel, or the done context.
pub data Received : Type 0 where
  path : Text → Received
  closed done : Received

pub data BatchEnd : Type 0 where
  flushed refused cancelled waiting unopened : BatchEnd

-- The batches that were taken, and the paths received that were not.
pub record Batched : Type 0 where
  pub sent : List (List Text)
  pub unsent : List Text
  pub end : BatchEnd

abbrev pub ended : List (List Text) → List Text → BatchEnd → Batched
ended sent unsent e = record { sent = sent; unsent = unsent; end = e }

-- flushBatch and flushDeletes. `calls` says whether a call succeeds, by the number of those before.
pub flush_batch : (ℕ → Bool) → List (List Text) → List Text → Batched
flush_batch calls sent [] = ended sent [] flushed
flush_batch calls sent (p ∷ ps) =
    if calls (length sent)
    then ended (sent ++ (p ∷ ps) ∷ []) [] flushed
    else ended sent (p ∷ ps) refused

-- The loop over a channel that both consumers have.
pub batch_loop : ℕ → (ℕ → Bool) → List (List Text) → List Text → List Received → Batched
unfolding flush_batch
batch_loop limit calls sent batch [] = ended sent batch waiting
batch_loop limit calls sent batch (closed ∷ rs) = flush_batch calls sent batch
batch_loop limit calls sent batch (done ∷ rs) = ended sent batch cancelled
batch_loop limit calls sent batch (path p ∷ rs) =
    let next = batch ++ p ∷ [] in
    let fresh = batch_loop limit calls (sent ++ next ∷ []) [] rs in
    let more = batch_loop limit calls sent next rs in
    if leb limit (length next)
    then if calls (length sent) then fresh else ended sent next refused
    else more

-- What a call of rsyncBatch meets: whether the list can be made and closed, the size that Stat
-- gives, and whether rsync ends well.
pub record ListAnswers : Type 0 where
  pub created : Bool
  pub closes : Bool
  pub size : Option ℕ
  pub rsync_ok : Bool

-- `skipped` is a return without an error and without a run of rsync.
pub data RsyncEnd : Type 0 where
  synced skipped rsync_failed no_list : RsyncEnd

pub rsync_from_list : Option ℕ → Bool → RsyncEnd
rsync_from_list none ok = skipped
rsync_from_list (some n) ok = if n == 0 then skipped else (if ok then synced else rsync_failed)

pub rsync_batch : ListAnswers → RsyncEnd
unfolding rsync_from_list
rsync_batch a =
    if a.created then if a.closes then rsync_from_list a.size a.rsync_ok else no_list else no_list

-- The arguments of rsync, with or without the content of the files.
abbrev pub rsync_args : Bool → String → String → List String
rsync_args true files_from target =
    "-aAXhHSxz" ∷ "-r" ∷ "--numeric-ids" ∷ files_from ∷ "/data/" ∷ target ∷ []
rsync_args false files_from target =
    "-aAXhHSxz" ∷ "--inplace" ∷ "--numeric-ids" ∷ files_from ∷ "/data/" ∷ target ∷ []

-- The error of rsyncBatch is nil.
abbrev pub is_nil : RsyncEnd → Bool
is_nil synced = true
is_nil skipped = true
is_nil rsync_failed = false
is_nil no_list = false

unfoldable pub rsync_worker_loop : (ℕ → ListAnswers) → List Received → Batched
unfolding batch_loop rsync_batch
rsync_worker_loop answers rs =
    batch_loop small_batch_size (λ i. is_nil (rsync_batch (answers i))) [] [] rs

-- What a call of sendDeleteBatch meets: Send and Recv.
pub record DeleteAnswers : Type 0 where
  pub sends : Bool
  pub acked : Bool

abbrev pub send_delete_batch : DeleteAnswers → Bool
send_delete_batch a = if a.sends then a.acked else false

unfoldable pub consume_deletes : Bool → (ℕ → DeleteAnswers) → List Received → Batched
unfolding batch_loop
consume_deletes false answers rs = ended [] [] unopened
consume_deletes true answers rs =
    batch_loop delete_batch_size (λ i. send_delete_batch (answers i)) [] [] rs

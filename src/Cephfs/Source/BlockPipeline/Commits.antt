-- ===== src/Cephfs/Source/BlockPipeline/Commits.antt =====
-- What runSnapdiffBlockPipeline has committed when it ends.
use ceph_volsync_plugin.Base.{
  ℕ, ◌+◌, ◌≤◌, ◌≡◌, refl, inl, inr, Bool, true, false, ◌&&◌, List, [], ◌∷◌, concat, All, All-map,
  All-and, Any, length, arith,
}
use ceph_volsync_plugin.Pipeline.Window.{WindowSemaphore}
use ceph_volsync_plugin.Pipeline.Window.Tracking.{Tracks, is_released_iff}
use ceph_volsync_plugin.Cephfs.Drainer.{
  FileBoundary, DrainEnd, drained, commit_error, notify_error, cancelled,
}
use ceph_volsync_plugin.Cephfs.Iterator.{FileBlock, BlockIterator, close}
use ceph_volsync_plugin.Cephfs.Iterator.Marks.{Marks, IsSound}
use ceph_volsync_plugin.Cephfs.Iterator.Closing.{close_flushes}
use ceph_volsync_plugin.Cephfs.Iterator.Covered.{Ends, IsCovered}
use ceph_volsync_plugin.Cephfs.Iterator.Settled.{close-settles}
use ceph_volsync_plugin.Cephfs.Source.BlockPipeline.{
  Answers, options, Fed, ended_pipeline, drain_sent, is_drained, pipeline_ok,
}
use ceph_volsync_plugin.Cephfs.Source.BlockPipeline.Received.{
  Affirms, IsPassed, drain_sent-Committed, drain_sent-whole, received-All, committed-All,
}

-- The iterator as Close leaves it.
abbrev closed_iterator : Answers → Fed → BlockIterator
closed_iterator a f = close a.sends (options a) (ended_pipeline (pipeline_ok a f) f.iterator)

ended_pipeline-IsSound :
    (ok : Bool) (h : List FileBlock) (it : BlockIterator)
    → IsSound h it
    → IsSound h (ended_pipeline ok it)
ended_pipeline-IsSound true h it s = s
ended_pipeline-IsSound false h it s = record {
  counted = s.counted;
  start = s.start;
  current = s.current;
  idle = s.idle;
  numbered = s.numbered;
  sent_marks = s.sent_marks;
  pending_marks = s.pending_marks;
}

closed-Marks :
    (a : Answers) (f : Fed)
    → IsSound f.given f.iterator
    → All (Marks f.given) (closed_iterator a f).sent
closed-Marks a f s =
    (close_flushes f.given (options a) a.sends (ended_pipeline (pipeline_ok a f) f.iterator) refl
      (ended_pipeline-IsSound (pipeline_ok a f) f.given f.iterator s)).0

-- A boundary that may be committed: it marks a block that was given, and this request and all
-- before it are done.
abbrev pub IsSafe : (ℕ → Bool) → List FileBlock → FileBoundary → Type 0
IsSafe finished given fb = Marks given fb × ((j : ℕ) → j ≤ fb.last_req_id → finished j ≡ true)

pub run_both-IsSafe :
    (finished : ℕ → Bool) (w : WindowSemaphore) (a : Answers) (f : Fed)
    → Tracks finished w
    → Affirms w a
    → IsSound f.given f.iterator
    → All (IsSafe finished f.given) (concat (drain_sent a (closed_iterator a f).sent a.cut).sent)
run_both-IsSafe finished w a f t h s =
    let sent = (closed_iterator a f).sent in
    let c = drain_sent-Committed w a sent a.cut h in
    let fbs = concat (drain_sent a sent a.cut).sent in
    All-and (Marks f.given) (λ fb. (j : ℕ) → j ≤ fb.last_req_id → finished j ≡ true) fbs
      (committed-All (Marks f.given) c
        (received-All (Marks f.given) a.cut sent (closed-Marks a f s)))
      (All-map {P = IsPassed w} fbs (λ fb p. (is_released_iff fb.last_req_id t).0 p) c.safe)

safe_block :
    (finished : ℕ → Bool) (given : List FileBlock) (b : FileBlock) (fbs : List FileBoundary)
    → All (IsSafe finished given) fbs
    → Any (Ends b) fbs
    → finished b.req_id ≡ true
safe_block finished given b (fb ∷ fbs) a (inl e) = a.0.1 b.req_id e.1
safe_block finished given b (fb ∷ fbs) a (inr e) = safe_block finished given b fbs a.1 e
safe_block finished given b [] a e = absurd e

and_left : (x y : Bool) → (x && y) ≡ true → x ≡ true
and_left x y h = ground arith

is_drained_lem : (x : DrainEnd) → is_drained x ≡ true → x ≡ drained
is_drained_lem drained h = refl
is_drained_lem commit_error h = absurd (cc h)
is_drained_lem notify_error h = absurd (cc h)
is_drained_lem cancelled h = absurd (cc h)

succeeded-close :
    (ok : Bool) (a : Answers) (f : Fed) (b : FileBlock)
    → ok ≡ true
    → f.iterator.failed ≡ false
    → length f.iterator.pending_boundaries + 1 ≤ a.sends
    → IsCovered f.iterator b
    → Any (Ends b) (close a.sends (options a) (ended_pipeline ok f.iterator)).sent
succeeded-close true a f b e n le k = close-settles a.sends (options a) f.iterator b n refl le k
succeeded-close false a f b e n le k = absurd (cc e)

boundary_along :
    (b : FileBlock) {xs ys : List FileBoundary} → xs ≡ ys → Any (Ends b) ys → Any (Ends b) xs
boundary_along b e h = rw e h

-- A block whose file is committed with a boundary that is not before it, and whose request is done.
abbrev pub IsCommitted : (ℕ → Bool) → List FileBoundary → FileBlock → Type 0
IsCommitted finished fbs b = Any (Ends b) fbs × (finished b.req_id ≡ true)

pub run_both-IsCommitted :
    (finished : ℕ → Bool) (w : WindowSemaphore) (a : Answers) (f : Fed)
    → Tracks finished w
    → Affirms w a
    → (pipeline_ok a f && is_drained (drain_sent a (closed_iterator a f).sent a.cut).end) ≡ true
    → f.iterator.failed ≡ false
    → length f.iterator.pending_boundaries + 1 ≤ a.sends
    → IsSound f.given f.iterator
    → All (IsCovered f.iterator) f.given
    → All
        (IsCommitted finished (concat (drain_sent a (closed_iterator a f).sent a.cut).sent))
        f.given
run_both-IsCommitted finished w a f t h ok n le s k =
    let sent = (closed_iterator a f).sent in
    let d = drain_sent a sent a.cut in
    let safe = run_both-IsSafe finished w a f t h s in
    let whole = drain_sent-whole w a sent a.cut h (is_drained_lem d.end (ground (arith, ok))) in
    All-map f.given
      (λ b covered.
        let e = boundary_along b whole (
          succeeded-close (pipeline_ok a f) a f b (and_left (pipeline_ok a f) (is_drained d.end) ok)
            n le covered) in
        (e, safe_block finished f.given b (concat d.sent) safe e))
      k

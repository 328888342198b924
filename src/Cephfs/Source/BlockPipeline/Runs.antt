-- ===== src/Cephfs/Source/BlockPipeline/Runs.antt =====
-- Any run of runSnapdiffBlockPipeline.
use ceph_volsync_plugin.Base.{
  ℕ, ◌+◌, ◌≤◌, ◌<◌, ◌≡◌, refl, Bool, true, false, List, [], ◌∷◌, All, length, concat, if◌then◌else◌,
}
use ceph_volsync_plugin.Pipeline.Window.{WindowSemaphore, u64}
use ceph_volsync_plugin.Pipeline.Window.Tracking.{Tracks}
use ceph_volsync_plugin.Cephfs.Iterator.{FileEntry, new_block_iterator}
use ceph_volsync_plugin.Cephfs.Iterator.Run.{new-IsSound}
use ceph_volsync_plugin.Cephfs.Iterator.Complete.{Keeps}
use ceph_volsync_plugin.Cephfs.Source.BlockPipeline.{
  Answers, options, Fed, feed, PipelineRun, no_files, open_error, ran, run_both,
  run_snapdiff_block_pipeline, succeeds,
}
use ceph_volsync_plugin.Cephfs.Source.BlockPipeline.Feeding.{feed-Keeps, feed-failed}
use ceph_volsync_plugin.Cephfs.Source.BlockPipeline.Received.{Affirms}
use ceph_volsync_plugin.Cephfs.Source.BlockPipeline.Commits.{
  IsSafe, IsCommitted, run_both-IsSafe, run_both-IsCommitted,
}

-- The requests are not numbered round.
abbrev pub FewBlocks : PipelineRun → Type 0
FewBlocks no_files = Unit
FewBlocks open_error = Unit
FewBlocks (ran f it d) = length f.given + 1 < u64

-- The context lasts for the boundaries that were kept back and one more.
abbrev pub ContextLasts : Answers → PipelineRun → Type 0
ContextLasts a no_files = Unit
ContextLasts a open_error = Unit
ContextLasts a (ran f it d) = length f.iterator.pending_boundaries + 1 ≤ a.sends

-- Every boundary committed is safe.
abbrev pub CommitsSafely : (ℕ → Bool) → PipelineRun → Type 0
CommitsSafely finished no_files = Unit
CommitsSafely finished open_error = Unit
CommitsSafely finished (ran f it d) = All (IsSafe finished f.given) (concat d.sent)

-- Every block given is committed.
abbrev pub CommitsAll : (ℕ → Bool) → PipelineRun → Type 0
CommitsAll finished no_files = Unit
CommitsAll finished open_error = Unit
CommitsAll finished (ran f it d) = All (IsCommitted finished (concat d.sent)) f.given

abbrev pub fed : Answers → List FileEntry → Fed
fed a entries = feed a.calls (options a) (new_block_iterator entries)

fed-Keeps :
    (a : Answers) (entries : List FileEntry)
    → length (fed a entries).given + 1 < u64
    → Keeps (fed a entries).given (fed a entries).iterator
fed-Keeps a entries small =
    feed-Keeps a.calls (options a) (new_block_iterator entries) [] refl small
      (new-IsSound entries, tt)

fed-failed : (a : Answers) (entries : List FileEntry) → (fed a entries).iterator.failed ≡ false
unfolding new_block_iterator
fed-failed a entries = feed-failed a.calls (options a) (new_block_iterator entries) false refl

-- Over any run, whatever fails, with fewer than 2^64 - 1 blocks, where the window at the end
-- tracks the requests that are done and still affirms what IsReleased affirmed before: every file
-- boundary that has been committed names the path and the number of a block that was given, and
-- this request and every earlier one are done.
pub run_snapdiff_block_pipeline-IsSafe :
    (finished : ℕ → Bool) (w : WindowSemaphore) (a : Answers) (entries : List FileEntry)
    → Tracks finished w
    → Affirms w a
    → FewBlocks (run_snapdiff_block_pipeline a entries)
    → CommitsSafely finished (run_snapdiff_block_pipeline a entries)
unfolding run_snapdiff_block_pipeline
run_snapdiff_block_pipeline-IsSafe finished w a [] t h small = tt
run_snapdiff_block_pipeline-IsSafe finished w a (first ∷ rest) t h small =
    opened a.opens_commit small
  where
    opened :
        (x : Bool)
        → FewBlocks (if x then run_both a (fed a (first ∷ rest)) else open_error)
        → CommitsSafely finished (if x then run_both a (fed a (first ∷ rest)) else open_error)
    opened false s = tt
    opened true s =
        run_both-IsSafe finished w a (fed a (first ∷ rest)) t h (fed-Keeps a (first ∷ rest) s).0

-- If the run returns nil, with fewer than 2^64 - 1 blocks, where the context lasts for the sends
-- of Close, the window at the end tracks the requests that are done and still affirms what
-- IsReleased affirmed before: for every block that was given, a boundary of its file that is not
-- before it has been committed, and its request is done.
pub run_snapdiff_block_pipeline-CommitsAll :
    (finished : ℕ → Bool) (w : WindowSemaphore) (a : Answers) (entries : List FileEntry)
    → Tracks finished w
    → Affirms w a
    → FewBlocks (run_snapdiff_block_pipeline a entries)
    → ContextLasts a (run_snapdiff_block_pipeline a entries)
    → succeeds a (run_snapdiff_block_pipeline a entries) ≡ true
    → CommitsAll finished (run_snapdiff_block_pipeline a entries)
unfolding run_snapdiff_block_pipeline
run_snapdiff_block_pipeline-CommitsAll finished w a [] t h small lasts ok = tt
run_snapdiff_block_pipeline-CommitsAll finished w a (first ∷ rest) t h small lasts ok =
    opened a.opens_commit small lasts ok
  where
    opened :
        (x : Bool)
        → FewBlocks (if x then run_both a (fed a (first ∷ rest)) else open_error)
        → ContextLasts a (if x then run_both a (fed a (first ∷ rest)) else open_error)
        → succeeds a (if x then run_both a (fed a (first ∷ rest)) else open_error) ≡ true
        → CommitsAll finished (if x then run_both a (fed a (first ∷ rest)) else open_error)
    opened false s l k = tt
    opened true s l k =
        let keeps = fed-Keeps a (first ∷ rest) s in
        run_both-IsCommitted finished w a (fed a (first ∷ rest)) t h k (fed-failed a (first ∷ rest))
          l keeps.0 keeps.1

-- ===== src/Cephfs/Source/BlockPipeline/Files.antt =====
-- The changed files that a run of runSnapdiffBlockPipeline commits.
use Prim.Native.String.{String}
use ceph_volsync_plugin.Base.{
  ℕ, zero, suc, ◌≡◌, refl, ◌∙◌, sym, inl, inr, Bool, true, false, List, [], ◌∷◌, ◌++◌, append_assoc,
  append-nil, All, Any, Option, none, some, concat, arith, if◌then◌else◌,
}
use ceph_volsync_plugin.Pipeline.Window.{WindowSemaphore}
use ceph_volsync_plugin.Pipeline.Window.Tracking.{Tracks}
use ceph_volsync_plugin.Cephfs.Drainer.{FileBoundary}
use ceph_volsync_plugin.Cephfs.Iterator.{
  FileEntry, FileBlock, Options, BlockIterator, new_block_iterator, next, is_small,
}
use ceph_volsync_plugin.Cephfs.Iterator.Rounds.{rounds_left}
use ceph_volsync_plugin.Cephfs.Iterator.Covered.{Ends}
use ceph_volsync_plugin.Cephfs.Iterator.Served.{HasBlock, Awaits, IsServed, ServedNext, next-Served}
use ceph_volsync_plugin.Cephfs.Source.BlockPipeline.{
  Answers, options, default_config, Fed, fed_by, feed, PipelineRun, no_files, open_error, ran,
  run_both, run_snapdiff_block_pipeline, succeeds,
}
use ceph_volsync_plugin.Cephfs.Source.BlockPipeline.Received.{Affirms}
use ceph_volsync_plugin.Cephfs.Source.BlockPipeline.Commits.{IsCommitted}
use ceph_volsync_plugin.Cephfs.Source.BlockPipeline.Runs.{
  FewBlocks, ContextLasts, CommitsAll, fed, run_snapdiff_block_pipeline-CommitsAll,
}

-- A feeder that has come to the end has had a block of the file.
abbrev ServedFed : FileEntry → List FileBlock → Fed → Type 0
ServedFed e h f = f.ended ≡ true → HasBlock e.path (h ++ f.given)

has_along : (path : String) {h h' : List FileBlock} → h ≡ h' → HasBlock path h → HasBlock path h'
has_along path {h} {h'} q k = rw q at k

fed_by-Served :
    (e : FileEntry) (h : List FileBlock) (it : BlockIterator)
    (r : Option (BlockIterator × Option FileBlock)) (more : BlockIterator → Fed)
    → ServedNext e h r
    → ((b : FileBlock) (it' : BlockIterator)
        → IsServed e (h ++ b ∷ []) it'
        → ServedFed e (h ++ b ∷ []) (more it'))
    → ServedFed e h (fed_by it r more)
fed_by-Served e h it none more k later = λ q. absurd (cc q)
fed_by-Served e h it (some (it', none)) more k later = λ q. has_along e.path (sym (append-nil h)) k
fed_by-Served e h it (some (it', some b)) more k later =
    λ q. has_along e.path (append_assoc h (b ∷ []) (more it').given) (later b it' k q)

feed-Served :
    (calls : ℕ) (e : FileEntry) (o : Options) (it : BlockIterator) (h : List FileBlock)
    → o.has_file_ch ≡ true
    → is_small o.small_file_threshold e.size ≡ true
    → IsServed e h it
    → ServedFed e h (feed calls o it)
unfolding feed
feed-Served zero e o it h c s k = λ q. absurd (cc q)
feed-Served (suc calls) e o it h c s k =
    fed_by-Served e h it (next (suc (rounds_left it)) o it) (feed calls o)
      (next-Served (suc (rounds_left it)) e h o it c s k)
      (λ b it'. feed-Served calls e o it' (h ++ b ∷ []) c s)

-- A committed boundary names the file.
abbrev pub CommitsFile : String → PipelineRun → Type 0
CommitsFile path no_files = ⊥
CommitsFile path open_error = ⊥
CommitsFile path (ran f it d) = Any (λ fb. fb.path ≡ path) (concat d.sent)

boundary_path :
    (b : FileBlock) (path : String) (fbs : List FileBoundary)
    → b.file_path ≡ path
    → Any (Ends b) fbs
    → Any (λ fb. fb.path ≡ path) fbs
boundary_path b path [] q a = a
boundary_path b path (fb ∷ fbs) q (inl e) = inl (e.0 ∙ q)
boundary_path b path (fb ∷ fbs) q (inr a) = inr (boundary_path b path fbs q a)

block_committed :
    (finished : ℕ → Bool) (path : String) (fbs : List FileBoundary) (bs : List FileBlock)
    → HasBlock path bs
    → All (IsCommitted finished fbs) bs
    → Any (λ fb. fb.path ≡ path) fbs
block_committed finished path fbs [] k a = absurd k
block_committed finished path fbs (b ∷ bs) (inl q) a = boundary_path b path fbs q a.0.0
block_committed finished path fbs (b ∷ bs) (inr k) a = block_committed finished path fbs bs k a.1

new-Served :
    (e : FileEntry) (entries : List FileEntry)
    → Awaits e entries
    → IsServed e [] (new_block_iterator entries)
unfolding new_block_iterator
new-Served e entries w = inr (inr w)

-- If the run returns nil, with fewer than 2^64 - 1 blocks, where the context lasts for the sends of
-- Close, the window at the end tracks the requests that are done and still affirms what IsReleased
-- affirmed before: every changed file that came with a size from 1 to the threshold for small files
-- has been committed.
pub run_snapdiff_block_pipeline-CommitsFile :
    (finished : ℕ → Bool) (w : WindowSemaphore) (a : Answers) (entries : List FileEntry)
    (e : FileEntry)
    → Tracks finished w
    → Affirms w a
    → FewBlocks (run_snapdiff_block_pipeline a entries)
    → ContextLasts a (run_snapdiff_block_pipeline a entries)
    → succeeds a (run_snapdiff_block_pipeline a entries) ≡ true
    → Awaits e entries
    → is_small default_config.data_batch_max_bytes e.size ≡ true
    → CommitsFile e.path (run_snapdiff_block_pipeline a entries)
unfolding run_snapdiff_block_pipeline
run_snapdiff_block_pipeline-CommitsFile finished w a [] e t h small lasts ok k s = k
run_snapdiff_block_pipeline-CommitsFile finished w a (first ∷ rest) e t h small lasts ok k s =
    opened a.opens_commit ok
      (run_snapdiff_block_pipeline-CommitsAll finished w a (first ∷ rest) t h small lasts ok)
  where
    f : Fed
    f = fed a (first ∷ rest)

    opened :
        (x : Bool)
        → succeeds a (if x then run_both a f else open_error) ≡ true
        → CommitsAll finished (if x then run_both a f else open_error)
        → CommitsFile e.path (if x then run_both a f else open_error)
    opened false q c = absurd (cc q)
    opened true q c =
        let has =
          feed-Served a.calls e (options a) (new_block_iterator (first ∷ rest)) [] refl s
            (new-Served e (first ∷ rest) k) (ground (arith, q)) in
        block_committed finished e.path _ f.given has c

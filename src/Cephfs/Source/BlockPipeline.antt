-- ===== src/Cephfs/Source/BlockPipeline.antt =====
-- runSnapdiffBlockPipeline of internal/worker/cephfs/source.go: the iterator over the changed
-- files, the feeder of the pipeline that calls it, and the drainer that commits the files. How the
-- stages of the pipeline after the feeder end is an input.
pub mod Feeding
pub mod Received
pub mod Commits
pub mod Runs
pub mod Files
mod Tests
use Prim.Native.String.{String}
use ceph_volsync_plugin.Base.{
  ℕ, zero, suc, ◌+◌, Bool, true, false, ◌&&◌, List, [], ◌∷◌, Option, none, some, take,
  if◌then◌else◌,
}
use ceph_volsync_plugin.Pipeline.Config.{Config, set_defaults}
use ceph_volsync_plugin.Cephfs.Drainer.{
  FileBoundary, Commit, DrainEnd, drained, Drained, Event, Input, closed, done, run,
}
use ceph_volsync_plugin.Cephfs.Iterator.{
  FileEntry, FileBlock, DiffRead, Options, BlockIterator, new_block_iterator, next, set_failed,
  close,
}
use ceph_volsync_plugin.Cephfs.Iterator.Rounds.{rounds_left}

-- What the environment answers. The feeder gets through `calls` calls of Next before its context
-- ends; `stages_ok` says that the other stages end without an error. Close gets `sends` boundaries
-- into the channel before the context ends. `released` is IsReleased, by how many boundaries the
-- drainer has received before, and `cut` says after how many of them its context ends, if it does.
pub record Answers : Type 0 where
  pub opens_commit : Bool
  pub new_iter : String → Option (List DiffRead)
  pub accepts : ℕ → Bool
  pub calls : ℕ
  pub stages_ok : Bool
  pub sends : ℕ
  pub commits : ℕ → Commit
  pub waits : FileBoundary → Bool
  pub released : ℕ → ℕ → Bool
  pub cut : Option ℕ

unfoldable pub default_config : Config
unfolding set_defaults
default_config = set_defaults (record {
  max_raw_memory_bytes = 0;
  max_window = 0;
  read_workers = 0;
  data_send_workers = 0;
  data_batch_max_count = 0;
  data_batch_max_bytes = 0;
  chunk_size = 0;
  read_chan_buf = 0;
})

abbrev pub options : Answers → Options
options a = record {
  new_iter = a.new_iter;
  accepts = a.accepts;
  has_file_ch = true;
  has_boundary_ch = true;
  small_file_threshold = default_config.data_batch_max_bytes;
}

-- The blocks that the feeder has had, and whether Next has said that there are no more.
pub record Fed : Type 0 where
  pub iterator : BlockIterator
  pub given : List FileBlock
  pub ended : Bool

abbrev pub stopped : BlockIterator → Fed
stopped it = record { iterator = it; given = []; ended = false }

-- What follows a call of Next; `more` goes on with the iterator that it leaves.
abbrev pub fed_by :
    BlockIterator → Option (BlockIterator × Option FileBlock) → (BlockIterator → Fed) → Fed
fed_by it none more = stopped it
fed_by it (some (it', none)) more = record { iterator = it'; given = []; ended = true }
fed_by it (some (it', some b)) more = let rest = more it' in record rest { given = b ∷ rest.given }

-- The loop of feeder over `calls` calls of Next.
unfoldable pub feed : ℕ → Options → BlockIterator → Fed
feed zero o it = stopped it
feed (suc calls) o it = fed_by it (next (suc (rounds_left it)) o it) (feed calls o)

-- What the iterator is when the pipeline has ended: a failed one gets SetFailed.
abbrev pub ended_pipeline : Bool → BlockIterator → BlockIterator
ended_pipeline true it = it
ended_pipeline false it = set_failed it

unfoldable pub events : (ℕ → ℕ → Bool) → ℕ → List FileBoundary → List Event
events released n [] = []
events released n (fb ∷ fbs) =
    record { boundary = fb; is_released = released n } ∷ events released (n + 1) fbs

-- The drainer over what was sent.
unfoldable pub drain_sent : Answers → List FileBoundary → Option ℕ → Drained
unfolding events
drain_sent a sent none =
    run default_config.max_window a.commits a.waits closed [] [] (events a.released 0 sent)
drain_sent a sent (some k) =
    run default_config.max_window a.commits a.waits done [] [] (events a.released 0 (take k sent))

abbrev pub is_drained : DrainEnd → Bool
is_drained drained = true
is_drained _ = false

-- How it ends: without a file, without a commit stream, or after both goroutines.
pub data PipelineRun : Type 0 where
  no_files open_error : PipelineRun
  ran : Fed → BlockIterator → Drained → PipelineRun

abbrev pub pipeline_ok : Answers → Fed → Bool
pipeline_ok a f = a.stages_ok && f.ended

abbrev pub run_both : Answers → Fed → PipelineRun
run_both a f =
    let it = close a.sends (options a) (ended_pipeline (pipeline_ok a f) f.iterator) in
    ran f it (drain_sent a it.sent a.cut)

unfoldable pub run_snapdiff_block_pipeline : Answers → List FileEntry → PipelineRun
unfolding feed drain_sent
run_snapdiff_block_pipeline a [] = no_files
run_snapdiff_block_pipeline a (first ∷ rest) =
    if a.opens_commit
    then run_both a (feed a.calls (options a) (new_block_iterator (first ∷ rest)))
    else open_error

-- Whether it returns nil.
abbrev pub succeeds : Answers → PipelineRun → Bool
succeeds a no_files = true
succeeds a open_error = false
succeeds a (ran f it d) = pipeline_ok a f && is_drained d.end

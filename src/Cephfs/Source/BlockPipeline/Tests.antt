-- ===== src/Cephfs/Source/BlockPipeline/Tests.antt =====
-- A run of runSnapdiffBlockPipeline over two small files.
use ceph_volsync_plugin.Base.{ℕ, ◌≡◌, refl, inl, Bool, true, false, List, [], ◌∷◌, none, leb, arith}
use ceph_volsync_plugin.Base.Int.{pos}
use ceph_volsync_plugin.Pipeline.Config.{set_defaults}
use ceph_volsync_plugin.Pipeline.Window.{WindowSemaphore, new_window_semaphore, release}
use ceph_volsync_plugin.Pipeline.Window.Ring.{insert_id}
use ceph_volsync_plugin.Pipeline.Window.Tracking.{
  Tracks, new-Tracks, release-Tracks, is_released_iff,
}
use ceph_volsync_plugin.Cephfs.Split.{split_large_blocks, needs_split}
use ceph_volsync_plugin.Cephfs.Drainer.{
  committed, run, flush_all, drain_qualified, send_rest, send_batch,
}
use ceph_volsync_plugin.Cephfs.Iterator.{
  FileEntry, new_block_iterator, emit_boundary, drain_pending, drain_pending_boundaries,
  end_of_file, close_current_iter, ended_file, open_file, advance_file, round, next, close,
  flush_all_boundaries,
}
use ceph_volsync_plugin.Cephfs.Source.BlockPipeline.{
  Answers, default_config, feed, events, drain_sent, run_snapdiff_block_pipeline, succeeds,
}
use ceph_volsync_plugin.Cephfs.Source.BlockPipeline.Received.{Affirms}
use ceph_volsync_plugin.Cephfs.Source.BlockPipeline.Files.{
  CommitsFile, run_snapdiff_block_pipeline-CommitsFile,
}
use ceph_volsync_plugin.Cephfs.Source.BlockPipeline.Runs.{
  FewBlocks, ContextLasts, CommitsSafely, CommitsAll, run_snapdiff_block_pipeline-IsSafe,
  run_snapdiff_block_pipeline-CommitsAll,
}

abbrev finished : ℕ → Bool
finished = insert_id 0 (λ _. false)

abbrev window : WindowSemaphore
window = release (new_window_semaphore 2) 0

window-Tracks : Tracks finished window
unfolding new_window_semaphore
window-Tracks =
    (release-Tracks {done = λ _. false} {w = new_window_semaphore 2} 0 (omega arith) (omega arith)
      (omega arith) (new-Tracks 2 (omega arith))).0

abbrev block_answers : Answers
block_answers = record {
  opens_commit = true;
  new_iter = λ p. none;
  accepts = λ n. false;
  calls = 2;
  stages_ok = true;
  sends = 2;
  commits = λ n. committed;
  waits = λ fb. leb fb.last_req_id 0;
  released = λ n id. false;
  cut = none;
}

block_answers_affirmed : Affirms window block_answers
block_answers_affirmed = (
  λ fb h. (is_released_iff fb.last_req_id window-Tracks).1 (λ j le. ground arith),
  λ n id h. absurd (cc h),
)

abbrev files : List FileEntry
files = record { path = "a"; size = pos 5 } ∷ record { path = "b"; size = pos 0 } ∷ []

one_block : FewBlocks (run_snapdiff_block_pipeline block_answers files)
unfolding run_snapdiff_block_pipeline feed next round advance_file ended_file end_of_file
    emit_boundary drain_pending drain_pending_boundaries close_current_iter open_file
    new_block_iterator split_large_blocks needs_split default_config set_defaults
one_block = omega arith

one_kept : ContextLasts block_answers (run_snapdiff_block_pipeline block_answers files)
unfolding run_snapdiff_block_pipeline feed next round advance_file ended_file end_of_file
    emit_boundary drain_pending drain_pending_boundaries close_current_iter open_file
    new_block_iterator split_large_blocks needs_split default_config set_defaults
one_kept = omega arith

it_succeeds : succeeds block_answers (run_snapdiff_block_pipeline block_answers files) ≡ true
unfolding run_snapdiff_block_pipeline feed next round advance_file ended_file end_of_file
    emit_boundary drain_pending drain_pending_boundaries close_current_iter open_file
    new_block_iterator split_large_blocks needs_split default_config set_defaults close
    flush_all_boundaries drain_sent events run flush_all drain_qualified send_rest send_batch
it_succeeds = refl

run_snapdiff_block_pipeline-IsSafe_example :
    CommitsSafely finished (run_snapdiff_block_pipeline block_answers files)
run_snapdiff_block_pipeline-IsSafe_example =
    run_snapdiff_block_pipeline-IsSafe finished window block_answers files window-Tracks
      block_answers_affirmed one_block

run_snapdiff_block_pipeline-CommitsAll_example :
    CommitsAll finished (run_snapdiff_block_pipeline block_answers files)
run_snapdiff_block_pipeline-CommitsAll_example =
    run_snapdiff_block_pipeline-CommitsAll finished window block_answers files window-Tracks
      block_answers_affirmed one_block one_kept it_succeeds

run_snapdiff_block_pipeline-CommitsFile_example :
    CommitsFile "a" (run_snapdiff_block_pipeline block_answers files)
unfolding default_config set_defaults
run_snapdiff_block_pipeline-CommitsFile_example =
    run_snapdiff_block_pipeline-CommitsFile finished window block_answers files
      (record { path = "a"; size = pos 5 }) window-Tracks block_answers_affirmed one_block one_kept
      it_succeeds (inl refl) refl

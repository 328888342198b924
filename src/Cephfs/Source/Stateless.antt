-- ===== src/Cephfs/Source/Stateless.antt =====
-- runStatelessSync of internal/worker/cephfs/source.go: the producer, the consumers of its
-- channels and the last rsync. The pipeline for the files with data is an answer here: its parts
-- have modules of their own.
pub mod Covers
pub mod Completes
use ceph_volsync_plugin.Base.{
  ℕ, zero, suc, ◌+◌, ◌%◌, Bool, true, false, ◌&&◌, List, [], ◌∷◌, ◌++◌, map, length, take, leb,
  if◌then◌else◌,
}
use ceph_volsync_plugin.Base.Text.{Text}
use ceph_volsync_plugin.Cephfs.Source.Batches.{
  Received, path, closed, done, BatchEnd, flushed, Batched, DeleteAnswers, consume_deletes,
}
use ceph_volsync_plugin.Cephfs.Source.Batches.Workers.{
  Taken, Worker, last_event, rsync_workers, run_parallel_rsync_workers,
}
use ceph_volsync_plugin.Cephfs.Source.Walk.{Root, Walked, walk_and_stream_directories}
use ceph_volsync_plugin.Cephfs.Source.Routes.{
  ProduceEnd, produced, Produced, DirAnswers, produce_entries,
}
use ceph_volsync_plugin.Cephfs.Source.Routes.Reports.{deleted_ch, special_ch, large_ch}

-- Four workers on one channel: how many paths they take, and which of them takes the i-th. A worker
-- may see the end of the channel once all is taken.
pub record Consumers : Type 0 where
  pub workers : ℕ → Worker
  pub taker : ℕ → ℕ
  pub reads : ℕ

abbrev pub deal : (ℕ → ℕ) → ℕ → List Text → List Taken
deal taker i [] = []
deal taker i (p ∷ ps) =
    record { worker = taker i % rsync_workers; path = p } ∷ deal taker (i + 1) ps

abbrev pub sees : List Text → ℕ → Worker → Worker
sees paths reads w = record w { sees_end = w.sees_end && leb (length paths) reads }

-- consumeSpecialFiles and consumeMetaRsync.
unfoldable pub consume : Consumers → List Text → List Batched
unfolding run_parallel_rsync_workers
consume c paths =
    run_parallel_rsync_workers (λ w. sees paths c.reads (c.workers w))
      (deal c.taker 0 (take c.reads paths))

-- The consumer of the deletions: whether its stream opens, how many paths it takes, whether it sees
-- the end of the channel before that of the context, and what its requests meet.
pub record Deleter : Type 0 where
  pub opens : Bool
  pub reads : ℕ
  pub sees_end : Bool
  pub answers : ℕ → DeleteAnswers

abbrev pub view : ℕ → Bool → List Text → List Received
view reads sees_end paths =
    map path (take reads paths) ++ last_event (sees_end && leb (length paths) reads) ∷ []

unfoldable pub run_deletes : Deleter → List Text → Batched
unfolding consume_deletes
run_deletes d paths = consume_deletes d.opens d.answers (view d.reads d.sees_end paths)

-- What the sync meets.
pub record Environment : Type 0 where
  pub root : Root
  pub dirs : Text → DirAnswers
  pub specials : Consumers
  pub metas : Consumers
  pub deleter : Deleter
  pub pipeline_ok : Bool
  pub committed : List Text
  pub converges : Bool

pub data SyncEnd : Type 0 where
  completed group_error convergence_error : SyncEnd

-- What was sent where, whether the last rsync ran, and the end.
pub record Synced : Type 0 where
  pub producer : Produced
  pub special_batches : List Batched
  pub meta_batches : List Batched
  pub deletes : Batched
  pub convergence : Bool
  pub end : SyncEnd

abbrev pub is_flushed : BatchEnd → Bool
is_flushed flushed = true
is_flushed _ = false

abbrev pub all_flushed : List Batched → Bool
all_flushed [] = true
all_flushed (b ∷ bs) = is_flushed b.end && all_flushed bs

abbrev pub is_produced : ProduceEnd → Bool
is_produced produced = true
is_produced _ = false

-- g.Wait() returns nil: so did every part of the group.
abbrev pub group_ok : Bool → Synced → Bool
group_ok pipeline_ok s =
    is_produced s.producer.end
    && (pipeline_ok
        && (all_flushed s.special_batches
            && (all_flushed s.meta_batches && is_flushed s.deletes.end)))

-- What follows the group: the last rsync runs if a directory has changed.
abbrev pub finish : Bool → Bool → Synced → Synced
finish false converges s = record s { end = group_error }
finish true converges s =
    if s.producer.dir_changed
    then record s { convergence = true; end = if converges then completed else convergence_error }
    else record s { end = completed }

-- The group before its end is known.
abbrev pub group : Environment → Synced
group env =
    let w = walk_and_stream_directories env.root in
    let p = produce_entries env.dirs w.ok w.dirs in
    record {
      producer = p;
      special_batches = consume env.specials (special_ch p.routed);
      meta_batches = consume env.metas env.committed;
      deletes = run_deletes env.deleter (deleted_ch p.routed);
      convergence = false;
      end = group_error;
    }

unfoldable pub run_stateless_sync : Environment → Synced
unfolding consume run_deletes produce_entries walk_and_stream_directories special_ch deleted_ch
run_stateless_sync env = let s = group env in finish (group_ok env.pipeline_ok s) env.converges s

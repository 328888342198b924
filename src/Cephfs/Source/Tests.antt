-- ===== src/Cephfs/Source/Tests.antt =====
-- The theorems on the source of file systems at concrete inputs.
use ceph_volsync_plugin.Base.{
  ℕ, ◌≡◌, refl, if◌then◌else◌, true, false, List, [], ◌∷◌, map, some, none, concat, ltb, arith,
}
use ceph_volsync_plugin.Base.Int.{pos}
use ceph_volsync_plugin.Base.Text.{Text, eq_text}
use ceph_volsync_plugin.Cephfs.Paths.{codes}
use ceph_volsync_plugin.Cephfs.Source.Batches.{Received, path, closed, DeleteAnswers, ListAnswers}
use ceph_volsync_plugin.Cephfs.Source.Batches.Workers.{
  Taken, Worker, occurs, all_sent, run_parallel_rsync_workers, run_parallel_rsync_workers_sends,
}
use ceph_volsync_plugin.Cephfs.Source.Walk.{none, folder_then, listed}
use ceph_volsync_plugin.Cephfs.Source.Routes.{
  DType, regular, directory, other, Stat, missing, found, DirRead, entry, no_more, DirAnswers,
  produce_entries,
}
use ceph_volsync_plugin.Cephfs.Source.Routes.Reports.{all_reports}
use ceph_volsync_plugin.Cephfs.Source.Routes.Rounds.{Channels}
use ceph_volsync_plugin.Cephfs.Source.Routes.Channels.{produce_entries-Channels}
use ceph_volsync_plugin.Cephfs.Source.Rsync.{Attempt, exited, exit_code, rsync}
use ceph_volsync_plugin.Cephfs.Source.Rsync.Retries.{Retries, rsync-Retries}
use ceph_volsync_plugin.Cephfs.Source.Stateless.{Environment, Consumers, run_stateless_sync}
use ceph_volsync_plugin.Cephfs.Source.Stateless.Completes.{Completes, run_stateless_sync-Completes}

abbrev works : ListAnswers
works = record { created = true; closes = true; size = some 9; rsync_ok = true }

abbrev good : Worker
good = record { answers = λ i. works; sees_end = true }

abbrev four : Consumers
four = record { workers = λ w. good; taker = λ i. i; reads = 100 }

abbrev seen : Text → DType → Stat → DirRead
seen n t s = entry (record { name = n; dtype = t; stat = s; sends = true })

abbrev root_reads : List DirRead
root_reads =
    seen (codes "d") directory (found (pos 0))
    ∷ seen (codes "f") regular (found (pos 7))
    ∷ seen (codes "old") other missing
    ∷ seen (codes "link") other (found (pos 3))
    ∷ no_more
    ∷ []

abbrev answers : Text → DirAnswers
answers dir = record {
  done = false;
  opens = true;
  reads =
      if eq_text dir (codes "/")
      then root_reads
      else seen (codes "g") regular missing ∷ no_more ∷ [];
}

abbrev environment : Environment
environment = record {
  root = listed (folder_then (codes "d") none none);
  dirs = answers;
  specials = four;
  metas = four;
  deleter = record {
    opens = true;
    reads = 100;
    sees_end = true;
    answers = λ i. record { sends = true; acked = true };
  };
  pipeline_ok = true;
  committed = codes "/f" ∷ [];
  converges = true;
}

run_stateless_sync-Completes_example : Completes environment (run_stateless_sync environment)
unfolding run_stateless_sync
run_stateless_sync-Completes_example = run_stateless_sync-Completes environment refl

deleted_paths :
    concat (run_stateless_sync environment).deletes.sent ≡ codes "/old" ∷ codes "/d/g" ∷ []
unfolding run_stateless_sync
deleted_paths = refl

produce_entries-Channels_example :
    Channels
      (all_reports answers (codes "/" ∷ codes "/d" ∷ []))
      (produce_entries answers false (codes "/" ∷ codes "/d" ∷ []))
produce_entries-Channels_example =
    produce_entries-Channels answers false (codes "/" ∷ codes "/d" ∷ [])

abbrev second_unanswered : ℕ → DeleteAnswers
second_unanswered i = record { sends = true; acked = ltb i 1 }

abbrev two_paths : List Received
two_paths = path (codes "/a") ∷ path (codes "/b") ∷ closed ∷ []

abbrev taken : List Taken
taken =
    record { worker = 2; path = codes "/a" }
    ∷ record { worker = 0; path = codes "/b" }
    ∷ record { worker = 2; path = codes "/a" }
    ∷ []

run_parallel_rsync_workers_sends_example :
    occurs (eq_text (codes "/a")) (all_sent (run_parallel_rsync_workers (λ w. good) taken))
    ≡ occurs (eq_text (codes "/a")) (map Taken.path taken)
unfolding run_parallel_rsync_workers
run_parallel_rsync_workers_sends_example =
    run_parallel_rsync_workers_sends (λ w. good) taken (eq_text (codes "/a"))
      (omega arith, (omega arith, (omega arith, tt))) (refl, (refl, (refl, (refl, tt))))

-- The first two attempts fail.
abbrev attempts : ℕ → Attempt
attempts i = record {
  list_pass = record { finds = true; writes = true; size = some 4; rsync = exited };
  deletion = if ltb i 2 then exit_code (pos 23) else exited;
}

rsync-Retries_example : Retries attempts 0 2 (rsync 20 attempts)
rsync-Retries_example = rsync-Retries 20 attempts (omega arith)

rsync_delays : (rsync 20 attempts).delays ≡ 2 ∷ 4 ∷ []
unfolding rsync
rsync_delays = refl

-- ===== src/Cephfs/Tests.antt =====
-- The theorems on file systems at concrete inputs.
use ceph_volsync_plugin.Base.{ℕ, zero, suc, ◌≡◌, true, false, List, [], ◌∷◌, map, ltb, arith}
use ceph_volsync_plugin.Base.Int.{pos}
use ceph_volsync_plugin.Cephfs.Split.{split_large_blocks}
use ceph_volsync_plugin.Cephfs.Split
use ceph_volsync_plugin.Cephfs.Split.Aliasing.{split_large_blocks_loses}
use ceph_volsync_plugin.Cephfs.FileCache.{acquire, Reader, start_read, load_or_store}
use ceph_volsync_plugin.Cephfs.FileCache.Readers
use ceph_volsync_plugin.Cephfs.FileCache.Readers.{
  entry_of, IsCounted, Step, starts_read, stores, Reach, unused, Reach-IsCounted,
  sync_and_release_once,
}
use ceph_volsync_plugin.Cephfs.Drainer.{
  FileBoundary, Commit, committed, refused, Event, closed, run,
}
use ceph_volsync_plugin.Cephfs.Drainer.Run.{Committed, boundary_of, run-Committed}

abbrev extent : ℕ → ℕ → Split.ChangedBlock
extent offset len = record { offset = offset; len = len }

split_large_blocks_loses_example :
    split_large_blocks 2 4 (extent 0 7 ∷ extent 10 3 ∷ [])
    ≡ split_large_blocks 2 4 (extent 0 7 ∷ extent 90 1 ∷ [])
split_large_blocks_loses_example =
    split_large_blocks_loses 2 4 (extent 0 7) (extent 10 3) (extent 90 1) (omega arith)
      (omega arith) (omega arith)

abbrev file : ℕ → FileBoundary
file id = record { path = "f"; last_req_id = id; total_size = pos 5 }

abbrev some_events : List Event
some_events =
    record { boundary = file 3; is_released = λ i. false }
    ∷ record { boundary = file 9; is_released = λ i. ltb i 4 }
    ∷ []

abbrev second_fails : ℕ → Commit
second_fails zero = committed
second_fails (suc n) = refused

run-Committed_example :
    Committed
      (λ b. ltb b.last_req_id 4 ≡ true)
      (map boundary_of some_events)
      (run 2 second_fails (λ b. ltb b.last_req_id 4) closed [] [] some_events)
run-Committed_example =
    run-Committed 2 second_fails (λ b. ltb b.last_req_id 4) closed some_events (λ i. ltb i 4)
      (λ b h. h) ((λ i h. absurd (cc h)), ((λ i h. h), tt))

abbrev one_read : Reader
one_read = load_or_store (start_read true true unused)

read_once : Reach unused one_read
unfolding start_read acquire
read_once =
    Readers.next (Readers.next Readers.here (starts_read unused true true))
      (stores (start_read true true unused) (omega arith))

Reach-IsCounted_example : IsCounted one_read
unfolding read_once
Reach-IsCounted_example = Reach-IsCounted {r = one_read} read_once tt

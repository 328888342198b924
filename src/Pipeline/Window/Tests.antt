-- ===== src/Pipeline/Window/Tests.antt =====
-- The theorem on late releases at a concrete input.
use ceph_volsync_plugin.Base.{ℕ, ◌+◌, Bool, false, arith}
use ceph_volsync_plugin.Pipeline.Window.{
  WindowSemaphore, new_window_semaphore, release, mark, advance, wake_win_waiters,
}
use ceph_volsync_plugin.Pipeline.Window.Ring.{insert_id}
use ceph_volsync_plugin.Pipeline.Window.Tracking.{Tracks, new-Tracks, release-Tracks}
use ceph_volsync_plugin.Pipeline.Window.Stale.{release_stale-Tracks}

abbrev first_done : ℕ → Bool
first_done = insert_id 0 (λ _. false)

abbrev passed : WindowSemaphore
passed = release (new_window_semaphore 2) 0

first_passed : Tracks first_done passed
unfolding new_window_semaphore
first_passed =
    (release-Tracks {done = λ _. false} {w = new_window_semaphore 2} 0 (omega arith) (omega arith)
      (omega arith) (new-Tracks 2 (omega arith))).0

release_stale-Tracks_example : Tracks (insert_id (0 + passed.limit) first_done) (release passed 0)
unfolding new_window_semaphore release mark advance wake_win_waiters
release_stale-Tracks_example =
    release_stale-Tracks {done = first_done} {w = passed} 0 (omega arith) (omega arith)
      (omega arith) first_passed

-- ===== src/Rbd/Source/Sync/Tests.antt =====
-- A run of Sync over a diff of one extent.
use ceph_volsync_plugin.Base.{ℕ, ◌≡◌, refl, Bool, true, false, [], ◌∷◌, err, leb, arith}
use ceph_volsync_plugin.Pipeline.Window.{
  WindowSemaphore, new_window_semaphore, release, is_released,
}
use ceph_volsync_plugin.Pipeline.Window.Ring.{insert_id}
use ceph_volsync_plugin.Pipeline.Window.Tracking.{
  Tracks, new-Tracks, release-Tracks, is_released_iff,
}
use ceph_volsync_plugin.Rbd.Source.Sync.{SyncAnswers, parent_error, set_up, sync_rbd}
use ceph_volsync_plugin.Rbd.Source.Sync.Outcomes.{Settles, sync_rbd-Settles}

abbrev first_done : ℕ → Bool
first_done = insert_id 0 (λ _. false)

abbrev window : WindowSemaphore
window = release (new_window_semaphore 2) 0

window-Tracks : Tracks first_done window
unfolding new_window_semaphore
window-Tracks =
    (release-Tracks {done = λ _. false} {w = new_window_semaphore 2} 0 (omega arith) (omega arith)
      (omega arith) (new-Tracks 2 (omega arith))).0

abbrev sync_answers : SyncAnswers
sync_answers = record {
  resolves_config = true;
  resolves_parent = true;
  opens_image = true;
  gets_size = true;
  makes_iterator = true;
  opens_device = true;
  makes_cert = true;
  exchanges_certs = true;
  builds_tls = true;
  connects = true;
  vol_size = 20;
  from_snap_id = 3;
  extents = record { offset = 4; len = 6 } ∷ [];
  calls = 2;
  stages_ok = true;
  acked = λ id. leb id 0;
  opens_commit = true;
  sends_commit = true;
  receives_commit = true;
  signals_done = true;
}

affirmed : (id : ℕ) → leb id 0 ≡ true → is_released window id ≡ true
affirmed id h = (is_released_iff id window-Tracks).1 (λ j le. ground arith)

sync_rbd-Settles_example : Settles first_done sync_answers (sync_rbd sync_answers)
sync_rbd-Settles_example =
    sync_rbd-Settles first_done window sync_answers window-Tracks affirmed (omega arith)

no_parent : (sync_rbd (record sync_answers { resolves_parent = false })).result ≡ err parent_error
unfolding sync_rbd set_up
no_parent = refl

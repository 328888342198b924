-- ===== src/Pipeline/Window/Stale.antt =====
-- A release that comes too late.
use native.Mathlib.Nat.{add-mod_right}
use ceph_volsync_plugin.Base.{ℕ, ◌+◌, ◌≤◌, ◌<◌, ◌≡◌, refl, Bool, arith}
use ceph_volsync_plugin.Pipeline.Window.{u64, WindowSemaphore, release}
use ceph_volsync_plugin.Pipeline.Window.Ring.{insert_id}
use ceph_volsync_plugin.Pipeline.Window.Tracking.{Tracks, release-Tracks}

release-slot : (w : WindowSemaphore) (req : ℕ) → release w (req + w.limit) ≡ release w req
unfolding release
release-slot w req = rw (add-mod_right req w.limit) refl

-- Release does not look whether its request lies before the window: a second release of a request
-- that the window has passed, no further back than its size, releases the request one size later,
-- acknowledged or not.
pub release_stale-Tracks :
    {done : ℕ → Bool} {w : WindowSemaphore} (req : ℕ)
    → req < w.base
    → w.base ≤ req + w.limit
    → w.base + w.limit + 1 < u64
    → Tracks done w
    → Tracks (insert_id (req + w.limit) done) (release w req)
release_stale-Tracks {done} {w} req before near room t = rw (release-slot w req) at later
  where
    later : Tracks (insert_id (req + w.limit) done) (release w (req + w.limit))
    later = (release-Tracks (req + w.limit) near (omega arith) room t).0

-- ===== src/Pipeline/Window/Session.antt =====
-- Interleavings of the methods of one window, and what holds after any of them.
use ceph_volsync_plugin.Base.{ℕ, ◌+◌, ◌*◌, ◌≤◌, ◌<◌, inl, inr, Bool, false, Bool-cases, arith}
use ceph_volsync_plugin.Pipeline.Window.{
  u64, WindowSemaphore, new_window_semaphore, inside, acquire, acquire_done, release, contains,
}
use ceph_volsync_plugin.Pipeline.Window.Ring.{insert_id}
use ceph_volsync_plugin.Pipeline.Window.Tracking.{Tracks, new-Tracks, release-Tracks}
use ceph_volsync_plugin.Pipeline.Window.Waiting.{
  Waiting, acquire-Waiting, acquire_done-Waiting, release-Waiting,
}

-- A window with the requests that have been released so far.
pub record Session : Type 0 where
  pub done : ℕ → Bool
  pub window : WindowSemaphore

-- What the goroutines of the pipeline do to it, in any order. Requests are acquired at or after
-- `base`, and released while they are in the window; the numbers stay clear of 2^64.
pub data Step : Session → Session → Type 0 where
  acquires :
      (s : Session) (req ch : ℕ)
      → s.window.base ≤ req
      → req < u64
      → s.window.base + s.window.limit ≤ u64
      → Step s (record s { window = (acquire s.window req ch).0 })
  cancels : (s : Session) (ch : ℕ) → Step s (record s { window = (acquire_done s.window ch).0 })
  releases :
      (s : Session) (req : ℕ)
      → s.window.base ≤ req
      → req < s.window.base + s.window.limit
      → s.window.base + 2 * s.window.limit + 1 < u64
      → Step s (record { done = insert_id req s.done; window = release s.window req })

pub data Reach (s : Session) : Session → Type 0 where
  here : Reach s s
  next : {t u : Session} → Reach s t → Step t u → Reach s u

unfoldable pub start : ℕ → Session
start n = record { done = λ _. false; window = new_window_semaphore n }

pub record IsSound (s : Session) : Type 0 where
  pub tracks : Tracks s.done s.window
  pub waiting : Waiting s.window

start-IsSound : (n : ℕ) → 0 < n → IsSound (start n)
unfolding start
start-IsSound n h = record {
  tracks = new-Tracks n h;
  waiting = unfold new_window_semaphore in record { sorted = tt; ahead = tt };
}

acquire-Tracks :
    {done : ℕ → Bool} (w : WindowSemaphore) (req ch : ℕ)
    → Tracks done w
    → Tracks done (acquire w req ch).0
unfolding acquire
acquire-Tracks w req ch t = elim (Bool-cases (inside w req)) [
  | inl e ↦ rw e (record { pos_limit = t.pos_limit; ring = t.ring; next = t.next })
  | inr e ↦ rw e (record { pos_limit = t.pos_limit; ring = t.ring; next = t.next })
]

acquire_done-Tracks :
    {done : ℕ → Bool} (w : WindowSemaphore) (ch : ℕ)
    → Tracks done w
    → Tracks done (acquire_done w ch).0
unfolding acquire_done
acquire_done-Tracks w ch t = elim (Bool-cases (contains ch w.closed)) [
  | inl e ↦ rw e t
  | inr e ↦ rw e (record { pos_limit = t.pos_limit; ring = t.ring; next = t.next })
]

Step-IsSound : {s t : Session} → Step s t → IsSound s → IsSound t
Step-IsSound (acquires s req ch lo small room) v = record {
  tracks = acquire-Tracks s.window req ch v.tracks;
  waiting = acquire-Waiting s.window req ch lo small room v.waiting;
}
Step-IsSound (cancels s ch) v = record {
  tracks = acquire_done-Tracks s.window ch v.tracks;
  waiting = acquire_done-Waiting s.window ch v.waiting;
}
Step-IsSound (releases s req lo hi room) v = record {
  tracks = (release-Tracks req lo hi (omega arith) v.tracks).0;
  waiting = release-Waiting req lo hi room v.tracks v.waiting;
}

reach-IsSound : {s t : Session} → IsSound s → Reach s t → IsSound t
reach-IsSound v here = v
reach-IsSound v (next r st) = Step-IsSound st (reach-IsSound v r)

-- After any interleaving, on a new window of a positive size, of these three calls the window stands
-- for exactly the released requests, its waiters are in the order of their requests, and each of
-- them is still beyond the window: Acquire of a request at or after base, where the request is below
-- 2^64 and base + limit at most that; cancellation of any waiter; and Release of a request inside
-- the window, at or after base and before base + limit, where base + 2 * limit + 1 is below 2^64. A
-- request that base has passed is released in no such run.
pub run-IsSound : (n : ℕ) {s : Session} → 0 < n → Reach (start n) s → IsSound s
run-IsSound n h r = reach-IsSound (start-IsSound n h) r

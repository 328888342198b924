-- ===== src/Pipeline/Tests.antt =====
-- The theorems on the pipeline at concrete inputs.
use ceph_volsync_plugin.Base.{◌≤◌, ◌≡◌, refl, false, List, [], ◌∷◌, arith, if◌then◌else◌}
use ceph_volsync_plugin.Base.Int.{pos, ◌+ℤ◌}
use ceph_volsync_plugin.Pipeline.Window.{
  u64, WinWaiter, WindowSemaphore, new_window_semaphore, inside, wake_win_waiters, is_released,
}
use ceph_volsync_plugin.Pipeline.Window
use ceph_volsync_plugin.Pipeline.Mem
use ceph_volsync_plugin.Pipeline.Window.Ring.{insert_id}
use ceph_volsync_plugin.Pipeline.Window.Tracking.{Tracks, new-Tracks, release-Tracks}
use ceph_volsync_plugin.Pipeline.Mem.{MemWaiter, MemSemaphore, contains, wake_waiters}

abbrev fresh_window : WindowSemaphore
fresh_window = new_window_semaphore 2

release-Tracks_example :
    Tracks (insert_id 1 (λ _. false)) (Window.release fresh_window 1)
    × (fresh_window.base ≤ (Window.release fresh_window 1).base)
unfolding new_window_semaphore
release-Tracks_example =
    release-Tracks {done = λ _. false} {w = fresh_window} 1 (omega arith) (omega arith)
      (omega arith) (new-Tracks 2 (omega arith))

abbrev acquired : Window.Session.Session
acquired = record { done = λ _. false; window = (Window.acquire fresh_window 9 7).0 }

abbrev then_cancelled : Window.Session.Session
then_cancelled = record { done = λ _. false; window = (Window.acquire_done acquired.window 7).0 }

run-IsSound_example : Window.Session.IsSound then_cancelled
unfolding Window.Session.start new_window_semaphore
run-IsSound_example = Window.Session.run-IsSound 2 {s = then_cancelled} (omega arith) (
    Window.Session.next
      (Window.Session.next Window.Session.here (
        Window.Session.acquires (Window.Session.start 2) 9 7 (omega arith) (omega arith)
          (omega arith)))
      (Window.Session.cancels acquired 7))

abbrev two_waiting : List WinWaiter
two_waiting = record { req_id = 5; ch = 1 } ∷ record { req_id = 8; ch = 2 } ∷ []

abbrev mem_waiting : List MemWaiter
mem_waiting = record { n = 5; ch = 1 } ∷ record { n = 3; ch = 2 } ∷ []

abbrev full_sem : MemSemaphore
full_sem = record { capacity = 10; cur = pos 9; waiters = mem_waiting; closed = [] }

abbrev after_acquire : Mem.Session.Session
after_acquire = record {
  held = if (Mem.acquire (Mem.Session.start 10).sem 4 1).1 then 4 else 0;
  sem = (Mem.acquire (Mem.Session.start 10).sem 4 1).0;
}

run-Accounts_example : Mem.Session.Accounts after_acquire.held after_acquire.sem
unfolding Mem.Session.start Mem.new_mem_semaphore
run-Accounts_example =
    Mem.Session.run-Accounts 10 {t = after_acquire}
      (Mem.Session.next Mem.Session.here (Mem.Session.acquires (Mem.Session.start 10) 4 1))

abbrev stuck : MemSemaphore
stuck = record { capacity = 10; cur = pos 6; waiters = mem_waiting; closed = [] }

acquire_done_stalls_example :
    ((Mem.acquire_done stuck 1).0.waiters ≡ record { n = 3; ch = 2 } ∷ [])
    × ((Mem.acquire_done stuck 1).0.closed ≡ [])
    × (¬ Mem.Session.IsFed (Mem.acquire_done stuck 1).0)
unfolding ◌+ℤ◌
acquire_done_stalls_example =
    Mem.Session.acquire_done_stalls stuck (record { n = 5; ch = 1 }) (record { n = 3; ch = 2 }) []
      refl refl refl

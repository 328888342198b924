-- ===== src/Pipeline/Window.antt =====
-- WindowSemaphore of internal/worker/pipeline/semaphore.go. A method is split at its lock: what
-- it does while it holds the mutex is one function on the state.
pub mod Ring
pub mod Tracking
pub mod Waiting
pub mod Stale
mod Tests
pub mod Session
use ceph_volsync_plugin.Base.{
  ℕ, zero, suc, ◌+◌, ◌-◌, ◌*◌, ◌%◌, ◌^◌, Bool, true, false, List, [], ◌∷◌, ◌++◌, length, set,
  get_or, replicate, ltb, leb, ◌==◌, if◌then◌else◌,
}
use ceph_volsync_plugin.Base.Int.{ℤ, pos, ◌+ℤ◌, ◌-ℤ◌}

-- The number of values of a uint64.
abbrev pub u64 : ℕ
u64 = 2 ^ 64

-- uint64 a - b.
abbrev pub sub64 : ℕ → ℕ → ℕ
sub64 a b = (a + u64 - b) % u64

-- A blocked Acquire; `ch` stands for its record and for the channel that wakes it.
pub record WinWaiter : Type 0 where
  pub req_id : ℕ
  pub ch : ℕ

-- `closed` holds the channels that were closed. `release_ch` says that a token is in releaseCh.
pub record WindowSemaphore : Type 0 where
  pub max_window : ℕ
  pub limit : ℕ
  pub base : ℕ
  pub released : List Bool
  pub in_flight : ℤ
  pub waiters : List WinWaiter
  pub closed : List ℕ
  pub release_ch : Bool

unfoldable pub new_window_semaphore : ℕ → WindowSemaphore
new_window_semaphore max_window = record {
  max_window = max_window;
  limit = 2 * max_window;
  base = 0;
  released = replicate (2 * max_window) false;
  in_flight = pos 0;
  waiters = [];
  closed = [];
  release_ch = false;
}

pub insert_waiter : WinWaiter → List WinWaiter → List WinWaiter
insert_waiter x [] = x ∷ []
insert_waiter x (y ∷ ys) = if ltb y.req_id x.req_id then y ∷ insert_waiter x ys else x ∷ y ∷ ys

pub remove_waiter : ℕ → List WinWaiter → List WinWaiter
remove_waiter ch [] = []
remove_waiter ch (y ∷ ys) = if y.ch == ch then ys else y ∷ remove_waiter ch ys

pub inside : WindowSemaphore → ℕ → Bool
inside w req = ltb (sub64 req w.base) w.limit

-- The first part of Acquire: true if the request is let through at once.
pub acquire : WindowSemaphore → ℕ → ℕ → WindowSemaphore × Bool
unfolding insert_waiter inside
acquire w req ch =
    if inside w req
    then (record w { in_flight = w.in_flight +ℤ pos 1 }, true)
    else (record w { waiters = insert_waiter (record { req_id = req; ch = ch }) w.waiters }, false)

abbrev pub contains : ℕ → List ℕ → Bool
contains c [] = false
contains c (x ∷ xs) = if x == c then true else contains c xs

-- The second part of Acquire, after ctx.Done: true if the waiter was let through meanwhile.
pub acquire_done : WindowSemaphore → ℕ → WindowSemaphore × Bool
unfolding remove_waiter
acquire_done w ch =
    if contains ch w.closed
    then (w, true)
    else (record w { waiters = remove_waiter ch w.waiters }, false)

-- `for w.released[w.base % limit]`; the fuel is more than the number of slots.
pub advance : ℕ → ℕ → ℕ → List Bool → ℕ × List Bool
advance zero limit base released = (base, released)
advance (suc fuel) limit base released = elim (get_or released (base % limit) false) [
  | true ↦ advance fuel limit ((base + 1) % u64) (set released (base % limit) false)
  | false ↦ (base, released)
]

-- wakeWinWaiters: the waiters that are let through, and those that stay.
pub wake_win_waiters : ℕ → ℕ → List WinWaiter → List WinWaiter × List WinWaiter
wake_win_waiters base limit [] = ([], [])
wake_win_waiters base limit (front ∷ rest) =
    let (woken, kept) = wake_win_waiters base limit rest in
    if leb limit (sub64 front.req_id base) then ([], front ∷ rest) else (front ∷ woken, kept)

abbrev pub channels : List WinWaiter → List ℕ
channels [] = []
channels (x ∷ xs) = x.ch ∷ channels xs

-- What Release does once the slot of its request was free.
pub mark : WindowSemaphore → ℕ → WindowSemaphore
unfolding advance wake_win_waiters
mark w idx =
    let (base, released) =
      advance (suc (length w.released)) w.limit w.base (set w.released idx true) in
    let (woken, kept) = wake_win_waiters base w.limit w.waiters in
    record w {
      base = base;
      released = released;
      in_flight = w.in_flight -ℤ pos 1 +ℤ pos (length woken);
      waiters = kept;
      closed = channels woken ++ w.closed;
      release_ch = true;
    }

pub release : WindowSemaphore → ℕ → WindowSemaphore
release w req = if get_or w.released (req % w.limit) false then w else mark w (req % w.limit)

pub is_released : WindowSemaphore → ℕ → Bool
is_released w req = ltb req w.base

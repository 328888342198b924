-- ===== src/Pipeline/Mem.antt =====
-- MemSemaphore of internal/worker/pipeline/semaphore.go, split at its lock like the window.
-- The int64 counters are integers: the sizes that the pipeline acquires are far below 2^63.
pub mod Wake
pub mod Session
use ceph_volsync_plugin.Base.{ℕ, Bool, true, false, ◌&&◌, List, [], ◌∷◌, ◌++◌, ◌==◌, if◌then◌else◌}
use ceph_volsync_plugin.Base.Int.{ℤ, pos, ◌+ℤ◌, ◌-ℤ◌, leb_ℤ}

-- A blocked Acquire; `ch` stands for its list element and for the channel that wakes it.
pub record MemWaiter : Type 0 where
  pub n : ℕ
  pub ch : ℕ

-- `closed` holds the channels that were closed.
pub record MemSemaphore : Type 0 where
  pub capacity : ℕ
  pub cur : ℤ
  pub waiters : List MemWaiter
  pub closed : List ℕ

unfoldable pub new_mem_semaphore : ℕ → MemSemaphore
new_mem_semaphore capacity = record { capacity = capacity; cur = pos 0; waiters = []; closed = [] }

abbrev pub fits : ℕ → ℤ → ℕ → Bool
fits capacity cur n = leb_ℤ (cur +ℤ pos n) (pos capacity)

abbrev pub is_empty {ℓ} : {A : Type ℓ} → List A → Bool
is_empty [] = true
is_empty (x ∷ xs) = false

-- The first part of Acquire: true if the request is let through at once.
pub acquire : MemSemaphore → ℕ → ℕ → MemSemaphore × Bool
acquire s n ch =
    if fits s.capacity s.cur n && is_empty s.waiters
    then (record s { cur = s.cur +ℤ pos n }, true)
    else (record s { waiters = s.waiters ++ record { n = n; ch = ch } ∷ [] }, false)

abbrev pub contains : ℕ → List ℕ → Bool
contains c [] = false
contains c (x ∷ xs) = if x == c then true else contains c xs

pub remove_waiter : ℕ → List MemWaiter → List MemWaiter
remove_waiter ch [] = []
remove_waiter ch (y ∷ ys) = if y.ch == ch then ys else y ∷ remove_waiter ch ys

-- The second part of Acquire, after ctx.Done: true if the waiter was let through meanwhile.
pub acquire_done : MemSemaphore → ℕ → MemSemaphore × Bool
unfolding remove_waiter
acquire_done s ch =
    if contains ch s.closed
    then (s, true)
    else (record s { waiters = remove_waiter ch s.waiters }, false)

-- wakeWaiters: the new count, the waiters that are let through, and those that stay.
pub wake_waiters : ℕ → ℤ → List MemWaiter → ℤ × List MemWaiter × List MemWaiter
wake_waiters capacity cur [] = (cur, [], [])
wake_waiters capacity cur (front ∷ rest) =
    let (cur', woken, kept) = wake_waiters capacity (cur +ℤ pos front.n) rest in
    if fits capacity cur front.n then (cur', front ∷ woken, kept) else (cur, [], front ∷ rest)

abbrev pub channels : List MemWaiter → List ℕ
channels [] = []
channels (x ∷ xs) = x.ch ∷ channels xs

pub release : MemSemaphore → ℕ → MemSemaphore
unfolding wake_waiters
release s n =
    let (cur, woken, kept) = wake_waiters s.capacity (s.cur -ℤ pos n) s.waiters in
    record s { cur = cur; waiters = kept; closed = channels woken ++ s.closed }

-- ===== src/Pipeline/Mem/Session.antt =====
-- Interleavings of the methods of one memory semaphore, and what holds after any of them.
use ceph_volsync_plugin.Base.{
  ℕ, ◌+◌, ◌-◌, ◌≤◌, ◌≡◌, refl, sym, ap, ◌∙◌, inl, inr, true, false, ◌&&◌, List, [], ◌∷◌, ◌++◌,
  Bool-cases, leb, leb→le, arith, if◌then◌else◌,
}
use ceph_volsync_plugin.Base.Int.{pos, ◌-ℤ◌}
use ceph_volsync_plugin.Pipeline.Mem.{
  MemWaiter, MemSemaphore, new_mem_semaphore, fits, is_empty, acquire, acquire_done, remove_waiter,
  wake_waiters, release, contains, channels,
}
use ceph_volsync_plugin.Pipeline.Mem.Wake.{
  weight, IsBlocked, pos-add, fits-pos, wake_waiters-splits,
}

pub pos-sub : (h n : ℕ) → n ≤ h → pos h -ℤ pos n ≡ pos (h - n)
unfolding ◌-ℤ◌
pos-sub h n le = ground arith

abbrev pub woken_by : MemSemaphore → ℕ → List MemWaiter
woken_by s n = (wake_waiters s.capacity (s.cur -ℤ pos n) s.waiters).1

-- The count says what is held, which never exceeds the capacity.
pub record Accounts (held : ℕ) (s : MemSemaphore) : Type 0 where
  pub counted : s.cur ≡ pos held
  pub within : held ≤ s.capacity

-- No wake-up is due: the waiter at the head of the queue does not fit.
abbrev pub IsFed : MemSemaphore → Type 0
IsFed s = IsBlocked s.capacity s.cur s.waiters

-- Release gives back `n` of what is held and hands what fits to a prefix of the queue, in order;
-- the channels of that prefix are closed, the count stays within the capacity, and whoever is now
-- at the head does not fit.
pub release-Accounts :
    (held n : ℕ) (s : MemSemaphore)
    → Accounts held s
    → n ≤ held
    → let woken = woken_by s n in
      let s' = release s n in
      Accounts (held - n + weight woken) s'
      × (s.waiters ≡ woken ++ s'.waiters)
      × (s'.closed ≡ channels woken ++ s.closed)
      × IsFed s'
unfolding release
release-Accounts held n s a le =
    let split = wake_waiters-splits s.capacity (held - n) s.waiters (omega (arith, a.within)) in
    let left : s.cur -ℤ pos n ≡ pos (held - n) = rw a.counted (pos-sub held n le) in
    rw (left, woken_by) (record { counted = split.1; within = split.2 }, sym split.0, refl, split.3)

-- Acquire lets a request through exactly if it fits and nobody waits, and then adds it to the
-- count; any other request goes to the end of the queue.
pub acquire-Accounts :
    (held n ch : ℕ) (s : MemSemaphore)
    → Accounts held s
    → let (s', granted) = acquire s n ch in
      (granted ≡ leb (held + n) s.capacity && is_empty s.waiters)
      × Accounts (if granted then held + n else held) s'
      × (s'.waiters ≡ (if granted then s.waiters else s.waiters ++ record { n = n; ch = ch } ∷ []))
unfolding acquire
acquire-Accounts held n ch s a = elim (Bool-cases (fits s.capacity s.cur n && is_empty s.waiters)) [
  | inl e ↦ rw e (
    sym e ∙ ap (λ b. b && is_empty s.waiters) test,
    record {
      counted = rw a.counted (pos-add held n);
      within = leb→le (held + n) s.capacity (ground (arith, sym test, e));
    },
    refl,
  )
  | inr e ↦ rw e (
    sym e ∙ ap (λ b. b && is_empty s.waiters) test,
    record { counted = a.counted; within = a.within },
    refl,
  )
]
  where
    test : fits s.capacity s.cur n ≡ leb (held + n) s.capacity
    test = rw a.counted (fits-pos s.capacity held n)

-- A semaphore with the sum of what its clients hold.
pub record Session : Type 0 where
  pub held : ℕ
  pub sem : MemSemaphore

pub data Step : Session → Session → Type 0 where
  acquires :
      (s : Session) (n ch : ℕ)
      → Step s (record {
        held = if (acquire s.sem n ch).1 then s.held + n else s.held;
        sem = (acquire s.sem n ch).0;
      })
  cancels : (s : Session) (ch : ℕ) → Step s (record s { sem = (acquire_done s.sem ch).0 })
  releases :
      (s : Session) (n : ℕ)
      → n ≤ s.held
      → Step s (record { held = s.held - n + weight (woken_by s.sem n); sem = release s.sem n })

pub data Reach (s : Session) : Session → Type 0 where
  here : Reach s s
  next : {t u : Session} → Reach s t → Step t u → Reach s u

unfoldable pub start : ℕ → Session
start capacity = record { held = 0; sem = new_mem_semaphore capacity }

acquire_done-Accounts :
    (held ch : ℕ) (s : MemSemaphore) → Accounts held s → Accounts held (acquire_done s ch).0
unfolding acquire_done
acquire_done-Accounts held ch s a = elim (Bool-cases (contains ch s.closed)) [
  | inl e ↦ rw e a
  | inr e ↦ rw e (record { counted = a.counted; within = a.within })
]

Step-Accounts : {s t : Session} → Step s t → Accounts s.held s.sem → Accounts t.held t.sem
Step-Accounts (acquires s n ch) a = (acquire-Accounts s.held n ch s.sem a).1
Step-Accounts (cancels s ch) a = acquire_done-Accounts s.held ch s.sem a
Step-Accounts (releases s n le) a = (release-Accounts s.held n s.sem a le).0

reach-Accounts : {s t : Session} → Accounts s.held s.sem → Reach s t → Accounts t.held t.sem
reach-Accounts a here = a
reach-Accounts a (next r st) = Step-Accounts st (reach-Accounts a r)

start-Accounts : (capacity : ℕ) → Accounts (start capacity).held (start capacity).sem
unfolding start new_mem_semaphore
start-Accounts capacity = record { counted = refl; within = omega arith }

-- After any interleaving of Acquire, cancellation and Release on a new semaphore, where a release
-- gives back no more than is held, the count is exactly what is held, within the capacity.
pub run-Accounts : (capacity : ℕ) {t : Session} → Reach (start capacity) t → Accounts t.held t.sem
run-Accounts capacity r = reach-Accounts (start-Accounts capacity) r

remove_waiter-head : (x : MemWaiter) (xs : List MemWaiter) → remove_waiter x.ch (x ∷ xs) ≡ xs
unfolding remove_waiter
remove_waiter-head x xs = ground arith

-- A cancelled waiter leaves the queue without a look at who is next: if the head is cancelled and
-- the one behind it fits, that one stays blocked, though nothing stands before it.
pub acquire_done_stalls :
    (s : MemSemaphore) (x y : MemWaiter) (ys : List MemWaiter)
    → s.waiters ≡ x ∷ y ∷ ys
    → contains x.ch s.closed ≡ false
    → fits s.capacity s.cur y.n ≡ true
    → ((acquire_done s x.ch).0.waiters ≡ y ∷ ys)
      × ((acquire_done s x.ch).0.closed ≡ s.closed)
      × (¬ IsFed (acquire_done s x.ch).0)
unfolding acquire_done
acquire_done_stalls s x y ys e waiting fit =
    rw (waiting, acquire_done) (rest, refl, λ fed. cc (rw rest at fed, fit))
  where
    rest : remove_waiter x.ch s.waiters ≡ y ∷ ys
    rest = rw e (remove_waiter-head x (y ∷ ys))

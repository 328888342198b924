-- ===== src/Pipeline/Window/Waiting.antt =====
-- The waiters of a window: kept in order, and woken as soon as the window reaches them.
use ceph_volsync_plugin.Base.{
  ℕ, ◌+◌, ◌*◌, ◌%◌, ◌≤◌, ◌<◌, ◌≡◌, refl, ap, inl, inr, Bool, false, List, [], ◌∷◌, ◌++◌, All,
  get_or, Bool-cases, arith, ltb, leb, ◌==◌,
}
use ceph_volsync_plugin.Base.Arith.{lt_or_ge}
use ceph_volsync_plugin.Pipeline.Window.{
  u64, sub64, WinWaiter, WindowSemaphore, insert_waiter, remove_waiter, inside, acquire,
  acquire_done, wake_win_waiters, mark, release, contains,
}
use ceph_volsync_plugin.Pipeline.Window.Ring.{insert_id, Holds-insert}
use ceph_volsync_plugin.Pipeline.Window.Tracking.{Tracks, mark-Tracks}

abbrev pub From : ℕ → List WinWaiter → Type 0
From n = All (λ x. (n ≤ x.req_id) × (x.req_id < u64))

abbrev pub Sorted : List WinWaiter → Type 0
Sorted [] = Unit
Sorted (x ∷ xs) = From x.req_id xs × Sorted xs

From-mono : (m n : ℕ) (xs : List WinWaiter) → m ≤ n → From n xs → From m xs
From-mono m n [] h f = tt
From-mono m n (x ∷ xs) h f = ((omega arith, f.0.1), From-mono m n xs h f.1)

From-insert_waiter :
    (n : ℕ) (x : WinWaiter) (xs : List WinWaiter)
    → n ≤ x.req_id
    → x.req_id < u64
    → From n xs
    → From n (insert_waiter x xs)
unfolding insert_waiter
From-insert_waiter n x [] h u f = ((h, u), tt)
From-insert_waiter n x (y ∷ ys) h u f = elim (Bool-cases (ltb y.req_id x.req_id)) [
  | inl e ↦ rw e (f.0, From-insert_waiter n x ys h u f.1)
  | inr e ↦ rw e ((h, u), f)
]

Sorted-insert_waiter :
    (n : ℕ) (x : WinWaiter) (xs : List WinWaiter)
    → x.req_id < u64
    → From n xs
    → Sorted xs
    → Sorted (insert_waiter x xs)
unfolding insert_waiter
Sorted-insert_waiter n x [] u f s = (tt, tt)
Sorted-insert_waiter n x (y ∷ ys) u f s = elim (Bool-cases (ltb y.req_id x.req_id)) [
  | inl e ↦
      rw e (
        From-insert_waiter y.req_id x ys (ground arith) u s.0,
        Sorted-insert_waiter n x ys u f.1 s.1,
      )
  | inr e ↦ rw e (((ground arith, f.0.1), From-mono x.req_id y.req_id ys (ground arith) s.0), s)
]

From-remove_waiter : (n ch : ℕ) (xs : List WinWaiter) → From n xs → From n (remove_waiter ch xs)
unfolding remove_waiter
From-remove_waiter n ch [] f = tt
From-remove_waiter n ch (y ∷ ys) f = elim (Bool-cases (y.ch == ch)) [
  | inl e ↦ rw e f.1
  | inr e ↦ rw e (f.0, From-remove_waiter n ch ys f.1)
]

Sorted-remove_waiter : (ch : ℕ) (xs : List WinWaiter) → Sorted xs → Sorted (remove_waiter ch xs)
unfolding remove_waiter
Sorted-remove_waiter ch [] s = tt
Sorted-remove_waiter ch (y ∷ ys) s = elim (Bool-cases (y.ch == ch)) [
  | inl e ↦ rw e s.1
  | inr e ↦ rw e (From-remove_waiter y.req_id ch ys s.0, Sorted-remove_waiter ch ys s.1)
]

-- Waking takes a prefix of the queue: those that the window has reached, and only those.
pub wake_win_waiters-splits :
    (base limit : ℕ) (xs : List WinWaiter)
    → base + limit ≤ u64
    → From base xs
    → Sorted xs
    → let (woken, kept) = wake_win_waiters base limit xs in
      (woken ++ kept ≡ xs)
      × All (λ x. x.req_id < base + limit) woken
      × From (base + limit) kept
      × Sorted kept
unfolding wake_win_waiters
wake_win_waiters-splits base limit [] room f s = (refl, tt, tt, tt)
wake_win_waiters-splits base limit (x ∷ xs) room f s =
    elim (Bool-cases (leb limit (sub64 x.req_id base))) [
      | inl e ↦
          let far : base + limit ≤ x.req_id = ground arith in
          rw e (refl, tt, ((far, f.0.1), From-mono (base + limit) x.req_id xs far s.0), s)
      | inr e ↦
          let rest = wake_win_waiters-splits base limit xs room f.1 s.1 in
          rw e (ap (◌∷◌ x) rest.0, (ground arith, rest.1), rest.2, rest.3)
    ]

-- Everyone who waits is still ahead of the window: no wake-up has been lost.
pub record Waiting (w : WindowSemaphore) : Type 0 where
  pub sorted : Sorted w.waiters
  pub ahead : From (w.base + w.limit) w.waiters

-- Its `base` cannot pass a number that was not released.
base-le :
    {done : ℕ → Bool} {w : WindowSemaphore} (i : ℕ) → Tracks done w → done i ≡ false → w.base ≤ i
base-le i t h = elim (lt_or_ge i _) [ inl lt ↦ cc (t.ring.below i lt, h) | inr ge ↦ ge ]

mark-Waiting :
    {done : ℕ → Bool} {w : WindowSemaphore} (req : ℕ)
    → w.base ≤ req
    → req < w.base + w.limit
    → w.base + 2 * w.limit + 1 < u64
    → Tracks done w
    → Waiting w
    → Waiting (mark w (req % w.limit))
unfolding mark
mark-Waiting {done} {w} req lo hi room t v = record { sorted = woken.3; ahead = woken.2 }
  where
    done' : ℕ → Bool
    done' = insert_id req done

    base' : ℕ
    base' = (mark w (req % w.limit)).base

    bound : base' ≤ w.base + w.limit
    bound =
        base-le {done = done'} {w = mark w (req % w.limit)} (w.base + w.limit)
          (mark-Tracks req lo hi (omega arith) t).0
          ((Holds-insert req t.pos_limit lo hi t.ring).beyond (w.base + w.limit) (omega arith))

    woken :
        let (g, k) = wake_win_waiters base' w.limit w.waiters in
        (g ++ k ≡ w.waiters)
        × All (λ x. x.req_id < base' + w.limit) g
        × From (base' + w.limit) k
        × Sorted k
    woken =
        wake_win_waiters-splits base' w.limit w.waiters (omega (arith, bound))
          (From-mono base' (w.base + w.limit) w.waiters bound v.ahead) v.sorted

pub release-Waiting :
    {done : ℕ → Bool} {w : WindowSemaphore} (req : ℕ)
    → w.base ≤ req
    → req < w.base + w.limit
    → w.base + 2 * w.limit + 1 < u64
    → Tracks done w
    → Waiting w
    → Waiting (release w req)
unfolding release
release-Waiting {done} {w} req lo hi room t v =
    elim (Bool-cases (get_or w.released (req % w.limit) false)) [
      | inl e ↦ rw e v
      | inr e ↦ rw e (mark-Waiting req lo hi room t v)
    ]

pub acquire-Waiting :
    (w : WindowSemaphore) (req ch : ℕ)
    → w.base ≤ req
    → req < u64
    → w.base + w.limit ≤ u64
    → Waiting w
    → Waiting (acquire w req ch).0
unfolding acquire inside
acquire-Waiting w req ch lo small room v = elim (Bool-cases (inside w req)) [
  | inl e ↦ rw (e, inside) (record { sorted = v.sorted; ahead = v.ahead })
  | inr e ↦
      rw (e, inside)
        (record {
          sorted =
              Sorted-insert_waiter _ (record { req_id = req; ch = ch }) w.waiters small v.ahead
                v.sorted;
          ahead =
              From-insert_waiter _ (record { req_id = req; ch = ch }) w.waiters (ground arith) small
                v.ahead;
        })
]

pub acquire_done-Waiting :
    (w : WindowSemaphore) (ch : ℕ) → Waiting w → Waiting (acquire_done w ch).0
unfolding acquire_done
acquire_done-Waiting w ch v = elim (Bool-cases (contains ch w.closed)) [
  | inl e ↦ rw e v
  | inr e ↦ rw e (record {
    sorted = Sorted-remove_waiter ch w.waiters v.sorted;
    ahead = From-remove_waiter _ ch w.waiters v.ahead;
  })
]

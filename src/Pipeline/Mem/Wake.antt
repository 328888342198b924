-- ===== src/Pipeline/Mem/Wake.antt =====
-- What Release and Acquire do to the queue of waiters.
use ceph_volsync_plugin.Base.{
  ℕ, ◌+◌, ◌≤◌, ◌≡◌, refl, ap, inl, inr, false, List, [], ◌∷◌, ◌++◌, Bool-cases, arith, sym, ◌∙◌,
  leb, leb→le,
}
use ceph_volsync_plugin.Base.Int.{ℤ, pos, ◌+ℤ◌}
use ceph_volsync_plugin.Pipeline.Mem.{MemWaiter, fits, wake_waiters}

abbrev pub weight : List MemWaiter → ℕ
weight [] = 0
weight (x ∷ xs) = x.n + weight xs

-- The waiter at the head does not fit beside `cur`.
abbrev pub IsBlocked : ℕ → ℤ → List MemWaiter → Type 0
IsBlocked capacity cur [] = Unit
IsBlocked capacity cur (x ∷ xs) = fits capacity cur x.n ≡ false

pub pos-add : (h n : ℕ) → pos h +ℤ pos n ≡ pos (h + n)
unfolding ◌+ℤ◌
pos-add h n = ground arith

pub fits-pos : (capacity h n : ℕ) → fits capacity (pos h) n ≡ leb (h + n) capacity
fits-pos capacity h n = rw (pos-add h n) (ground arith)

-- Waking serves the queue in order: a prefix of it is let through, what that prefix asked for is
-- added up, the limit is kept, and whoever is next no longer fits.
pub wake_waiters-splits :
    (capacity h : ℕ) (xs : List MemWaiter)
    → h ≤ capacity
    → let (cur, woken, kept) = wake_waiters capacity (pos h) xs in
      (woken ++ kept ≡ xs)
      × (cur ≡ pos (h + weight woken))
      × (h + weight woken ≤ capacity)
      × IsBlocked capacity cur kept
unfolding wake_waiters
wake_waiters-splits capacity h [] room = (refl, ap pos (omega arith), omega arith, tt)
wake_waiters-splits capacity h (x ∷ xs) room = elim (Bool-cases (fits capacity (pos h) x.n)) [
  | inl e ↦
      let roomy : h + x.n ≤ capacity =
        leb→le (h + x.n) capacity (sym (fits-pos capacity h x.n) ∙ e) in
      let ih = wake_waiters-splits capacity (h + x.n) xs roomy in
      rw (e, pos-add h x.n)
        (ap (◌∷◌ x) ih.0, ih.1 ∙ ap pos (omega arith), omega (arith, ih.2), ih.3)
  | inr e ↦ rw e (refl, ap pos (omega arith), omega arith, e)
]

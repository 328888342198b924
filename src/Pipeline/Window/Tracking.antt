-- ===== src/Pipeline/Window/Tracking.antt =====
-- A window against the set of released requests that it stands for.
use ceph_volsync_plugin.Base.{
  ℕ, suc, ◌+◌, ◌*◌, ◌%◌, ◌≤◌, ◌<◌, ◌≡◌, refl, sym, ◌∙◌, ◌↔◌, inl, inr, Bool, true, false, length,
  set, get_or, length-set, length-replicate, get_or-replicate, Bool-cases, ltb→lt, lt→ltb, arith,
  ◌==◌,
}
use mathlib.Core.Path.{fun_ext}
use ceph_volsync_plugin.Base.Arith.{lt_or_ge}
use ceph_volsync_plugin.Pipeline.Window.{
  u64, WindowSemaphore, new_window_semaphore, acquire, inside, mark, release, is_released,
}
use ceph_volsync_plugin.Pipeline.Window.Ring.{
  Holds, insert_id, count_true-le, advance-Holds, Holds-insert,
}

-- `w` stands for the set `done`: the ring holds it, and `base` is the least request outside it.
pub record Tracks (done : ℕ → Bool) (w : WindowSemaphore) : Type 0 where
  pub pos_limit : 0 < w.limit
  pub ring : Holds done w.limit w.base w.released
  pub next : done w.base ≡ false

pub new-Tracks : (n : ℕ) → 0 < n → Tracks (λ _. false) (new_window_semaphore n)
unfolding new_window_semaphore
new-Tracks n h = record {
  pos_limit = omega arith;
  ring = record {
    slots = length-replicate (2 * n) false;
    below = λ i b. absurd (omega arith);
    within = λ i l u. get_or-replicate (2 * n) (i % (2 * n)) false;
    beyond = λ i b. refl;
  };
  next = refl;
}

pub mark-Tracks :
    {done : ℕ → Bool} {w : WindowSemaphore} (req : ℕ)
    → w.base ≤ req
    → req < w.base + w.limit
    → w.base + w.limit + 1 < u64
    → Tracks done w
    → Tracks (insert_id req done) (mark w (req % w.limit))
      × (w.base ≤ (mark w (req % w.limit)).base)
unfolding mark
mark-Tracks {done} {w} req lo hi room t =
    let marked = set w.released (req % w.limit) true in
    let slots : length w.released ≡ w.limit = t.ring.slots in
    let after =
      advance-Holds {done = insert_id req done} (suc (length w.released)) w.limit w.base marked
        t.pos_limit (omega arith) (Holds-insert req t.pos_limit lo hi t.ring) in
    (
      record {
        pos_limit = t.pos_limit;
        ring = after.0;
        next =
            sym (after.0.within _ (omega arith) (omega (arith, t.pos_limit)))
            ∙ after.2
                (omega (arith, count_true-le marked, length-set w.released (req % w.limit) true));
      },
      after.1,
    )

insert_id_self : (done : ℕ → Bool) (req : ℕ) → done req ≡ true → insert_id req done ≡ done
insert_id_self done req h = fun_ext (λ i. same i)
  where
    same : (i : ℕ) → insert_id req done i ≡ done i
    same i = elim (Bool-cases (i == req)) [
      | inl e ↦ let q : i ≡ req = ground arith in rw (e, q) (sym h)
      | inr e ↦ rw e refl
    ]

-- Release of a request in the window adds that request to the set of released ones, and nothing
-- else, and does not move the window back. The room below 2^64 keeps `base` from wrapping.
pub release-Tracks :
    {done : ℕ → Bool} {w : WindowSemaphore} (req : ℕ)
    → w.base ≤ req
    → req < w.base + w.limit
    → w.base + w.limit + 1 < u64
    → Tracks done w
    → Tracks (insert_id req done) (release w req) × (w.base ≤ (release w req).base)
unfolding release
release-Tracks {done} {w} req lo hi room t =
    elim (Bool-cases (get_or w.released (req % w.limit) false)) [
      | inl e ↦ rw (e, insert_id_self done req (sym (t.ring.within req lo hi) ∙ e)) (t, omega arith)
      | inr e ↦ rw e (mark-Tracks req lo hi room t)
    ]

-- IsReleased answers true exactly if this request and every earlier one have been released.
pub is_released_iff :
    {done : ℕ → Bool} {w : WindowSemaphore} (id : ℕ)
    → Tracks done w
    → (is_released w id ≡ true) ↔ ((j : ℕ) → j ≤ id → done j ≡ true)
unfolding is_released
is_released_iff {done} {w} id t = (
  λ h j le. t.ring.below j (omega (arith, ltb→lt id w.base h)),
  λ all. elim (lt_or_ge id w.base) [
    | inl lt ↦ lt→ltb id w.base lt
    | inr ge ↦ cc (all w.base ge, t.next)
  ],
)

-- Acquire lets a request through at once exactly if it lies in the `limit` numbers from `base`
-- on, and then only counts it; any other joins the waiters. Neither moves the window.
pub acquire_window :
    (w : WindowSemaphore) (req ch : ℕ)
    → w.base + w.limit ≤ u64
    → req < u64
    → (((acquire w req ch).1 ≡ true) ↔ ((w.base ≤ req) × (req < w.base + w.limit)))
      × ((acquire w req ch).0.base ≡ w.base)
      × ((acquire w req ch).0.released ≡ w.released)
unfolding acquire inside
acquire_window w req ch room small = (ground arith, ground arith, ground arith)

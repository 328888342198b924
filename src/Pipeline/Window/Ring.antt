-- ===== src/Pipeline/Window/Ring.antt =====
-- The loop of Release over the ring of slots, against the set of released requests.
use native.Mathlib.Nat.{add-mod_right, mod-lt, mod-eq_of_lt}
use ceph_volsync_plugin.Base.{
  ℕ, zero, suc, ◌+◌, ◌%◌, ◌≤◌, ◌<◌, ◌≡◌, sym, ◌∙◌, inl, inr, Bool, true, false, List, [], ◌∷◌,
  length, set, get_or, length-set, get_or-set_self, get_or-set_ne, Bool-cases, arith, if◌then◌else◌,
  ◌==◌,
}
use ceph_volsync_plugin.Base.Arith.{mod_inj_window, split_last}
use ceph_volsync_plugin.Pipeline.Window.{u64, advance}

-- A ring of `limit` slots from `base` on holds the set `done` of request numbers.
pub record Holds (done : ℕ → Bool) (limit base : ℕ) (released : List Bool) : Type 0 where
  pub slots : length released ≡ limit
  pub below : (i : ℕ) → i < base → done i ≡ true
  pub within : (i : ℕ) → base ≤ i → i < base + limit → get_or released (i % limit) false ≡ done i
  pub beyond : (i : ℕ) → base + limit ≤ i → done i ≡ false

abbrev pub insert_id : ℕ → (ℕ → Bool) → ℕ → Bool
insert_id req done i = if i == req then true else done i

pub count_true : List Bool → ℕ
count_true [] = 0
count_true (true ∷ bs) = suc (count_true bs)
count_true (false ∷ bs) = count_true bs

pub count_true-le : (bs : List Bool) → count_true bs ≤ length bs
unfolding count_true
count_true-le [] = omega arith
count_true-le (true ∷ bs) = omega (arith, count_true-le bs)
count_true-le (false ∷ bs) = omega (arith, count_true-le bs)

count_true-set :
    (bs : List Bool) (i : ℕ)
    → get_or bs i false ≡ true
    → count_true bs ≡ suc (count_true (set bs i false))
unfolding count_true
count_true-set [] i h = cc
count_true-set (b ∷ bs) zero h = ground arith
count_true-set (true ∷ bs) (suc i) h = omega (arith, count_true-set bs i h)
count_true-set (false ∷ bs) (suc i) h = omega (arith, count_true-set bs i h)

-- One round of the loop.
Holds-step :
    {done : ℕ → Bool} {limit base : ℕ} {released : List Bool}
    → 0 < limit
    → Holds done limit base released
    → get_or released (base % limit) false ≡ true
    → Holds done limit (base + 1) (set released (base % limit) false)
Holds-step {done} {limit} {base} {released} pos h e = record {
  slots = length-set released (base % limit) false ∙ h.slots;
  below = below';
  within = within';
  beyond = λ i hi. h.beyond i (omega arith);
}
  where
    below' : (i : ℕ) → i < base + 1 → done i ≡ true
    below' i hi = elim (split_last i base hi) [
      | inl lt ↦ h.below i lt
      | inr eq ↦ rw eq (sym (h.within base (omega arith) (omega arith)) ∙ e)
    ]

    within' :
        (i : ℕ)
        → base + 1 ≤ i
        → i < base + 1 + limit
        → get_or (set released (base % limit) false) (i % limit) false ≡ done i
    within' i lo hi = elim (split_last i (base + limit) (omega arith)) [
      | inl lt ↦
          get_or-set_ne released (base % limit) (i % limit) false false (λ q. absurd (
            omega (
              arith,
              mod_inj_window limit base base i (omega arith) (omega arith) (omega arith) lt q,
            )))
          ∙ h.within i (omega arith) lt
      | inr eq ↦
          rw (eq, add-mod_right base limit)
            (get_or-set_self released (base % limit) false false
                (omega (arith, h.slots, mod-lt base pos))
              ∙ sym (h.beyond (base + limit) (omega arith)))
    ]

-- The loop keeps the set, moves `base` forward, and with fuel above the number of marked slots
-- it ends by its own test.
pub advance-Holds :
    {done : ℕ → Bool} (fuel limit base : ℕ) (released : List Bool)
    → 0 < limit
    → base + fuel < u64
    → Holds done limit base released
    → let (b, r) = advance fuel limit base released in
      Holds done limit b r
      × (base ≤ b)
      × (count_true released < fuel → get_or r (b % limit) false ≡ false)
unfolding advance
advance-Holds zero limit base released pos h v = (v, omega arith, λ f. absurd (omega arith))
advance-Holds {done} (suc fuel) limit base released pos h v =
    elim (Bool-cases (get_or released (base % limit) false)) [
      | inl e ↦
          let ih =
            advance-Holds fuel limit (base + 1) (set released (base % limit) false) pos
              (omega arith) (Holds-step pos v e) in
          rw (e, advance, mod-eq_of_lt {n = base + 1} {m = u64} (omega arith))
            (
              ih.0,
              omega (arith, ih.1),
              λ f. ih.2 (omega (arith, count_true-set released (base % limit) e)),
            )
      | inr e ↦ rw (e, advance) (v, omega arith, λ f. e)
    ]

-- Marking a request of the window adds it to the set.
pub Holds-insert :
    {done : ℕ → Bool} {limit base : ℕ} {released : List Bool} (req : ℕ)
    → 0 < limit
    → base ≤ req
    → req < base + limit
    → Holds done limit base released
    → Holds (insert_id req done) limit base (set released (req % limit) true)
Holds-insert {done} {limit} {base} {released} req pos lo hi h = record {
  slots = length-set released (req % limit) true ∙ h.slots;
  below = λ i b. ground (arith, h.below i b);
  within = within';
  beyond = λ i b. ground (arith, h.beyond i b);
}
  where
    within' :
        (i : ℕ)
        → base ≤ i
        → i < base + limit
        → get_or (set released (req % limit) true) (i % limit) false ≡ insert_id req done i
    within' i l u = elim (Bool-cases (i == req)) [
      | inl e ↦
          let q : i ≡ req = ground arith in
          rw (e, q)
            (get_or-set_self released (req % limit) true false
              (omega (arith, h.slots, mod-lt req pos)))
      | inr e ↦ rw e (
          get_or-set_ne released (req % limit) (i % limit) true false (λ q. absurd (apart e q))
          ∙ h.within i l u)
    ]
      where
        apart : (i == req) ≡ false → req % limit ≡ i % limit → ⊥
        apart e q = ground (arith, mod_inj_window limit base req i lo hi l u q)

-- ===== src/Base/Arith.antt =====
-- Remainders modulo an unknown number.
use native.Mathlib.Nat.{div-add-mod}
use ceph_volsync_plugin.Base.{ℕ, ◌+◌, ◌*◌, ◌/◌, ◌%◌, ◌≤◌, ◌<◌, ◌≡◌, ◌⊎◌, inl, inr, arith}

mul_step : (n p q : ℕ) → p < q → n * p + n ≤ n * q
mul_step n p q h = grind arith

order : (p q : ℕ) → (p < q) ⊎ ((q < p) ⊎ (p ≡ q))
order p q = omega arith

-- Two multiples of `n` that are less than `n` apart, up to their remainders, are one.
quotients_meet :
    (n p q i j r : ℕ) → n * p + r ≡ i → n * q + r ≡ j → i < j + n → j < i + n → n * p ≡ n * q
quotients_meet n p q i j r ei ej ij ji = elim (order p q) [
  | inl lt ↦ omega (arith, mul_step n p q lt)
  | inr (inl gt) ↦ omega (arith, mul_step n q p gt)
  | inr (inr eq) ↦ rw eq
]

-- Within a stretch of `n` numbers a remainder modulo `n` stands for one number.
pub mod_inj_window : (n a i j : ℕ) → a ≤ i → i < a + n → a ≤ j → j < a + n → i % n ≡ j % n → i ≡ j
mod_inj_window n a i j ai ian aj jan e = omega (
  arith,
  div-add-mod i n,
  div-add-mod j n,
  quotients_meet n (i / n) (j / n) i j (i % n) (div-add-mod i n) (omega (arith, div-add-mod j n))
      (omega arith) (omega arith),
)

pub split_last : (i n : ℕ) → i < n + 1 → (i < n) ⊎ (i ≡ n)
split_last i n h = omega arith

pub lt_or_ge : (a b : ℕ) → (a < b) ⊎ (b ≤ a)
lt_or_ge a b = omega arith

-- ===== src/Ceph/ConnPool/Users.antt =====
-- The counts of a pool against the references that its clients hold.
use ceph_volsync_plugin.Base.{
  ℕ, ◌+◌, ◌-◌, ◌<◌, ◌≡◌, ◌≢◌, sym, ap, ◌∙◌, ◌⊎◌, inl, inr, true, false, List, [], ◌∷◌, All,
  Bool-cases, ◌==◌, arith, if◌then◌else◌,
}
use ceph_volsync_plugin.Base.Int.{pos}
use ceph_volsync_plugin.Ceph.ConnPool.{ConnEntry, ConnPool, update}

-- The connection is in the pool.
abbrev pub InPool : ℕ → List ConnEntry → Type 0
InPool c [] = ⊥
InPool c (e ∷ es) = (e.conn ≡ c) ⊎ InPool c es

abbrev pub Absent : ℕ → List ConnEntry → Type 0
Absent c = All (λ e. e.conn ≢ c)

abbrev pub Distinct : List ConnEntry → Type 0
Distinct [] = Unit
Distinct (e ∷ es) = Absent e.conn es × Distinct es

-- Each entry counts the references to its connection.
abbrev pub Counted : (ℕ → ℕ) → List ConnEntry → Type 0
Counted refs = All (λ e. e.users ≡ pos (refs e.conn))

-- One reference more, and one less.
abbrev pub more : ℕ → (ℕ → ℕ) → ℕ → ℕ
more c refs i = if i == c then refs i + 1 else refs i

abbrev pub less : ℕ → (ℕ → ℕ) → ℕ → ℕ
less c refs i = if i == c then refs i - 1 else refs i

pub record Counts (refs : ℕ → ℕ) (p : ConnPool) : Type 0 where
  pub counted : Counted refs p.conns
  pub distinct : Distinct p.conns
  pub present : (c : ℕ) → 0 < refs c → InPool c p.conns

-- A change of the references to a connection that is not among the entries.
pub Counted-other :
    (refs refs' : ℕ → ℕ) (c : ℕ) (es : List ConnEntry)
    → ((i : ℕ) → i ≢ c → refs' i ≡ refs i)
    → Absent c es
    → Counted refs es
    → Counted refs' es
Counted-other refs refs' c [] same a k = tt
Counted-other refs refs' c (e ∷ es) same a k =
    (k.0 ∙ ap pos (sym (same e.conn a.0)), Counted-other refs refs' c es same a.1 k.1)

pub more-other : (c : ℕ) (refs : ℕ → ℕ) (i : ℕ) → i ≢ c → more c refs i ≡ refs i
more-other c refs i n = ground arith

pub less-other : (c : ℕ) (refs : ℕ → ℕ) (i : ℕ) → i ≢ c → less c refs i ≡ refs i
less-other c refs i n = ground arith

pub more_self : (c : ℕ) (refs : ℕ → ℕ) → more c refs c ≡ refs c + 1
more_self c refs = ground arith

pub less_self : (c : ℕ) (refs : ℕ → ℕ) → less c refs c ≡ refs c - 1
less_self c refs = ground arith

same_conn : (a c : ℕ) → (a == c) ≡ true → a ≡ c
same_conn a c h = ground arith

other_conn : (a c : ℕ) → (a == c) ≡ false → a ≢ c
other_conn a c h = λ e. ground arith

-- The entry of `c` is changed in step with the references.
module _ (f : ConnEntry → ConnEntry) (same : (e : ConnEntry) → (f e).conn ≡ e.conn) where
  pub update-Absent : (c d : ℕ) (es : List ConnEntry) → Absent d es → Absent d (update f c es)
  unfolding update
  update-Absent c d [] a = tt
  update-Absent c d (e ∷ es) a = elim (Bool-cases (e.conn == c)) [
    | inl h ↦ rw h ((λ g. a.0 (sym (same e) ∙ g)), a.1)
    | inr h ↦ rw h (a.0, update-Absent c d es a.1)
  ]

  pub update-Distinct : (c : ℕ) (es : List ConnEntry) → Distinct es → Distinct (update f c es)
  unfolding update
  update-Distinct c [] d = tt
  update-Distinct c (e ∷ es) d = elim (Bool-cases (e.conn == c)) [
    | inl h ↦ rw (h, same e) d
    | inr h ↦ rw h (update-Absent c e.conn es d.0, update-Distinct c es d.1)
  ]

  pub update-InPool : (c d : ℕ) (es : List ConnEntry) → InPool d es → InPool d (update f c es)
  unfolding update
  update-InPool c d [] h = h
  update-InPool c d (e ∷ es) h = elim (Bool-cases (e.conn == c)) [
    | inl k ↦ rw (k, same e) h
    | inr k ↦ rw k (elim h [ inl g ↦ inl g | inr g ↦ inr (update-InPool c d es g) ])
  ]

  pub update-Counted :
      (refs refs' : ℕ → ℕ) (c : ℕ) (es : List ConnEntry)
      → ((i : ℕ) → i ≢ c → refs' i ≡ refs i)
      → ((e : ConnEntry) → e.users ≡ pos (refs c) → (f e).users ≡ pos (refs' c))
      → Distinct es
      → Counted refs es
      → Counted refs' (update f c es)
  unfolding update
  update-Counted refs refs' c [] others own d k = tt
  update-Counted refs refs' c (e ∷ es) others own d k = elim (Bool-cases (e.conn == c)) [
    | inl h ↦
        let at_c : e.conn ≡ c = same_conn e.conn c h in
        rw h (
          own e (k.0 ∙ ap (λ i. pos (refs i)) at_c) ∙ ap (λ i. pos (refs' i)) (sym (same e ∙ at_c)),
          Counted-other refs refs' c es others (rw at_c at d.0) k.1,
        )
    | inr h ↦ rw h (
      k.0 ∙ ap pos (sym (others e.conn (other_conn e.conn c h))),
      update-Counted refs refs' c es others own d.1 k.1,
    )
  ]

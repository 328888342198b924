-- ===== src/Mover/Snapshots/Latest.antt =====
-- Which of the previous snapshots is kept.
use ceph_volsync_plugin.Base.{
  ℕ, zero, suc, ◌+◌, ◌≤◌, ◌≡◌, refl, sym, ap, ◌∙◌, inl, inr, List, [], ◌∷◌, ◌++◌, some, length,
  length-append, get_elem?, All, All-append, append-nil, append_assoc, ltb, arith, Bool-cases,
}
use ceph_volsync_plugin.Mover.Snapshots.{Snapshot, latest_loop, latest_snap_index}

-- The index of a snapshot of the list than which none is younger.
pub record IsLatest (ss : List Snapshot) (index : ℕ) : Type 0 where
  pub snap : Snapshot
  pub at_index : get_elem? ss index ≡ some snap
  pub most : All (λ s. s.created ≤ snap.created) ss

get_elem?-append :
    (xs ys : List Snapshot) (i : ℕ) {x : Snapshot}
    → get_elem? xs i ≡ some x
    → get_elem? (xs ++ ys) i ≡ some x
get_elem?-append [] ys i h = absurd (cc)
get_elem?-append (x ∷ xs) ys zero h = h
get_elem?-append (x ∷ xs) ys (suc i) h = get_elem?-append xs ys i h

get_elem?-last : (xs : List Snapshot) (x : Snapshot) → get_elem? (xs ++ x ∷ []) (length xs) ≡ some x
get_elem?-last [] x = refl
get_elem?-last (y ∷ xs) x = get_elem?-last xs x

All-le :
    (xs : List Snapshot) (a b : ℕ)
    → a ≤ b
    → All (λ s. s.created ≤ a) xs
    → All (λ s. s.created ≤ b) xs
All-le [] a b h k = tt
All-le (x ∷ xs) a b h (k, ks) = (omega (arith, h, k), All-le xs a b h ks)

latest_loop-IsLatest :
    (seen rest : List Snapshot) (i index : ℕ) (m : Snapshot)
    → length seen ≡ i
    → get_elem? seen index ≡ some m
    → All (λ s. s.created ≤ m.created) seen
    → IsLatest (seen ++ rest) (latest_loop i index m.created rest)
unfolding latest_loop
latest_loop-IsLatest seen [] i index m l e h = record {
  snap = m;
  at_index = rw (append-nil seen) e;
  most = rw (append-nil seen) h;
}
latest_loop-IsLatest seen (s ∷ rest) i index m l e h =
    let longer : length (seen ++ s ∷ []) ≡ i + 1 = omega (arith, l, length-append seen (s ∷ [])) in
    elim (Bool-cases (ltb m.created s.created)) [
      | inl k ↦
          let next =
            latest_loop-IsLatest (seen ++ s ∷ []) rest (i + 1) i s longer
              (ap (get_elem? (seen ++ s ∷ [])) (sym l) ∙ get_elem?-last seen s)
              (All-append (λ x. x.created ≤ s.created) seen (s ∷ [])
                (All-le seen m.created s.created (ground (arith, k)) h) (omega arith, tt)) in
          simp k (rw (append_assoc seen (s ∷ []) rest) at next)
      | inr k ↦
          let next =
            latest_loop-IsLatest (seen ++ s ∷ []) rest (i + 1) index m longer
              (get_elem?-append seen (s ∷ []) index e)
              (All-append (λ x. x.created ≤ m.created) seen (s ∷ []) h (ground (arith, k), tt)) in
          simp k (rw (append_assoc seen (s ∷ []) rest) at next)
    ]

-- The snapshot that the rotation keeps is one of those labelled as previous, and none of them is
-- younger.
pub latest_snap_index-IsLatest :
    (s : Snapshot) (ss : List Snapshot) → IsLatest (s ∷ ss) (latest_snap_index (s ∷ ss))
unfolding latest_snap_index
latest_snap_index-IsLatest s ss = latest_loop-IsLatest (s ∷ []) ss 1 0 s refl refl (omega arith, tt)

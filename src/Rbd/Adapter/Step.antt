-- ===== src/Rbd/Adapter/Step.antt =====
-- One call of Next on a full diff.
use ceph_volsync_plugin.Base.{
  ℕ, ◌+◌, ◌≤◌, ◌<◌, ◌≡◌, refl, ◌⊎◌, inl, inr, Bool, true, false, ◌&&◌, List, [], ◌∷◌, Bool-cases,
  ltb, ltb→lt, le→ltb, arith, if◌then◌else◌,
}
use ceph_volsync_plugin.Pipeline.Window.{u64}
use ceph_volsync_plugin.Rbd.Adapter.{
  DiffBlock, Adapter, take_pending, end_of_diff, gap_before, load_loop, load_next,
}

-- Extents in ascending order from `lo` on, none empty, none past `total`, as an RBD diff gives
-- them.
abbrev pub Ascending : ℕ → ℕ → List DiffBlock → Type 0
Ascending lo total [] = lo ≤ total
Ascending lo total (e ∷ es) = (lo ≤ e.offset) × (0 < e.len) × Ascending (e.offset + e.len) total es

-- The position `x` lies in an extent.
abbrev pub Covered : ℕ → List DiffBlock → Type 0
Covered x [] = ⊥
Covered x (e ∷ es) = ((e.offset ≤ x) × (x < e.offset + e.len)) ⊎ Covered x es

pub Ascending-le : (lo total : ℕ) (es : List DiffBlock) → Ascending lo total es → lo ≤ total
Ascending-le lo total [] h = h
Ascending-le lo total (e ∷ es) h = omega (arith, Ascending-le (e.offset + e.len) total es h.2)

pub Covered-ge :
    (lo total x : ℕ) (es : List DiffBlock) → Ascending lo total es → Covered x es → lo ≤ x
Covered-ge lo total x [] h c = absurd c
Covered-ge lo total x (e ∷ es) h (inl c) = omega arith
Covered-ge lo total x (e ∷ es) h (inr c) =
    omega (arith, Covered-ge (e.offset + e.len) total x es h.2 c)

-- `src` is zero from `lo` on up to `hi`, and outside the extents.
abbrev pub ZeroIn : (ℕ → ℕ) → ℕ → ℕ → Type 0
ZeroIn src lo hi = (x : ℕ) → lo ≤ x → x < hi → src x ≡ 0

abbrev pub ZeroOutside : (ℕ → ℕ) → ℕ → ℕ → List DiffBlock → Type 0
ZeroOutside src lo hi es = (x : ℕ) → lo ≤ x → x < hi → ¬ Covered x es → src x ≡ 0

-- Where the adapter stands once its remainder is used up, and once its pending extent is too.
abbrev pub after_rem : Adapter → ℕ
after_rem a = if a.has_rem then a.rem_offset + a.rem_len else a.current_pos

abbrev pub after_pending : Adapter → ℕ
after_pending a = if a.has_pending then a.pending_offset + a.pending_len else after_rem a

-- A remainder starts at the position reached, and is not empty; a pending extent starts where
-- the remainder ends; the extents follow; and what is, or will be, a zero block is zero in `src`.
pub record Ready (src : ℕ → ℕ) (a : Adapter) : Type 0 where
  pub full : a.is_full_diff ≡ true
  pub small : a.total_size < u64
  pub numbered : a.req_id ≤ a.current_pos
  pub rem_start : a.has_rem ≡ true → (a.rem_offset ≡ a.current_pos) × (0 < a.rem_len)
  pub pending_start : a.has_pending ≡ true → (a.pending_offset ≡ after_rem a) × (0 < a.pending_len)
  pub ascending : Ascending (after_pending a) a.total_size a.extents
  pub ended : a.iter_done ≡ true → (after_pending a ≡ a.total_size) × (a.extents ≡ [])
  pub zero_rem : a.has_rem ≡ true → a.rem_is_zero ≡ true → ZeroIn src a.rem_offset (after_rem a)
  pub zero_gaps : ZeroOutside src (after_pending a) a.total_size a.extents

-- What a load leaves alone.
pub record Same (a b : Adapter) : Type 0 where
  pub pos : b.current_pos ≡ a.current_pos
  pub id : b.req_id ≡ a.req_id
  pub chunk : b.chunk_size ≡ a.chunk_size
  pub total : b.total_size ≡ a.total_size

-- Either there is a remainder to emit, or the device has been walked to its end.
abbrev pub Loaded : (ℕ → ℕ) → Adapter → Adapter × Bool → Type 0
Loaded src a (b, ok) =
    ((ok ≡ true) × Ready src b × (b.has_rem ≡ true) × Same a b)
    ⊎ ((ok ≡ false) × (a.current_pos ≡ a.total_size))

take_pending-Loaded :
    (src : ℕ → ℕ) (a : Adapter)
    → Ready src a
    → a.has_rem ≡ false
    → a.has_pending ≡ true
    → Loaded src a (take_pending a, true)
unfolding take_pending
take_pending-Loaded src a r no_rem p = inl (
  refl,
  record {
    full = r.full;
    small = r.small;
    numbered = r.numbered;
    rem_start = λ _. ground (arith, r.pending_start p);
    pending_start = λ h. cc;
    ascending = rw p at r.ascending;
    ended = λ h. rw p at (r.ended h);
    zero_rem = λ _ h. cc;
    zero_gaps = rw p at r.zero_gaps;
  },
  refl,
  record { pos = refl; id = refl; chunk = refl; total = refl },
)

module _ (src : ℕ → ℕ) (a : Adapter) (r : Ready src a) (no_rem : a.has_rem ≡ false) where
  gap-Loaded :
      (e : DiffBlock) (es : List DiffBlock)
      → a.has_pending ≡ false
      → a.iter_done ≡ false
      → a.extents ≡ e ∷ es
      → a.current_pos < e.offset
      → Loaded src a (gap_before (record a { extents = es }) e, true)
  unfolding gap_before
  gap-Loaded e es no_pending running q lt = inl (
    refl,
    record {
      full = r.full;
      small = r.small;
      numbered = r.numbered;
      rem_start = λ _. (refl, omega arith);
      pending_start = λ _. (omega arith, (ascends).1);
      ascending = (ascends).2;
      ended = λ h. cc;
      zero_rem = λ _ _ x lo hi. zero x lo (omega (arith, room)) (outside x (omega arith));
      zero_gaps = λ x lo hi nc. zero x (omega (arith, ascends.0)) hi (beyond x lo nc);
    },
    refl,
    record { pos = refl; id = refl; chunk = refl; total = refl },
  )
    where
      ascends : Ascending a.current_pos a.total_size (e ∷ es)
      ascends = rw (no_pending, no_rem, q) at r.ascending

      zero : ZeroOutside src a.current_pos a.total_size (e ∷ es)
      zero = rw (no_pending, no_rem, q) at r.zero_gaps

      room : e.offset + e.len ≤ a.total_size
      room = Ascending-le (e.offset + e.len) a.total_size es ascends.2

      outside : (x : ℕ) → x < e.offset → ¬ Covered x (e ∷ es)
      outside x below (inl h) = absurd (omega arith)
      outside x below (inr h) =
          absurd (omega (arith, Covered-ge (e.offset + e.len) a.total_size x es ascends.2 h))

      beyond : (x : ℕ) → e.offset + e.len ≤ x → ¬ Covered x es → ¬ Covered x (e ∷ es)
      beyond x lo nc (inl h) = absurd (omega arith)
      beyond x lo nc (inr h) = nc h

  direct-Loaded :
      (e : DiffBlock) (es : List DiffBlock)
      → a.has_pending ≡ false
      → a.iter_done ≡ false
      → a.extents ≡ e ∷ es
      → e.offset ≡ a.current_pos
      → Loaded src a (
        record a {
          extents = es;
          rem_offset = e.offset;
          rem_len = e.len;
          rem_is_zero = false;
          has_rem = true;
        },
        true,
      )
  direct-Loaded e es no_pending running q here = inl (
    refl,
    record {
      full = r.full;
      small = r.small;
      numbered = r.numbered;
      rem_start = λ _. (here, ascends.1);
      pending_start = λ h. cc;
      ascending = rw no_pending ascends.2;
      ended = λ h. cc;
      zero_rem = λ _ h. cc;
      zero_gaps = rw no_pending (λ x lo hi nc. zero x (omega (arith, here)) hi (beyond x lo nc));
    },
    refl,
    record { pos = refl; id = refl; chunk = refl; total = refl },
  )
    where
      ascends : Ascending a.current_pos a.total_size (e ∷ es)
      ascends = rw (no_pending, no_rem, q) at r.ascending

      zero : ZeroOutside src a.current_pos a.total_size (e ∷ es)
      zero = rw (no_pending, no_rem, q) at r.zero_gaps

      beyond : (x : ℕ) → e.offset + e.len ≤ x → ¬ Covered x es → ¬ Covered x (e ∷ es)
      beyond x lo nc (inl h) = absurd (omega arith)
      beyond x lo nc (inr h) = nc h

  end-Loaded :
      a.has_pending ≡ false
      → a.extents ≡ []
      → Loaded src a (end_of_diff (record a { extents = []; iter_done = true }))
  unfolding end_of_diff
  end-Loaded no_pending q = elim (Bool-cases (ltb a.current_pos a.total_size)) [
    | inl e ↦
        let test : (a.is_full_diff && ltb a.current_pos a.total_size) ≡ true = rw r.full e in
        rw test (
          inl (
            refl,
            record {
              full = r.full;
              small = r.small;
              numbered = r.numbered;
              rem_start = λ _. (refl, ground arith);
              pending_start = λ h. cc;
              ascending = rw no_pending (ground arith);
              ended = λ _. (rw no_pending (ground arith), refl);
              zero_rem = λ _ _ x lo hi. zero x lo (ground arith) (λ c. c);
              zero_gaps = rw no_pending (λ x lo hi. absurd (ground arith));
            },
            refl,
            record { pos = refl; id = refl; chunk = refl; total = refl },
          ))
    | inr e ↦
        let test : (a.is_full_diff && ltb a.current_pos a.total_size) ≡ false = rw r.full e in
        rw test (inr (refl, ground (arith, ascends)))
  ]
    where
      ascends : a.current_pos ≤ a.total_size
      ascends = rw (no_pending, no_rem, q) at r.ascending

      zero : ZeroOutside src a.current_pos a.total_size []
      zero = rw (no_pending, no_rem, q) at r.zero_gaps

  loop-Loaded :
      (es : List DiffBlock)
      → a.has_pending ≡ false
      → a.iter_done ≡ false
      → a.extents ≡ es
      → Loaded src a (load_loop es a)
  unfolding load_loop
  loop-Loaded [] no_pending running q = end-Loaded no_pending q
  loop-Loaded (e ∷ es) no_pending running q = elim (Bool-cases (ltb a.current_pos e.offset)) [
    | inl gap ↦
        let test : (a.is_full_diff && ltb a.current_pos e.offset) ≡ true = rw r.full gap in
        rw test (gap-Loaded e es no_pending running q (ltb→lt _ _ gap))
    | inr none_before ↦
        let here : e.offset ≡ a.current_pos = ground (arith, starts e es no_pending q) in
        let test : (a.is_full_diff && ltb a.current_pos e.offset) ≡ false = rw r.full none_before in
        rw (test, le→ltb e.offset a.current_pos (omega (arith, here)))
          (direct-Loaded e es no_pending running q here)
  ]
    where
      starts :
          (e : DiffBlock) (es : List DiffBlock)
          → a.has_pending ≡ false
          → a.extents ≡ e ∷ es
          → a.current_pos ≤ e.offset
      starts e es no_pending q = (ascends).0
        where
          ascends : Ascending a.current_pos a.total_size (e ∷ es)
          ascends = rw (no_pending, no_rem, q) at r.ascending

  pub load_next-Loaded : Loaded src a (load_next a)
  unfolding load_next
  load_next-Loaded = elim (Bool-cases a.has_pending) [
    | inl p ↦ simp p (take_pending-Loaded src a r no_rem p)
    | inr np ↦ elim (Bool-cases a.iter_done) [
      | inl d ↦
          let stop : a.current_pos ≡ a.total_size = rw (np, no_rem) at (r.ended d).0 in
          simp (np, d) (inr (refl, stop))
      | inr nd ↦ simp (np, nd) (loop-Loaded a.extents np nd refl)
    ]
  ]

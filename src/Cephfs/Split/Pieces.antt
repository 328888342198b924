-- ===== src/Cephfs/Split/Pieces.antt =====
-- The pieces of a block that is too large.
use ceph_volsync_plugin.Base.{
  ℕ, zero, suc, ◌+◌, ◌-◌, ◌≤◌, ◌<◌, ◌≡◌, refl, sym, ap, ◌∙◌, inl, inr, true, false, List, [], ◌∷◌,
  ◌++◌, append-nil, append_assoc, Bool-cases, ltb, arith, if◌then◌else◌,
}
use ceph_volsync_plugin.Base.{length, length-append, get_or, leb}
use ceph_volsync_plugin.Cephfs.Split.{split_loop, split_large_blocks, needs_split, no_block}
use ceph_volsync_plugin.Base.Arith.{lt_or_ge}
use ceph_volsync_plugin.Cephfs.Split.{ChangedBlock, Out, append, piece_len, split_block}

-- The pieces that the documentation promises, on fuel.
pub pieces : ℕ → ℕ → ℕ → ℕ → List ChangedBlock
pieces zero max_len off remaining = []
pieces (suc fuel) max_len off remaining =
    let l = piece_len max_len remaining in
    let rest = pieces fuel max_len (off + l) (remaining - l) in
    if ltb 0 remaining then record { offset = off; len = l } ∷ rest else []

abbrev pub pieces_of : ℕ → ChangedBlock → List ChangedBlock
pieces_of max_len b = pieces b.len max_len b.offset b.len

-- Blocks that lie end to end from `lo` to `hi`, none empty and none above `max_len`.
abbrev pub Spans : ℕ → ℕ → ℕ → List ChangedBlock → Type 0
Spans max_len lo hi [] = lo ≡ hi
Spans max_len lo hi (b ∷ bs) =
    (b.offset ≡ lo) × (0 < b.len) × (b.len ≤ max_len) × Spans max_len (b.offset + b.len) hi bs

piece_len_bounds :
    (max_len remaining : ℕ)
    → 0 < max_len
    → 0 < remaining
    → (0 < piece_len max_len remaining)
      × (piece_len max_len remaining ≤ max_len)
      × (piece_len max_len remaining ≤ remaining)
piece_len_bounds max_len remaining h r = ground arith

no_more : (remaining : ℕ) → remaining ≤ 0 → ltb 0 remaining ≡ false
no_more remaining h = ground arith

some_more : (remaining : ℕ) → 0 < remaining → ltb 0 remaining ≡ true
some_more remaining h = ground arith

pieces-Spans_fuel :
    (fuel max_len off remaining : ℕ)
    → 0 < max_len
    → remaining ≤ fuel
    → Spans max_len off (off + remaining) (pieces fuel max_len off remaining)
unfolding pieces
pieces-Spans_fuel zero max_len off remaining h le = omega arith
pieces-Spans_fuel (suc fuel) max_len off remaining h le = elim (lt_or_ge 0 remaining) [
  | inr e ↦ simp (no_more remaining e) (omega arith)
  | inl r ↦
      let bounds = piece_len_bounds max_len remaining h r in
      let rest =
        pieces-Spans_fuel fuel max_len (off + piece_len max_len remaining)
          (remaining - piece_len max_len remaining) h (omega (arith, bounds)) in
      simp (some_more remaining r) (refl, bounds.0, bounds.1, rw (ends bounds.2) at rest)
]
  where
    ends :
        piece_len max_len remaining ≤ remaining
        → off + piece_len max_len remaining + (remaining - piece_len max_len remaining)
          ≡ off + remaining
    ends h = omega arith

-- The pieces of a block lie end to end over exactly that block, none empty and none above the
-- limit.
pub pieces_of-Spans :
    (max_len : ℕ) (b : ChangedBlock)
    → 0 < max_len
    → Spans max_len b.offset (b.offset + b.len) (pieces_of max_len b)
pieces_of-Spans max_len b h = pieces-Spans_fuel b.len max_len b.offset b.len h (omega arith)

pub split_block-out :
    (fuel cap max_len off remaining : ℕ) (s : Out)
    → (split_block fuel cap max_len off remaining s).out
      ≡ s.out ++ pieces fuel max_len off remaining
unfolding split_block pieces append
split_block-out zero cap max_len off remaining s = sym (append-nil s.out)
split_block-out (suc fuel) cap max_len off remaining s = elim (Bool-cases (ltb 0 remaining)) [
  | inr e ↦ simp e (sym (append-nil s.out))
  | inl e ↦
      let l = piece_len max_len remaining in
      let p : ChangedBlock = record { offset = off; len = l } in
      simp e (
        split_block-out fuel cap max_len (off + l) (remaining - l) (append cap s p)
        ∙ append_assoc s.out (p ∷ []) (pieces fuel max_len (off + l) (remaining - l)))
]

pieces-some :
    (fuel max_len off remaining : ℕ)
    → 0 < fuel
    → 0 < remaining
    → 0 < length (pieces fuel max_len off remaining)
unfolding pieces
pieces-some zero max_len off remaining f r = absurd (omega arith)
pieces-some (suc fuel) max_len off remaining f r = simp (some_more remaining r) (omega arith)

-- A round of the range loop adds a block to the result.
step_grows :
    (cap max_len : ℕ) (s : Out) (b : ChangedBlock)
    → length s.out
      < length
          (if leb b.len max_len
            then append cap s b
            else split_block b.len cap max_len b.offset b.len s).out
unfolding append
step_grows cap max_len s b = elim (Bool-cases (leb b.len max_len)) [
  | inl e ↦ simp e (omega (arith, length-append s.out (b ∷ [])))
  | inr e ↦
      let large : max_len < b.len = ground arith in
      simp e (
        omega (
          arith,
          ap length (split_block-out b.len cap max_len b.offset b.len s),
          length-append s.out (pieces b.len max_len b.offset b.len),
          pieces-some b.len max_len b.offset b.len (omega arith) (omega arith),
        ))
]

split_loop-grows :
    (count i cap max_len : ℕ) (s : Out)
    → length s.out ≤ length (split_loop count i cap max_len s).out
unfolding split_loop
split_loop-grows zero i cap max_len s = omega arith
split_loop-grows (suc count) i cap max_len s =
    let b = get_or s.array i no_block in
    omega (
      arith,
      step_grows cap max_len s b,
      split_loop-grows count (i + 1) cap max_len (
          if leb b.len max_len
          then append cap s b
          else split_block b.len cap max_len b.offset b.len s),
    )

-- Blocks are split into blocks.
pub split_large_blocks-some :
    (cap max_len : ℕ) (b : ChangedBlock) (bs : List ChangedBlock)
    → 0 < length (split_large_blocks cap max_len (b ∷ bs))
unfolding split_large_blocks split_loop
split_large_blocks-some cap max_len b bs = elim (Bool-cases (needs_split max_len (b ∷ bs))) [
  | inr e ↦ simp e (omega arith)
  | inl e ↦
      let s : Out = record { array = b ∷ bs; out = []; shared = true } in
      simp e (
        omega (
          arith,
          step_grows cap max_len s b,
          split_loop-grows (length bs) 1 cap max_len (
              if leb b.len max_len
              then append cap s b
              else split_block b.len cap max_len b.offset b.len s),
        ))
]

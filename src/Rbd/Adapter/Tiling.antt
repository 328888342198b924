-- ===== src/Rbd/Adapter/Tiling.antt =====
-- The blocks of a full diff cover the device once, from its start to its end.
use ceph_volsync_plugin.Base.{
  ℕ, zero, suc, ◌+◌, ◌≤◌, ◌<◌, ◌≡◌, refl, sym, ◌∙◌, ◌⊎◌, inl, inr, Bool, true, false, List, [], ◌∷◌,
  Option, none, some, Bool-cases, arith,
}
use native.Mathlib.Nat.{mod-eq_of_lt}
use ceph_volsync_plugin.Pipeline.Window.{u64}
use ceph_volsync_plugin.Pipeline.Types.{ChangeBlock}
use ceph_volsync_plugin.Rbd.Adapter.{
  DiffBlock, Adapter, new_adapter, load_next, emit_len, emit_from_remainder, after_load, choose,
  next, drain,
}
use ceph_volsync_plugin.Rbd.Adapter.Step.{
  Ascending, Ascending-le, ZeroIn, ZeroOutside, after_rem, after_pending, Ready, Same, Loaded,
  load_next-Loaded,
}

emit_len_bounds :
    (a : Adapter)
    → 0 < a.chunk_size
    → 0 < a.rem_len
    → (0 < emit_len a) × (emit_len a ≤ a.chunk_size) × (emit_len a ≤ a.rem_len)
unfolding emit_len
emit_len_bounds a c l = ground arith

-- The block that is emitted at the position reached.
record Emitted (src : ℕ → ℕ) (a : Adapter) (b : Adapter) (block : ChangeBlock) : Type 0 where
  offset : block.offset ≡ a.current_pos
  id : block.req_id ≡ a.req_id
  some_len : 0 < block.len
  max_len : block.len ≤ a.chunk_size
  inside : block.offset + block.len ≤ a.total_size
  zeros : block.is_zero ≡ true → ZeroIn src block.offset (block.offset + block.len)
  next_pos : b.current_pos ≡ block.offset + block.len
  next_id : b.req_id ≡ a.req_id + 1
  chunk : b.chunk_size ≡ a.chunk_size
  total : b.total_size ≡ a.total_size
  ready : Ready src b

after_rem-le : {src : ℕ → ℕ} {a : Adapter} → Ready src a → after_rem a ≤ a.total_size
after_rem-le {src} {a} r = elim (Bool-cases a.has_pending) [
  | inl p ↦
      let e : after_pending a ≡ a.pending_offset + a.pending_len = rw p refl in
      omega (arith, e, (r.pending_start p).0, Ascending-le _ _ _ r.ascending)
  | inr n ↦
      let e : after_pending a ≡ after_rem a = rw n refl in
      omega (arith, e, Ascending-le _ _ _ r.ascending)
]

after_rem-emit :
    (a : Adapter)
    → 0 < a.chunk_size
    → 0 < a.rem_len
    → a.has_rem ≡ true
    → after_rem (emit_from_remainder a).0 ≡ after_rem a
unfolding emit_from_remainder
after_rem-emit a c l h = ground (arith, emit_len_bounds a c l)

after_pending-emit :
    (a : Adapter)
    → 0 < a.chunk_size
    → 0 < a.rem_len
    → a.has_rem ≡ true
    → after_pending (emit_from_remainder a).0 ≡ after_pending a
unfolding emit_from_remainder
after_pending-emit a c l h = ground (arith, after_rem-emit a c l h)

emit-rem_start :
    (a : Adapter)
    → (emit_from_remainder a).0.has_rem ≡ true
    → ((emit_from_remainder a).0.rem_offset ≡ (emit_from_remainder a).0.current_pos)
      × (0 < (emit_from_remainder a).0.rem_len)
unfolding emit_from_remainder
emit-rem_start a h = (refl, ground arith)

emit-Ready :
    {src : ℕ → ℕ} {a : Adapter}
    → Ready src a
    → a.has_rem ≡ true
    → 0 < a.chunk_size
    → Ready src (emit_from_remainder a).0
unfolding emit_from_remainder
emit-Ready {src} {a} r h c =
    let start = r.rem_start h in
    let bounds = emit_len_bounds a c start.1 in
    let rem_kept = after_rem-emit a c start.1 h in
    let pending_kept = after_pending-emit a c start.1 h in
    record {
      full = r.full;
      small = r.small;
      numbered = omega (arith, r.numbered, start.0, bounds.0);
      rem_start = emit-rem_start a;
      pending_start = λ p. ((r.pending_start p).0 ∙ sym rem_kept, (r.pending_start p).1);
      ascending = rw pending_kept r.ascending;
      ended = λ d. (pending_kept ∙ (r.ended d).0, (r.ended d).1);
      zero_rem = λ h' z x lo hi. r.zero_rem h z x (omega arith) (omega (arith, rem_kept));
      zero_gaps = rw pending_kept r.zero_gaps;
    }

emit-Emitted :
    {src : ℕ → ℕ} {a : Adapter}
    → Ready src a
    → a.has_rem ≡ true
    → 0 < a.chunk_size
    → Emitted src a (emit_from_remainder a).0 (emit_from_remainder a).1
unfolding emit_from_remainder
emit-Emitted {src} {a} r h c =
    let start = r.rem_start h in
    let bounds = emit_len_bounds a c start.1 in
    let last : after_rem a ≡ a.rem_offset + a.rem_len = rw h refl in
    let room : a.rem_offset + a.rem_len ≤ a.total_size = omega (arith, last, after_rem-le r) in
    record {
      offset = start.0;
      id = refl;
      some_len = bounds.0;
      max_len = bounds.1;
      inside = omega (arith, room, bounds.2);
      zeros = λ z x lo hi. r.zero_rem h z x lo (omega (arith, last, bounds.2));
      next_pos = refl;
      next_id =
          mod-eq_of_lt {n = a.req_id + 1} {m = u64}
            (omega (arith, r.numbered, r.small, start.0, start.1, room));
      chunk = refl;
      total = refl;
      ready = emit-Ready r h c;
    }

-- Next gives a block and moves on, or has nothing left to give.
abbrev Nexts : (ℕ → ℕ) → Adapter → Adapter × Option ChangeBlock → Type 0
Nexts src a (b, out) =
    ((out ≡ none) × (a.current_pos ≡ a.total_size))
    ⊎ ((block : ChangeBlock) × (out ≡ some block) × Emitted src a b block)

Same-Emitted :
    {src : ℕ → ℕ} {a b c : Adapter} {block : ChangeBlock}
    → Same a b
    → Emitted src b c block
    → Emitted src a c block
Same-Emitted s e = record {
  offset = e.offset ∙ s.pos;
  id = e.id ∙ s.id;
  some_len = e.some_len;
  max_len = omega (arith, e.max_len, s.chunk);
  inside = omega (arith, e.inside, s.total);
  zeros = e.zeros;
  next_pos = e.next_pos;
  next_id = omega (arith, e.next_id, s.id);
  chunk = e.chunk ∙ s.chunk;
  total = e.total ∙ s.total;
  ready = e.ready;
}

after_load-Nexts :
    {src : ℕ → ℕ} {a : Adapter} (l : Adapter × Bool)
    → 0 < a.chunk_size
    → Loaded src a l
    → Nexts src a (after_load l)
after_load-Nexts (b, true) c (inl (_, ready, h, same)) = inr (
  (emit_from_remainder b).1,
  refl,
  Same-Emitted same (emit-Emitted ready h (omega (arith, same.chunk))),
)
after_load-Nexts (b, true) c (inr h) = absurd (cc h.0)
after_load-Nexts (b, false) c (inl h) = absurd (cc h.0)
after_load-Nexts (b, false) c (inr (_, done)) = inl (refl, done)

choose-Nexts :
    {src : ℕ → ℕ} {a : Adapter} (h : Bool)
    → a.has_rem ≡ h
    → Ready src a
    → 0 < a.chunk_size
    → Nexts src a (choose h a)
choose-Nexts {src} {a} true h r c = inr ((emit_from_remainder a).1, refl, emit-Emitted r h c)
choose-Nexts {src} {a} false h r c = after_load-Nexts (load_next a) c (load_next-Loaded src a r h)

next-Nexts : {src : ℕ → ℕ} {a : Adapter} → Ready src a → 0 < a.chunk_size → Nexts src a (next a)
unfolding next
next-Nexts {src} {a} r c = choose-Nexts a.has_rem refl r c

-- Blocks that lie end to end from `pos` to `total`, numbered on from `id`, none empty and none
-- larger than a chunk; a block that is marked as zero is zero in `src`.
abbrev pub Tiles : (ℕ → ℕ) → ℕ → ℕ → ℕ → ℕ → List ChangeBlock → Type 0
Tiles src chunk total pos id [] = pos ≡ total
Tiles src chunk total pos id (b ∷ bs) =
    (b.offset ≡ pos)
    × (b.req_id ≡ id)
    × (0 < b.len)
    × (b.len ≤ chunk)
    × (b.is_zero ≡ true → ZeroIn src b.offset (b.offset + b.len))
    × Tiles src chunk total (b.offset + b.len) (id + 1) bs

drain-Tiles :
    {src : ℕ → ℕ} (fuel : ℕ) (a : Adapter)
    → Ready src a
    → 0 < a.chunk_size
    → a.total_size < a.current_pos + fuel
    → (blocks : List ChangeBlock) × (drain fuel a ≡ some blocks)
      × Tiles src a.chunk_size a.total_size a.current_pos a.req_id blocks
unfolding drain
drain-Tiles {src} zero a r c f = absurd (omega (arith, after_rem-le r, behind))
  where
    behind : a.current_pos ≤ after_rem a
    behind = ground (arith, r.rem_start)
drain-Tiles {src} (suc fuel) a r c f = elim (next-Nexts r c) [
  | inl (e, done) ↦ ([], rw (e, drain) refl, done)
  | inr (block, e, m) ↦
      let (rest, q, tiles) =
        drain-Tiles fuel (next a).0 m.ready (omega (arith, m.chunk))
          (omega (arith, m.total, m.next_pos, m.offset, m.some_len)) in
      (
        block ∷ rest,
        rw (e, drain, q) refl,
        (
          m.offset,
          m.id,
          m.some_len,
          m.max_len,
          m.zeros,
          rw (m.chunk, m.total, m.next_pos, m.next_id) at tiles,
        ),
      )
]

new-Ready :
    (src : ℕ → ℕ) (extents : List DiffBlock) (total chunk : ℕ)
    → total < u64
    → Ascending 0 total extents
    → ZeroOutside src 0 total extents
    → Ready src (new_adapter extents total chunk true)
unfolding new_adapter
new-Ready src extents total chunk small ascending gaps = record {
  full = refl;
  small = small;
  numbered = omega arith;
  rem_start = λ h. cc;
  pending_start = λ h. cc;
  ascending = ascending;
  ended = λ h. cc;
  zero_rem = λ h. cc;
  zero_gaps = gaps;
}

-- A full diff of a device of `total` bytes, with ascending extents outside of which the device is
-- zero: Next runs to its end within `total + 1` calls, and its blocks lie end to end from 0 to
-- `total`, numbered from 0, none empty and none larger than the chunk size; a block that is marked
-- as zero is zero on the device.
pub full_diff-Tiles :
    (src : ℕ → ℕ) (extents : List DiffBlock) (total chunk : ℕ)
    → 0 < chunk
    → total < u64
    → Ascending 0 total extents
    → ZeroOutside src 0 total extents
    → (blocks : List ChangeBlock) × (drain (suc total) (new_adapter extents total chunk true)
        ≡ some blocks)
      × Tiles src chunk total 0 0 blocks
unfolding new_adapter
full_diff-Tiles src extents total chunk pos small ascending gaps =
    drain-Tiles (suc total) (new_adapter extents total chunk true)
      (new-Ready src extents total chunk small ascending gaps) pos (omega arith)

-- ===== src/Pipeline/Send/Batches.antt =====
-- The batches that a sender puts on its stream keep their limits.
use ceph_volsync_plugin.Base.{
  ℕ, ◌+◌, ◌≤◌, ◌<◌, ◌≡◌, refl, ap, ◌⊎◌, inl, inr, Bool, true, false, List, [], ◌∷◌, ◌++◌, All,
  All-append, length, length-append, Bool-cases, arith,
}
use ceph_volsync_plugin.Pipeline.Types.{ReadChunk, Stats}
use ceph_volsync_plugin.Pipeline.Config.{Config}
use ceph_volsync_plugin.Pipeline.Send.{
  ChangedBlock, to_block, Sender, no_blocks, End, closed, done, flush, must_flush, append_chunk,
  flush_before, data_sender,
}

-- The bytes of data in a batch.
abbrev pub size : List ChangedBlock → ℕ
size [] = 0
size (b ∷ bs) = length b.bytes + size bs

size-append : (bs cs : List ChangedBlock) → size (bs ++ cs) ≡ size bs + size cs
size-append [] cs = omega arith
size-append (b ∷ bs) cs = omega (arith, size-append bs cs)

-- A request is never empty, has at most DataBatchMaxCount blocks, and stays below
-- DataBatchMaxBytes unless a single block is as large as that.
abbrev pub IsBatch : Config → List ChangedBlock → Type 0
IsBatch cfg q =
    (0 < length q)
    × (length q ≤ cfg.data_batch_max_count)
    × ((length q ≤ 1) ⊎ (size q < cfg.data_batch_max_bytes))

record Fits (cfg : Config) (s : Sender) : Type 0 where
  counted : s.accum ≡ size s.blocks
  few : length s.blocks ≤ cfg.data_batch_max_count
  small : (length s.blocks ≤ 1) ⊎ (s.accum < cfg.data_batch_max_bytes)

List-cases {ℓ} : {A : Type ℓ} (xs : List A) → (xs ≡ []) ⊎ ((x : A) × (r : List A) × (xs ≡ x ∷ r))
List-cases [] = inl refl
List-cases (x ∷ r) = inr (x, r, refl)

flush-batches :
    (cfg : Config) (sent : Bool) (stats : Stats) (s : Sender)
    → Fits cfg s
    → All (IsBatch cfg) (flush sent stats s).request
unfolding flush
flush-batches cfg true stats s f = elim (List-cases s.blocks) [
  | inl e ↦ rw (e, flush) tt
  | inr (b, bs, e) ↦
      rw (e, flush) ((omega (arith, ap length e), f.few, rw (← f.counted) f.small), tt)
]
flush-batches cfg false stats s f = elim (List-cases s.blocks) [
  | inl e ↦ rw (e, flush) tt
  | inr (b, bs, e) ↦ rw (e, flush) tt
]

-- Whatever must_flush lets pass has room for one more chunk.
append-Fits :
    (cfg : Config) (s : Sender) (c : ReadChunk)
    → 0 < cfg.data_batch_max_count
    → Fits cfg s
    → must_flush cfg s c ≡ false
    → Fits cfg (append_chunk s c)
unfolding append_chunk must_flush to_block
append-Fits cfg s c pos f h = record {
  counted = omega (arith, f.counted, size-append s.blocks (to_block c ∷ []));
  few = ground (arith, f.few, length-append s.blocks (to_block c ∷ []));
  small = ground (arith, length-append s.blocks (to_block c ∷ []));
}

-- A flush that does not fail leaves an empty batch.
flush-Fits :
    (cfg : Config) (sent : Bool) (stats : Stats) (s : Sender)
    → Fits cfg s
    → (flush sent stats s).failed ≡ false
    → Fits cfg (flush sent stats s).sender × ((flush sent stats s).sender.blocks ≡ [])
unfolding flush
flush-Fits cfg true stats s f h = elim (List-cases s.blocks) [
  | inl e ↦ rw (e, flush) (f, e)
  | inr (b, bs, e) ↦
      rw (e, flush) (record { counted = refl; few = omega arith; small = inl (omega arith) }, refl)
]
flush-Fits cfg false stats s f h = elim (List-cases s.blocks) [
  | inl e ↦ rw (e, flush) (f, e)
  | inr (b, bs, e) ↦ absurd (no b bs e)
]
  where
    no : (b : ChangedBlock) (bs : List ChangedBlock) → s.blocks ≡ b ∷ bs → ⊥
    no b bs e = cc (rw (e, flush) at h)

append-room :
    (cfg : Config) (s : Sender) (c : ReadChunk) → s.blocks ≡ [] → must_flush cfg s c ≡ false
unfolding must_flush
append-room cfg s c e = rw e refl

flush_before-Fits :
    (cfg : Config) (sent : Bool) (stats : Stats) (s : Sender) (c : ReadChunk)
    → 0 < cfg.data_batch_max_count
    → Fits cfg s
    → All (IsBatch cfg) (flush_before cfg sent stats s c).request
      × ((flush_before cfg sent stats s c).failed ≡ false
          → Fits cfg (append_chunk (flush_before cfg sent stats s c).sender c))
flush_before-Fits cfg sent stats s c pos f = elim (Bool-cases (must_flush cfg s c)) [
  | inl e ↦
      rw (e, flush_before)
        (
          flush-batches cfg sent stats s f,
          λ h.
              let g = flush-Fits cfg sent stats s f h in
              append-Fits cfg (flush sent stats s).sender c pos g.0
                (append-room cfg (flush sent stats s).sender c g.1),
        )
  | inr e ↦ rw (e, flush_before) (tt, λ h. append-Fits cfg s c pos f e)
]

data_sender-Fits :
    (cfg : Config) (sends : ℕ → Bool) (end : End) (stats : Stats) (s : Sender) (cs : List ReadChunk)
    → 0 < cfg.data_batch_max_count
    → Fits cfg s
    → All (IsBatch cfg) (data_sender cfg sends end stats s cs).requests
unfolding data_sender
data_sender-Fits cfg sends closed stats s [] pos f =
    flush-batches cfg (sends stats.send_flushes) stats s f
data_sender-Fits cfg sends done stats s [] pos f = tt
data_sender-Fits cfg sends end stats s (c ∷ cs) pos f =
    let b = flush_before cfg (sends stats.send_flushes) stats s c in
    let keeps = flush_before-Fits cfg (sends stats.send_flushes) stats s c pos f in
    elim (Bool-cases b.failed) [
      | inl e ↦ rw (e, data_sender) keeps.0
      | inr e ↦
          rw (e, data_sender)
            (All-append (IsBatch cfg) b.request _ keeps.0
              (data_sender-Fits cfg sends end b.stats (append_chunk b.sender c) cs pos (keeps.1 e)))
    ]

-- Where DataBatchMaxCount is not 0, every request that a sender puts on its stream has at least one
-- block and at most DataBatchMaxCount, and less than DataBatchMaxBytes of data unless it has only
-- one block, which may be of any size; whatever the sender receives, whichever send fails and
-- however its input ends.
pub data_sender-IsBatch :
    (cfg : Config) (sends : ℕ → Bool) (end : End) (stats : Stats) (cs : List ReadChunk)
    → 0 < cfg.data_batch_max_count
    → All (IsBatch cfg) (data_sender cfg sends end stats no_blocks cs).requests
data_sender-IsBatch cfg sends end stats cs pos =
    data_sender-Fits cfg sends end stats no_blocks cs pos
      (record { counted = refl; few = omega arith; small = inl (omega arith) })

-- ===== src/Pipeline/Read/Content.antt =====
-- What a read worker sends on for a chunk.
use ceph_volsync_plugin.Base.{
  ℕ, ◌≡◌, refl, ◌⊎◌, inl, inr, true, false, List, [], some, ok, length, Bool-cases, Option-cases,
  arith, if◌then◌else◌, All, ◌≤◌, leb, sym, ap, ◌∙◌, ◌==◌, ◌∷◌,
}
use ceph_volsync_plugin.Pipeline.Types.{Chunk, ReadChunk, Stats}
use ceph_volsync_plugin.Pipeline.Config.{Config}
use ceph_volsync_plugin.Pipeline.Read.{
  Turn, is_all_zero, zero_turn, emit_turn, data_turn, acquire_size, read_turn,
}

pub record SameBlock (c : Chunk) (r : ReadChunk) : Type 0 where
  pub req_id : r.req_id ≡ c.req_id
  pub file_path : r.file_path ≡ c.file_path
  pub offset : r.offset ≡ c.offset
  pub total_size : r.total_size ≡ c.total_size

-- The chunk stands for the bytes `b`: as a zero block of the chunk's length if they are all zero,
-- and as those bytes otherwise.
pub record CarriesBytes (c : Chunk) (b : List ℕ) (r : ReadChunk) : Type 0 where
  pub is_zero : r.is_zero ≡ is_all_zero b
  pub bytes : r.bytes ≡ (if is_all_zero b then [] else b)
  pub len : r.len ≡ (if is_all_zero b then c.len else length b)

pub record CarriesZero (c : Chunk) (r : ReadChunk) : Type 0 where
  pub known : c.is_zero ≡ true
  pub is_zero : r.is_zero ≡ true
  pub bytes : r.bytes ≡ []
  pub len : r.len ≡ c.len

emit_turn-carries :
    (n : ℕ) (t : Turn) (s : Stats) (c : Chunk) (b : List ℕ) (r : ReadChunk)
    → (emit_turn n t s c b).result ≡ ok r
    → SameBlock c r × CarriesBytes c b r
unfolding emit_turn
emit_turn-carries n t s c b r h = ground arith

pub read_turn_content :
    (cfg : Config) (t : Turn) (s : Stats) (c : Chunk) (r : ReadChunk)
    → (read_turn cfg t s c).result ≡ ok r
    → SameBlock c r
      × (CarriesZero c r
          ⊎ ((b : List ℕ) × (c.is_zero ≡ false)
              × (t.read_at c.offset (acquire_size cfg c) ≡ some b)
              × CarriesBytes c b r))
unfolding read_turn zero_turn data_turn
read_turn_content cfg t s c r h = elim (Bool-cases c.is_zero) [
  | inl z ↦ (ground arith, inl (ground arith))
  | inr d ↦ elim (Option-cases (t.read_at c.offset (acquire_size cfg c))) [
    | inl e ↦ absurd (ground arith)
    | inr (b, e) ↦
        let sent : (emit_turn (acquire_size cfg c) t s c b).result ≡ ok r = ground arith in
        let carried = emit_turn-carries (acquire_size cfg c) t s c b r sent in
        (carried.0, inr (b, d, e, carried.1))
  ]
]

all_zero : (b : List ℕ) → is_all_zero b ≡ true → All (λ x. x ≡ 0) b
unfolding is_all_zero
all_zero [] e = tt
all_zero (x ∷ b) e = elim (Bool-cases (x == 0)) [
  | inl z ↦ (ground arith, all_zero b (ground arith))
  | inr z ↦ absurd (ground arith)
]

zeros_all : (b : List ℕ) → All (λ x. x ≡ 0) b → is_all_zero b ≡ true
unfolding is_all_zero
zeros_all [] h = refl
zeros_all (x ∷ b) (e, h) = let rest = zeros_all b h in ground arith

-- `n` is the smaller one of `a` and `b`.
abbrev pub IsSmaller : ℕ → ℕ → ℕ → Type 0
IsSmaller n a b = (n ≤ a) × (n ≤ b) × ((n ≡ a) ⊎ (n ≡ b))

acquire_size-IsSmaller :
    (cfg : Config) (c : Chunk) → IsSmaller (acquire_size cfg c) c.len cfg.chunk_size
unfolding acquire_size
acquire_size-IsSmaller cfg c = elim (Bool-cases (leb c.len cfg.chunk_size)) [
  | inl e ↦ simp e (omega arith, ground arith, inl refl)
  | inr e ↦ simp e (ground arith, omega arith, inr refl)
]

-- The chunk stands for the bytes `b`: as a zero block of the chunk's length exactly if each of them
-- is 0, and as those bytes otherwise.
pub record StandsFor (c : Chunk) (b : List ℕ) (r : ReadChunk) : Type 0 where
  pub zero_block : All (λ x. x ≡ 0) b → (r.is_zero ≡ true) × (r.bytes ≡ []) × (r.len ≡ c.len)
  pub only_zeros : r.is_zero ≡ true → All (λ x. x ≡ 0) b
  pub data_block : r.is_zero ≡ false → (r.bytes ≡ b) × (r.len ≡ length b)

carries-StandsFor : (c : Chunk) (b : List ℕ) (r : ReadChunk) → CarriesBytes c b r → StandsFor c b r
carries-StandsFor c b r h = record {
  zero_block = λ z.
      let e = zeros_all b z in
      (
        h.is_zero ∙ e,
        h.bytes ∙ ap (λ x. if x then [] else b) e,
        h.len ∙ ap (λ x. if x then c.len else length b) e,
      );
  only_zeros = λ e. all_zero b (sym h.is_zero ∙ e);
  data_block = λ d.
      let e = sym h.is_zero ∙ d in
      (
        h.bytes ∙ ap (λ x. if x then [] else b) e,
        h.len ∙ ap (λ x. if x then c.len else length b) e,
      );
}

-- A chunk that is sent on names the block that was received. If the block was known to be zero, so
-- is the chunk; otherwise ReadAt was called at the block's offset, for the smaller one of its length
-- and ChunkSize, and the chunk carries the bytes that it gave: as a zero block of the block's whole
-- length exactly if each of these bytes is 0, and as these bytes otherwise.
pub read_turn_carries :
    (cfg : Config) (t : Turn) (s : Stats) (c : Chunk) (r : ReadChunk)
    → (read_turn cfg t s c).result ≡ ok r
    → SameBlock c r
      × (CarriesZero c r
          ⊎ ((n : ℕ) × (b : List ℕ) × (c.is_zero ≡ false)
              × IsSmaller n c.len cfg.chunk_size
              × (t.read_at c.offset n ≡ some b)
              × StandsFor c b r))
read_turn_carries cfg t s c r h =
    let content = read_turn_content cfg t s c r h in
    (
      content.0,
      elim content.1 [
        | inl z ↦ inl z
        | inr (b, d, e, k) ↦
            inr
              (acquire_size cfg c, b, d, acquire_size-IsSmaller cfg c, e, carries-StandsFor c b r k)
      ],
    )

-- ===== src/Pipeline/Types.antt =====
-- What flows through the pipeline: chunk.go, held.go, stats.go, and ChangeBlock and feeder of
-- pipeline.go (internal/worker/pipeline). Texts are strings, bytes and sizes are numbers; the
-- durations that Stats adds up are left out.
use Prim.Native.String.{String}
use ceph_volsync_plugin.Base.{
  ℕ, ◌+◌, ◌≡◌, refl, ap, Bool, true, false, List, [], ◌∷◌, ◌++◌, arith, if◌then◌else◌,
}

-- chunk.go
pub record Chunk : Type 0 where
  pub req_id : ℕ
  pub file_path : String
  pub offset : ℕ
  pub len : ℕ
  pub total_size : ℕ
  pub is_zero : Bool

-- held.go
pub record Held : Type 0 where
  pub req_id : ℕ
  pub mem_raw_n : ℕ
  pub has_win : Bool
  pub has_mem : Bool

pub record ReadChunk : Type 0 where
  pub req_id : ℕ
  pub file_path : String
  pub offset : ℕ
  pub len : ℕ
  pub bytes : List ℕ
  pub is_zero : Bool
  pub total_size : ℕ
  pub held : Held

-- pipeline.go
pub record ChangeBlock : Type 0 where
  pub file_path : String
  pub offset : ℕ
  pub len : ℕ
  pub req_id : ℕ
  pub total_size : ℕ
  pub is_zero : Bool

-- stats.go
pub record Stats : Type 0 where
  pub read_count : ℕ
  pub read_bytes : ℕ
  pub read_zero_count : ℕ
  pub send_count : ℕ
  pub send_bytes : ℕ
  pub send_flushes : ℕ
  pub ack_count : ℕ

-- The calls that a stage makes of the two semaphores, in the order in which they return.
pub data Call : Type 0 where
  mem_acquired mem_released : ℕ → Call
  win_acquired win_released : ℕ → Call

-- release of held.go: what it calls, and the struct afterwards.
unfoldable pub release_held : Held → List Call × Held
release_held h = (
  (if h.has_mem then mem_released h.mem_raw_n ∷ [] else [])
      ++ (if h.has_win then win_released h.req_id ∷ [] else []),
  record h { has_win = false; has_mem = false },
)

-- releaseMemOnly of held.go.
unfoldable pub release_mem_only : Held → List Call × Held
release_mem_only h =
    (if h.has_mem then mem_released h.mem_raw_n ∷ [] else [], record h { has_mem = false })

-- What the feeder sends for a block of the iterator.
unfoldable pub to_chunk : ChangeBlock → Chunk
to_chunk b = record {
  req_id = b.req_id;
  file_path = b.file_path;
  offset = b.offset;
  len = b.len;
  total_size = b.total_size;
  is_zero = b.is_zero;
}

-- feeder of pipeline.go: the blocks that the iterator gives, and the number of sends before
-- ctx.Done interrupts one. The flag says that it ended without an error.
unfoldable pub feeder : ℕ → List ChangeBlock → List Chunk × Bool
unfolding to_chunk
feeder sends [] = ([], true)
feeder ℕ.zero (b ∷ bs) = ([], false)
feeder (ℕ.suc sends) (b ∷ bs) = let (sent, done) = feeder sends bs in (to_chunk b ∷ sent, done)

-- Memory acquired, memory released, windows acquired, windows released, in a run of calls.
abbrev pub mem_in : List Call → ℕ
mem_in [] = 0
mem_in (mem_acquired n ∷ cs) = n + mem_in cs
mem_in (_ ∷ cs) = mem_in cs

abbrev pub mem_out : List Call → ℕ
mem_out [] = 0
mem_out (mem_released n ∷ cs) = n + mem_out cs
mem_out (_ ∷ cs) = mem_out cs

abbrev pub win_in : List Call → List ℕ
win_in [] = []
win_in (win_acquired i ∷ cs) = i ∷ win_in cs
win_in (_ ∷ cs) = win_in cs

abbrev pub win_out : List Call → List ℕ
win_out [] = []
win_out (win_released i ∷ cs) = i ∷ win_out cs
win_out (_ ∷ cs) = win_out cs

-- What a held struct still owns.
abbrev pub owned_mem : Held → ℕ
owned_mem h = if h.has_mem then h.mem_raw_n else 0

abbrev pub owned_win : Held → List ℕ
owned_win h = if h.has_win then h.req_id ∷ [] else []

-- release gives back exactly what is owned, once: a second call does nothing.
pub release_held_once :
    (h : Held)
    → let (calls, h') = release_held h in
      (mem_out calls ≡ owned_mem h)
      × (win_out calls ≡ owned_win h)
      × (mem_in calls ≡ 0)
      × (win_in calls ≡ [])
      × (owned_mem h' ≡ 0)
      × (owned_win h' ≡ [])
      × (release_held h' ≡ ([], h'))
unfolding release_held
release_held_once h = (ground arith, ground arith, ground arith, ground arith, refl, refl, refl)

-- What a list of sent chunks owns.
abbrev pub sent_mem : List ReadChunk → ℕ
sent_mem [] = 0
sent_mem (r ∷ rs) = owned_mem r.held + sent_mem rs

abbrev pub sent_win : List ReadChunk → List ℕ
sent_win [] = []
sent_win (r ∷ rs) = owned_win r.held ++ sent_win rs

pub mem_in-append : (xs ys : List Call) → mem_in (xs ++ ys) ≡ mem_in xs + mem_in ys
mem_in-append [] ys = omega arith
mem_in-append (mem_acquired n ∷ xs) ys = omega (arith, mem_in-append xs ys)
mem_in-append (_ ∷ xs) ys = mem_in-append xs ys

pub mem_out-append : (xs ys : List Call) → mem_out (xs ++ ys) ≡ mem_out xs + mem_out ys
mem_out-append [] ys = omega arith
mem_out-append (mem_released n ∷ xs) ys = omega (arith, mem_out-append xs ys)
mem_out-append (_ ∷ xs) ys = mem_out-append xs ys

pub win_in-append : (xs ys : List Call) → win_in (xs ++ ys) ≡ win_in xs ++ win_in ys
win_in-append [] ys = refl
win_in-append (win_acquired n ∷ xs) ys = ap (◌∷◌ n) (win_in-append xs ys)
win_in-append (_ ∷ xs) ys = win_in-append xs ys

pub win_out-append : (xs ys : List Call) → win_out (xs ++ ys) ≡ win_out xs ++ win_out ys
win_out-append [] ys = refl
win_out-append (win_released n ∷ xs) ys = ap (◌∷◌ n) (win_out-append xs ys)
win_out-append (_ ∷ xs) ys = win_out-append xs ys

-- ===== src/Pipeline/Read.antt =====
-- stage_read.go of internal/worker/pipeline: one read worker. What the worker waits for or calls
-- answers through the environment; its calls of the semaphores are recorded in order.
pub mod Balance
pub mod Content
use ceph_volsync_plugin.Base.{
  ℕ, ◌+◌, ◌-◌, Bool, true, false, List, [], ◌∷◌, ◌++◌, Option, none, some, Result, ok, err, length,
  ltb, leb, ◌==◌, if◌then◌else◌,
}
use ceph_volsync_plugin.Pipeline.Types.{
  Chunk, Held, ReadChunk, Stats, Call, mem_acquired, mem_released, win_acquired, win_released,
  release_held,
}
use ceph_volsync_plugin.Pipeline.Config.{Config}

-- What one chunk meets: whether memRaw.Acquire and win.Acquire succeed (false: ctx.Done), what
-- ReadAt gives (none: an error), and whether the send on readCh goes through (false: ctx.Done).
pub record Turn : Type 0 where
  pub mem_ok : Bool
  pub win_ok : Bool
  pub read_at : ℕ → ℕ → Option (List ℕ)
  pub send_ok : Bool

pub data ReadError : Type 0 where
  cancelled : ReadError
  read_failed : ℕ → ReadError

-- IsAllZero of internal/worker/common/util.go.
unfoldable pub is_all_zero : List ℕ → Bool
is_all_zero [] = true
is_all_zero (b ∷ bs) = if b == 0 then is_all_zero bs else false

-- The calls made, the statistics, and what was sent on readCh or the error returned.
pub record Outcome : Type 0 where
  pub calls : List Call
  pub stats : Stats
  pub result : Result ReadError ReadChunk

abbrev zero_read_chunk : Chunk → ReadChunk
zero_read_chunk c = record {
  req_id = c.req_id;
  file_path = c.file_path;
  offset = c.offset;
  len = c.len;
  bytes = [];
  is_zero = true;
  total_size = c.total_size;
  held = record { req_id = c.req_id; mem_raw_n = 0; has_win = true; has_mem = false };
}

abbrev data_read_chunk : ℕ → Chunk → List ℕ → ReadChunk
data_read_chunk n c bytes = record {
  req_id = c.req_id;
  file_path = c.file_path;
  offset = c.offset;
  len = length bytes;
  bytes = bytes;
  is_zero = false;
  total_size = c.total_size;
  held = record { req_id = c.req_id; mem_raw_n = n; has_win = true; has_mem = true };
}

abbrev min_size : ℕ → ℕ → ℕ
min_size a b = if leb a b then a else b

unfoldable pub acquire_size : Config → Chunk → ℕ
acquire_size cfg c = min_size c.len cfg.chunk_size

abbrev count_zero : Stats → Stats
count_zero s = record s { read_zero_count = s.read_zero_count + 1 }

abbrev count_read : ℕ → Stats → Stats
count_read n s = record s { read_count = s.read_count + 1; read_bytes = s.read_bytes + n }

-- A chunk that the iterator already knows to be zero.
zero_turn : Turn → Stats → Chunk → Outcome
zero_turn t stats c =
    if t.win_ok
    then if t.send_ok
      then record {
        calls = win_acquired c.req_id ∷ [];
        stats = count_zero (count_read 0 stats);
        result = ok (zero_read_chunk c);
      }
      else record {
        calls = win_acquired c.req_id ∷ win_released c.req_id ∷ [];
        stats = count_zero (count_read 0 stats);
        result = err cancelled;
      }
    else record { calls = []; stats = stats; result = err cancelled }

-- What follows a successful ReadAt, with the memory and the window held.
emit_turn : ℕ → Turn → Stats → Chunk → List ℕ → Outcome
unfolding is_all_zero release_held
emit_turn n t stats c bytes =
    let held = mem_acquired n ∷ win_acquired c.req_id ∷ [] in
    let stats' = count_read (length bytes) stats in
    if is_all_zero bytes
    then if t.send_ok
      then record {
        calls = held ++ mem_released n ∷ [];
        stats = count_zero stats';
        result = ok (zero_read_chunk c);
      }
      else record {
        calls = held ++ mem_released n ∷ win_released c.req_id ∷ [];
        stats = count_zero stats';
        result = err cancelled;
      }
    else if t.send_ok
    then record { calls = held; stats = stats'; result = ok (data_read_chunk n c bytes) }
    else record {
      calls = held ++ (release_held (data_read_chunk n c bytes).held).0;
      stats = stats';
      result = err cancelled;
    }

-- A chunk that has to be read.
data_turn : ℕ → Turn → Stats → Chunk → Outcome
unfolding emit_turn
data_turn n t stats c =
    if t.mem_ok
    then if t.win_ok
      then elim (t.read_at c.offset n) [
        | none ↦ record {
          calls =
              mem_acquired n ∷ win_acquired c.req_id ∷ mem_released n ∷ win_released c.req_id ∷ [];
          stats = stats;
          result = err (read_failed c.req_id);
        }
        | some bytes ↦ emit_turn n t stats c bytes
      ]
      else record {
        calls = mem_acquired n ∷ mem_released n ∷ [];
        stats = stats;
        result = err cancelled;
      }
    else record { calls = []; stats = stats; result = err cancelled }

-- One round of readWorker, from the chunk that it has received.
unfoldable pub read_turn : Config → Turn → Stats → Chunk → Outcome
unfolding zero_turn data_turn acquire_size
read_turn cfg t stats c =
    if c.is_zero then zero_turn t stats c else data_turn (acquire_size cfg c) t stats c

pub record Run : Type 0 where
  pub calls : List Call
  pub stats : Stats
  pub sent : List ReadChunk
  pub failure : Option ReadError

-- readWorker over the chunks that it receives, each with its turn; then its channel is closed, or
-- its context ends while it waits for the next chunk.
pub read_worker : Config → Bool → Stats → List (Turn × Chunk) → Run
unfolding read_turn
read_worker cfg is_closed stats [] = record {
  calls = [];
  stats = stats;
  sent = [];
  failure = if is_closed then none else some cancelled;
}
read_worker cfg is_closed stats ((t, c) ∷ rest) =
    let o = read_turn cfg t stats c in
    let more = read_worker cfg is_closed o.stats rest in
    elim o.result [
      | err e ↦ record { calls = o.calls; stats = o.stats; sent = []; failure = some e }
      | ok r ↦ record {
        calls = o.calls ++ more.calls;
        stats = more.stats;
        sent = r ∷ more.sent;
        failure = more.failure;
      }
    ]

-- ===== src/Pipeline/StageTests.antt =====
-- The theorems on the stages of the pipeline at concrete inputs.
use ceph_volsync_plugin.Base.{
  ℕ, ◌+◌, ◌*◌, ◌≡◌, refl, ◌⊎◌, true, false, List, [], ◌∷◌, ◌++◌, none, some, All, ltb, arith,
}
use ceph_volsync_plugin.Pipeline.Types.{
  Chunk, Held, ReadChunk, Stats, mem_in, mem_out, win_in, win_out, sent_mem, sent_win,
}
use ceph_volsync_plugin.Pipeline.Config.{Config}
use ceph_volsync_plugin.Pipeline.Read.{Turn, read_turn, read_worker, acquire_size}
use ceph_volsync_plugin.Pipeline.Read.Balance.{read_worker-Balances}
use ceph_volsync_plugin.Pipeline.Read.Content.{
  SameBlock, StandsFor, IsSmaller, CarriesZero, read_turn_carries,
}
use ceph_volsync_plugin.Pipeline.Send.{Recv, acks, recv_error, no_blocks, closed, done, data_sender}
use ceph_volsync_plugin.Pipeline.Send.Batches.{IsBatch, data_sender-IsBatch}
use ceph_volsync_plugin.Pipeline.Send.Delivery.{Settles, data_sender-Settles}

abbrev small_config : Config
small_config = record {
  max_raw_memory_bytes = 0;
  max_window = 0;
  read_workers = 4;
  data_send_workers = 0;
  data_batch_max_count = 4;
  data_batch_max_bytes = 0;
  chunk_size = 65536;
  read_chan_buf = 0;
}

abbrev no_stats : Stats
no_stats = record {
  read_count = 0;
  read_bytes = 0;
  read_zero_count = 0;
  send_count = 0;
  send_bytes = 0;
  send_flushes = 0;
  ack_count = 0;
}

abbrev good_turn : Turn
good_turn = record {
  mem_ok = true;
  win_ok = true;
  read_at = λ o n. some (1 ∷ 0 ∷ []);
  send_ok = true;
}

abbrev bad_turn : Turn
bad_turn = record { mem_ok = true; win_ok = true; read_at = λ o n. none; send_ok = true }

abbrev two_bytes : ℕ → Chunk
two_bytes i = record {
  req_id = i;
  file_path = "";
  offset = 2 * i;
  len = 2;
  total_size = 4;
  is_zero = false;
}

abbrev two_turns : List (Turn × Chunk)
two_turns = (good_turn, two_bytes 0) ∷ (bad_turn, two_bytes 1) ∷ []

read_worker-Balances_example :
    let run = read_worker small_config true no_stats two_turns in
    (mem_in run.calls ≡ mem_out run.calls + sent_mem run.sent)
    × (win_in run.calls ≡ sent_win run.sent ++ win_out run.calls)
read_worker-Balances_example = read_worker-Balances small_config true no_stats two_turns

abbrev held_both : ℕ → Held
held_both i = record { req_id = i; mem_raw_n = 2; has_win = true; has_mem = true }

abbrev two_read : ℕ → ReadChunk
two_read i = record {
  req_id = i;
  file_path = "";
  offset = 2 * i;
  len = 2;
  bytes = 1 ∷ 0 ∷ [];
  is_zero = false;
  total_size = 4;
  held = held_both i;
}

read_turn_carries_example :
    SameBlock (two_bytes 1) (two_read 1)
    × (CarriesZero (two_bytes 1) (two_read 1)
        ⊎ ((n : ℕ) × (b : List ℕ) × (false ≡ false)
            × IsSmaller n 2 small_config.chunk_size
            × (some (1 ∷ 0 ∷ []) ≡ some b)
            × StandsFor (two_bytes 1) b (two_read 1)))
unfolding read_turn acquire_size
read_turn_carries_example =
    read_turn_carries small_config good_turn no_stats (two_bytes 1) (two_read 1) refl

data_sender-IsBatch_example :
    All
      (IsBatch small_config)
      (data_sender small_config
        (λ k. ltb k 3)
        closed
        no_stats
        no_blocks
        (two_read 0 ∷ two_read 1 ∷ [])).requests
data_sender-IsBatch_example =
    data_sender-IsBatch small_config (λ k. ltb k 3) closed no_stats (two_read 0 ∷ two_read 1 ∷ [])
      (omega arith)

data_sender-Settles_example :
    Settles [] (
      data_sender small_config
        (λ k. ltb k 1)
        done
        no_stats
        no_blocks
        (two_read 0 ∷ two_read 1 ∷ []))
data_sender-Settles_example =
    data_sender-Settles small_config (λ k. ltb k 1) done no_stats (two_read 0 ∷ two_read 1 ∷ [])

abbrev some_acks : List Recv
some_acks = acks (3 ∷ 4 ∷ []) ∷ acks (5 ∷ []) ∷ recv_error ∷ []

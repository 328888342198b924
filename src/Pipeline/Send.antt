-- ===== src/Pipeline/Send.antt =====
-- stage_send_data.go of internal/worker/pipeline: the sender and the receiver of acknowledgements
-- of one stream. The stream answers through the environment; calls of the semaphores are recorded.
pub mod Batches
pub mod Delivery
pub mod Acks
use Prim.Native.String.{String}
use ceph_volsync_plugin.Base.{
  ℕ, zero, suc, ◌+◌, Bool, true, false, ◌&&◌, ◌||◌, List, [], ◌∷◌, ◌++◌, map, Option, none, some,
  length, leb, ltb, if◌then◌else◌,
}
use ceph_volsync_plugin.Pipeline.Types.{
  Held, ReadChunk, Stats, Call, win_released, release_held, release_mem_only,
}
use ceph_volsync_plugin.Pipeline.Config.{Config}

-- apiv1.ChangedBlock (internal/proto/api/v1/sync.proto).
pub record ChangedBlock : Type 0 where
  pub request_id : ℕ
  pub file_path : String
  pub total_size : ℕ
  pub offset : ℕ
  pub len : ℕ
  pub is_zero : Bool
  pub bytes : List ℕ

unfoldable pub to_block : ReadChunk → ChangedBlock
to_block c = record {
  request_id = c.req_id;
  file_path = c.file_path;
  total_size = c.total_size;
  offset = c.offset;
  len = c.len;
  is_zero = c.is_zero;
  bytes = c.bytes;
}

-- The variables of dataSender.
pub record Sender : Type 0 where
  pub blocks : List ChangedBlock
  pub pending : List Held
  pub accum : ℕ

pub data SendError : Type 0 where
  send_failed cancelled : SendError

abbrev pub release_all : List Held → List Call
release_all [] = []
release_all (h ∷ hs) = (release_held h).0 ++ release_all hs

abbrev pub release_all_mem : List Held → List Call
release_all_mem [] = []
release_all_mem (h ∷ hs) = (release_mem_only h).0 ++ release_all_mem hs

abbrev pub no_blocks : Sender
no_blocks = record { blocks = []; pending = []; accum = 0 }

-- What flush did: the request that went out, if any, the calls, and whether Send failed.
pub record Flush : Type 0 where
  pub request : List (List ChangedBlock)
  pub calls : List Call
  pub stats : Stats
  pub sender : Sender
  pub failed : Bool

-- flush, where `sent` is the answer of stream.Send.
pub flush : Bool → Stats → Sender → Flush
flush sent stats s = elim s.blocks [
  | [] ↦ record { request = []; calls = []; stats = stats; sender = s; failed = false }
  | b ∷ bs ↦
      if sent
      then record {
        request = s.blocks ∷ [];
        calls = release_all_mem s.pending;
        stats = record stats {
          send_bytes = stats.send_bytes + s.accum;
          send_count = stats.send_count + length s.blocks;
          send_flushes = stats.send_flushes + 1;
        };
        sender = no_blocks;
        failed = false;
      }
      else record {
        request = [];
        calls = release_all s.pending;
        stats = stats;
        sender = s;
        failed = true;
      }
]

-- The batch would grow past its limits: in bytes, or in blocks.
pub must_flush : Config → Sender → ReadChunk → Bool
must_flush cfg s c =
    ltb 0 (length s.blocks)
    && (leb cfg.data_batch_max_bytes (s.accum + length c.bytes)
        || leb cfg.data_batch_max_count (length s.blocks))

pub append_chunk : Sender → ReadChunk → Sender
unfolding to_block
append_chunk s c = record {
  blocks = s.blocks ++ to_block c ∷ [];
  pending = s.pending ++ c.held ∷ [];
  accum = s.accum + length c.bytes;
}

-- How the input ends: inCh is closed, or ctx is done.
pub data End : Type 0 where
  closed done : End

-- `received` lists the chunks that were taken from inCh.
pub record SendRun : Type 0 where
  pub requests : List (List ChangedBlock)
  pub calls : List Call
  pub stats : Stats
  pub received : List ReadChunk
  pub failure : Option SendError

abbrev failure_of : Bool → Option SendError
failure_of true = some send_failed
failure_of false = none

abbrev pub unflushed : Stats → Sender → Flush
unflushed stats s = record { request = []; calls = []; stats = stats; sender = s; failed = false }

-- The chunk is taken after any flush that it forces.
abbrev pub flush_before : Config → Bool → Stats → Sender → ReadChunk → Flush
flush_before cfg sent stats s c =
    if must_flush cfg s c then flush sent stats s else unflushed stats s

-- dataSender over the chunks that it receives. `sends k` answers the send after `k` flushes.
pub data_sender : Config → (ℕ → Bool) → End → Stats → Sender → List ReadChunk → SendRun
unfolding flush append_chunk must_flush
data_sender cfg sends closed stats s [] =
    let f = flush (sends stats.send_flushes) stats s in
    record {
      requests = f.request;
      calls = f.calls;
      stats = f.stats;
      received = [];
      failure = failure_of f.failed;
    }
data_sender cfg sends done stats s [] = record {
  requests = [];
  calls = release_all s.pending;
  stats = stats;
  received = [];
  failure = some cancelled;
}
data_sender cfg sends end stats s (c ∷ rest) =
    let f = flush_before cfg (sends stats.send_flushes) stats s c in
    let more = data_sender cfg sends end f.stats (append_chunk f.sender c) rest in
    elim f.failed [
      | true ↦ record {
        requests = f.request;
        calls = f.calls ++ (release_held c.held).0;
        stats = f.stats;
        received = c ∷ [];
        failure = some send_failed;
      }
      | false ↦ record {
        requests = f.request ++ more.requests;
        calls = f.calls ++ more.calls;
        stats = more.stats;
        received = c ∷ more.received;
        failure = more.failure;
      }
    ]

-- What stream.Recv gives the receiver of acknowledgements.
pub data Recv : Type 0 where
  acks : List ℕ → Recv
  eof recv_error recv_done : Recv

pub data AckEnd : Type 0 where
  finished ack_failed ack_cancelled waiting : AckEnd

abbrev pub release_ids : List ℕ → List Call
release_ids [] = []
release_ids (i ∷ is) = win_released i ∷ release_ids is

-- ackReceiver over what it receives: its calls, the number of acknowledged requests, and how it
-- ended (`waiting`: it is still in Recv).
pub ack_receiver : List Recv → List Call × ℕ × AckEnd
ack_receiver [] = ([], 0, waiting)
ack_receiver (eof ∷ rs) = ([], 0, finished)
ack_receiver (recv_error ∷ rs) = ([], 0, ack_failed)
ack_receiver (recv_done ∷ rs) = ([], 0, ack_cancelled)
ack_receiver (acks ids ∷ rs) =
    let (calls, n, end) = ack_receiver rs in (release_ids ids ++ calls, length ids + n, end)

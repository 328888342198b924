-- ===== src/Rbd/Adapter/Tests.antt =====
-- The theorems on block devices at concrete inputs.
use ceph_volsync_plugin.Base.{
  ℕ, ◌≡◌, refl, Bool, true, false, ok, List, [], ◌∷◌, ◌++◌, map, some, ltb, arith, if◌then◌else◌,
}
use ceph_volsync_plugin.Pipeline.Config.{Config}
use ceph_volsync_plugin.Pipeline.Types.{Stats, ReadChunk, ChangeBlock, to_chunk}
use ceph_volsync_plugin.Pipeline.Read.{Turn, read_turn, acquire_size, is_all_zero}
use ceph_volsync_plugin.Pipeline.Send.{ChangedBlock, to_block}
use ceph_volsync_plugin.Rbd.Adapter.{
  DiffBlock, device_path, new_adapter, load_next, emit_from_remainder, next, drain, load_loop,
  take_pending, gap_before, end_of_diff, emit_len,
}
use ceph_volsync_plugin.Rbd.Adapter.Step.{ZeroOutside}
use ceph_volsync_plugin.Rbd.Adapter.Tiling.{Tiles, full_diff-Tiles}
use ceph_volsync_plugin.Rbd.Destination.{
  Device, Kernel, write_block, write_blocks, collect_request_ids, request, eof, write, write_loop,
}
use ceph_volsync_plugin.Rbd.Destination.Writes.{apply, write_block_returns}
use ceph_volsync_plugin.Rbd.Destination.Acks.{Acknowledges, write-Acknowledges}
use ceph_volsync_plugin.Rbd.Destination.Overlay.{slice, overlay}
use ceph_volsync_plugin.Rbd.Destination.Sync.{ReadAll, nothing, reads, full_diff_copies}

abbrev source : Device
source x = if ltb x 4 then 7 else 0

abbrev one_extent : List DiffBlock
one_extent = record { offset = 0; len = 4 } ∷ []

one_extent-ZeroOutside : ZeroOutside source 0 6 one_extent
one_extent-ZeroOutside x lo hi out = ground (arith, out)

full_diff-Tiles_example :
    (blocks : List ChangeBlock) × (drain 7 (new_adapter one_extent 6 3 true) ≡ some blocks)
    × Tiles source 3 6 0 0 blocks
full_diff-Tiles_example =
    full_diff-Tiles source one_extent 6 3 (omega arith) (omega arith)
      (omega arith, omega arith, omega arith) one_extent-ZeroOutside

abbrev tiny_config : Config
tiny_config = record {
  max_raw_memory_bytes = 100;
  max_window = 8;
  read_workers = 2;
  data_send_workers = 1;
  data_batch_max_count = 4;
  data_batch_max_bytes = 100;
  chunk_size = 3;
  read_chan_buf = 4;
}

abbrev block_at : ℕ → ℕ → ℕ → Bool → ChangeBlock
block_at id offset len is_zero = record {
  file_path = device_path;
  offset = offset;
  len = len;
  req_id = id;
  total_size = 6;
  is_zero = is_zero;
}

abbrev blocks : List ChangeBlock
blocks = block_at 0 0 3 false ∷ block_at 1 3 1 false ∷ block_at 2 4 2 true ∷ []

abbrev no_stats : Stats
no_stats = record {
  read_count = 0;
  read_bytes = 0;
  read_zero_count = 0;
  send_count = 0;
  send_bytes = 0;
  send_flushes = 0;
  ack_count = 0;
}

abbrev read_source : Turn
read_source = record {
  mem_ok = true;
  win_ok = true;
  read_at = λ o n. some (slice source o n);
  send_ok = true;
}

abbrev read_data : ℕ → ℕ → ℕ → ReadChunk
read_data id offset n = record {
  req_id = id;
  file_path = device_path;
  offset = offset;
  len = n;
  bytes = slice source offset n;
  is_zero = false;
  total_size = 6;
  held = record { req_id = id; mem_raw_n = n; has_win = true; has_mem = true };
}

abbrev read_zero : ReadChunk
read_zero = record {
  req_id = 2;
  file_path = device_path;
  offset = 4;
  len = 2;
  bytes = [];
  is_zero = true;
  total_size = 6;
  held = record { req_id = 2; mem_raw_n = 0; has_win = true; has_mem = false };
}

abbrev chunks : List ReadChunk
chunks = read_data 0 0 3 ∷ read_data 1 3 1 ∷ read_zero ∷ []

all_read : ReadAll tiny_config source blocks chunks
unfolding read_turn to_chunk acquire_size is_all_zero
all_read =
    reads read_source no_stats (λ o n. refl) refl
      (reads read_source no_stats (λ o n. refl) refl
        (reads read_source no_stats (λ o n. refl) refl nothing))

drained : drain 7 (new_adapter one_extent 6 3 true) ≡ some blocks
unfolding new_adapter load_next emit_from_remainder next drain load_loop take_pending gap_before
    end_of_diff emit_len
drained = refl

abbrev kernel : Kernel
kernel = record {
  zero_out = λ o n. true;
  zeroed = λ o n. 0;
  write_ok = λ o n. true;
  written = λ o n. 0;
  open_ok = true;
  sync_ok = true;
  close_ok = true;
}

abbrev parts : List (List ChangedBlock)
parts = map to_block (read_data 0 0 3 ∷ []) ∷ map to_block (read_data 1 3 1 ∷ read_zero ∷ []) ∷ []

abbrev dest : Device
dest x = 5

full_diff_copies_example :
    (write kernel (λ ids. true) (map request parts ++ eof ∷ []) dest).device 2
    ≡ overlay source 0 6 dest 2
unfolding write write_loop write_blocks write_block collect_request_ids to_block
full_diff_copies_example =
    full_diff_copies tiny_config source dest one_extent 6 chunks parts kernel (λ ids. true)
      (omega arith) (omega arith) (omega arith, omega arith, omega arith) one_extent-ZeroOutside
      drained all_read refl refl 2

write-Acknowledges_example :
    Acknowledges kernel
      (λ ids. true)
      (map request parts ++ eof ∷ [])
      dest
      (write kernel (λ ids. true) (map request parts ++ eof ∷ []) dest)
write-Acknowledges_example =
    write-Acknowledges kernel (λ ids. true) (map request parts ++ eof ∷ []) dest

abbrev data_block : ChangedBlock
data_block = record {
  request_id = 4;
  file_path = device_path;
  total_size = 6;
  offset = 1;
  len = 2;
  is_zero = false;
  bytes = 8 ∷ 9 ∷ [];
}

abbrev no_ioctl : Kernel
no_ioctl = record {
  zero_out = λ o n. false;
  zeroed = λ o n. 0;
  write_ok = λ o n. true;
  written = λ o n. 0;
  open_ok = true;
  sync_ok = true;
  close_ok = true;
}

write_block_returns_example :
    (d : Device) × (write_block no_ioctl data_block dest ≡ ok d)
    × ((x : ℕ) → d x ≡ apply data_block dest x)
write_block_returns_example = write_block_returns no_ioctl data_block dest (λ o n. refl)

-- ===== src/Cephfs/Iterator/Tests.antt =====
-- The theorems on the iterator at a concrete input.
use ceph_volsync_plugin.Base.{
  ◌+◌, ◌≤◌, ◌≡◌, refl, true, false, List, [], ◌∷◌, All, Option, some, arith,
}
use ceph_volsync_plugin.Base.Int.{pos, negsuc}
use ceph_volsync_plugin.Cephfs.Split.{split_large_blocks, needs_split}
use ceph_volsync_plugin.Cephfs.Iterator.{
  FileEntry, FileBlock, extents, Options, BlockIterator, new_block_iterator, emit_boundary,
  drain_pending, drain_pending_boundaries, end_of_file, close_current_iter, ended_file, open_file,
  advance_file, round, next, close,
}
use ceph_volsync_plugin.Cephfs.Iterator.Rounds.{next_returns}
use ceph_volsync_plugin.Cephfs.Iterator.Marks.{Marks, IsSound}
use ceph_volsync_plugin.Cephfs.Iterator.Run.{Gives, not_yet, gives, Gives-IsSound}
use ceph_volsync_plugin.Cephfs.Iterator.Closing.{close_flushes}

abbrev entries : List FileEntry
entries = record { path = "a"; size = negsuc 0 } ∷ record { path = "b"; size = pos 0 } ∷ []

abbrev test_options : Options
test_options = record {
  new_iter = λ p. some (extents (record { offset = 5; len = 6 } ∷ []) ∷ []);
  accepts = λ n. false;
  has_file_ch = true;
  has_boundary_ch = true;
  small_file_threshold = 0;
}

abbrev after_first : BlockIterator
after_first = record {
  entries = record { path = "b"; size = pos 0 } ∷ [];
  cur_iter = some [];
  cur_file = some "a";
  buf = [];
  req_id = 1;
  file_start_req_id = 0;
  total_size = negsuc 0;
  attempts = 0;
  sent = [];
  pending_boundaries = [];
  failed = false;
}

abbrev first_block : FileBlock
first_block = record { file_path = "a"; offset = 5; len = 6; req_id = 0; total_size = negsuc 0 }

one_block : Gives test_options (new_block_iterator entries) (first_block ∷ []) after_first
unfolding next round advance_file ended_file end_of_file emit_boundary drain_pending
    drain_pending_boundaries close_current_iter open_file new_block_iterator split_large_blocks
    needs_split
one_block =
    gives {it = new_block_iterator entries} {it' = after_first} {b = first_block} 4 not_yet refl

Gives-IsSound_example : IsSound (first_block ∷ []) after_first
Gives-IsSound_example =
    Gives-IsSound test_options entries {h = first_block ∷ []} {it = after_first} (omega arith)
      one_block

close_flushes_all :
    All (Marks (first_block ∷ [])) (close 3 test_options after_first).sent
    × (0 + 1 ≤ 3 → (close 3 test_options after_first).pending_boundaries ≡ [])
close_flushes_all = close_flushes (first_block ∷ []) test_options 3 after_first refl (
    Gives-IsSound test_options entries {h = first_block ∷ []} {it = after_first} (omega arith)
      one_block)

next_returns_example :
    (r : BlockIterator × Option FileBlock) × (next 9 test_options (new_block_iterator entries)
      ≡ some r)
unfolding new_block_iterator
next_returns_example = next_returns 9 test_options (new_block_iterator entries) (omega arith)

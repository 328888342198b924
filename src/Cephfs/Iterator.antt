-- ===== src/Cephfs/Iterator.antt =====
-- CephFSBlockIterator of internal/worker/cephfs/block_iterator.go. A channel of files is the list
-- of what it gives until it is closed or the context ends; file paths are never empty.
pub mod Rounds
pub mod Marks
pub mod Files
pub mod Run
pub mod Closing
pub mod Covered
pub mod Complete
pub mod Settled
pub mod Failing
pub mod Served
mod Tests
use Prim.Native.String.{String}
use ceph_volsync_plugin.Base.{
  ℕ, zero, suc, ◌+◌, ◌-◌, ◌*◌, ◌%◌, Bool, true, false, ◌&&◌, not, List, [], ◌∷◌, ◌++◌, Option, none,
  some, length, take, ltb, leb, ◌==◌, if◌then◌else◌,
}
use ceph_volsync_plugin.Base.Int.{ℤ, pos, negsuc}
use ceph_volsync_plugin.Pipeline.Window.{u64}
use ceph_volsync_plugin.Cephfs.Split.{ChangedBlock, split_large_blocks}
use ceph_volsync_plugin.Cephfs.Drainer.{FileBoundary}

-- changedFileEntry of source.go; a negative size is not known.
pub record FileEntry : Type 0 where
  pub path : String
  pub size : ℤ

-- pipeline.ChangeBlock, with the size that a file may not have.
pub record FileBlock : Type 0 where
  pub file_path : String
  pub offset : ℕ
  pub len : ℕ
  pub req_id : ℕ
  pub total_size : ℤ

-- What a Read of a fileDiffIterator gives; More says that the list of them is not empty.
pub data DiffRead : Type 0 where
  extents : List ChangedBlock → DiffRead
  read_error : DiffRead

-- The options of the iterator and the environment: newIter, and whether the n-th send that does not
-- block finds room in boundaryCh.
pub record Options : Type 0 where
  pub new_iter : String → Option (List DiffRead)
  pub accepts : ℕ → Bool
  pub has_file_ch : Bool
  pub has_boundary_ch : Bool
  pub small_file_threshold : ℕ

-- `buf` is what is left of the buffer, `sent` what went into boundaryCh, and `attempts` counts the
-- sends that do not block.
pub record BlockIterator : Type 0 where
  pub entries : List FileEntry
  pub cur_iter : Option (List DiffRead)
  pub cur_file : Option String
  pub buf : List ChangedBlock
  pub req_id : ℕ
  pub file_start_req_id : ℕ
  pub total_size : ℤ
  pub attempts : ℕ
  pub sent : List FileBoundary
  pub pending_boundaries : List FileBoundary
  pub failed : Bool

unfoldable pub new_block_iterator : List FileEntry → BlockIterator
new_block_iterator entries = record {
  entries = entries;
  cur_iter = none;
  cur_file = none;
  buf = [];
  req_id = 0;
  file_start_req_id = 0;
  total_size = pos 0;
  attempts = 0;
  sent = [];
  pending_boundaries = [];
  failed = false;
}

abbrev pub max_block_len : ℕ
max_block_len = 16 * 1024 * 1024

unfoldable pub emit_boundary : Options → String → BlockIterator → BlockIterator
emit_boundary o path it =
    let fb : FileBoundary = record {
      path = path;
      last_req_id = it.req_id - 1;
      total_size = it.total_size;
    } in
    if o.accepts it.attempts
    then record it { attempts = it.attempts + 1; sent = it.sent ++ fb ∷ [] }
    else record it {
      attempts = it.attempts + 1;
      pending_boundaries = it.pending_boundaries ++ fb ∷ [];
    }

-- The loop of drainPendingBoundaries: the sends made, what was sent, and what is left.
unfoldable pub drain_pending :
    Options → ℕ → List FileBoundary → List FileBoundary → ℕ × List FileBoundary × List FileBoundary
drain_pending o n sent [] = (n, sent, [])
drain_pending o n sent (fb ∷ rest) =
    if o.accepts n then drain_pending o (n + 1) (sent ++ fb ∷ []) rest else (n + 1, sent, fb ∷ rest)

unfoldable pub drain_pending_boundaries : Options → BlockIterator → BlockIterator
unfolding drain_pending
drain_pending_boundaries o it =
    let (n, sent, pending) = drain_pending o it.attempts it.sent it.pending_boundaries in
    record it { attempts = n; sent = sent; pending_boundaries = pending }

-- The boundary of the file that is read, if it had a block.
abbrev pub end_path : Options → Option String → BlockIterator → BlockIterator
end_path o none it = it
end_path o (some path) it =
    if o.has_boundary_ch && ltb it.file_start_req_id it.req_id then emit_boundary o path it else it

unfoldable pub end_of_file : Options → BlockIterator → BlockIterator
unfolding emit_boundary
end_of_file o it = end_path o it.cur_file it

abbrev pub close_reads : Option (List DiffRead) → BlockIterator → BlockIterator
close_reads none it = it
close_reads (some _) it = record it { cur_iter = none; buf = [] }

unfoldable pub close_current_iter : BlockIterator → BlockIterator
close_current_iter it = close_reads it.cur_iter it

abbrev pub is_empty_size : ℤ → Bool
is_empty_size (pos n) = n == 0
is_empty_size (negsuc n) = false

abbrev pub is_small : ℕ → ℤ → Bool
is_small threshold (pos n) = ltb 0 threshold && (ltb 0 n && leb n threshold)
is_small threshold (negsuc n) = false

abbrev pub whole_file : ℤ → List ChangedBlock
whole_file (pos n) = split_large_blocks 1 max_block_len (record { offset = 0; len = n } ∷ [])
whole_file (negsuc n) = []

abbrev pub use_reads : Option (List DiffRead) → BlockIterator → BlockIterator
use_reads none it = it
use_reads (some reads) it = record it { cur_iter = some reads }

-- The next file becomes the current one.
unfoldable pub open_file : Options → FileEntry → BlockIterator → BlockIterator
open_file o e it =
    let size = if o.has_file_ch then e.size else it.total_size in
    let opened = record it {
      cur_file = some e.path;
      file_start_req_id = it.req_id;
      total_size = size;
    } in
    if o.has_file_ch && is_empty_size size
    then opened
    else if o.has_file_ch && is_small o.small_file_threshold size
    then record opened { buf = whole_file size }
    else use_reads (o.new_iter e.path) opened

-- What one round of the loop of Next does.
pub data Round : Type 0 where
  emitted : BlockIterator → FileBlock → Round
  again : BlockIterator → Round
  exhausted : BlockIterator → Round

abbrev pub advance_to : Options → List FileEntry → BlockIterator → Round
advance_to o [] it = exhausted (record it { cur_file = none })
advance_to o (e ∷ rest) it = again (open_file o e (record it { entries = rest }))

-- The current file is done: its boundary is emitted, and the next one is opened.
unfoldable pub ended_file : Options → BlockIterator → BlockIterator
unfolding end_of_file drain_pending_boundaries close_current_iter
ended_file o it = close_current_iter (drain_pending_boundaries o (end_of_file o it))

unfoldable pub advance_file : Options → BlockIterator → Round
unfolding ended_file open_file
advance_file o it = advance_to o (ended_file o it).entries (ended_file o it)

-- More is read of the current file, unless its iterator is at its end, fails or gives nothing.
abbrev pub read_from : Options → Option (List DiffRead) → BlockIterator → Round
read_from o (some (extents (b ∷ bs) ∷ reads)) it = again (record it {
  cur_iter = some reads;
  buf = split_large_blocks (length (b ∷ bs)) max_block_len (b ∷ bs);
})
read_from o _ it = advance_file o it

abbrev pub emit_block : String → ChangedBlock → BlockIterator → FileBlock
emit_block path b it = record {
  file_path = path;
  offset = b.offset;
  len = b.len;
  req_id = it.req_id;
  total_size = it.total_size;
}

-- The path of the current file; Go has the empty string for none.
abbrev pub path_of : Option String → String
path_of none = ""
path_of (some path) = path

abbrev pub round_from : Options → List ChangedBlock → BlockIterator → Round
round_from o (b ∷ bs) it =
    emitted (record it { buf = bs; req_id = (it.req_id + 1) % u64 })
      (emit_block (path_of it.cur_file) b it)
round_from o [] it = read_from o it.cur_iter it

unfoldable pub round : Options → BlockIterator → Round
unfolding advance_file
round o it = round_from o it.buf it

-- How Next goes on after a round.
abbrev pub finish :
    Round → Option (BlockIterator × Option FileBlock) → Option (BlockIterator × Option FileBlock)
finish (emitted it b) more = some (it, some b)
finish (exhausted it) more = some (it, none)
finish (again it) more = more

abbrev pub after : BlockIterator → Round → BlockIterator
after it (again it') = it'
after it _ = it

-- Next; `none` if the fuel runs out.
unfoldable pub next : ℕ → Options → BlockIterator → Option (BlockIterator × Option FileBlock)
unfolding round
next zero o it = none
next (suc fuel) o it = let r = round o it in finish r (next fuel o (after it r))

-- flushAllBoundaries: `sends` of them go through before the context ends; if it ends, the list is
-- kept.
unfoldable pub flush_all_boundaries : ℕ → BlockIterator → BlockIterator
flush_all_boundaries sends it =
    if leb (length it.pending_boundaries) sends
    then record it { sent = it.sent ++ it.pending_boundaries; pending_boundaries = [] }
    else record it { sent = it.sent ++ take sends it.pending_boundaries }

abbrev pub set_failed : BlockIterator → BlockIterator
set_failed it = record it { failed = true }

-- A transfer that failed has no last boundary.
abbrev pub last_boundary : Options → Bool → BlockIterator → BlockIterator
last_boundary o true it = it
last_boundary o false it = end_of_file o it

unfoldable pub close : ℕ → Options → BlockIterator → BlockIterator
unfolding end_of_file flush_all_boundaries close_current_iter
close sends o it =
    let ended = last_boundary o it.failed it in
    close_current_iter (if o.has_boundary_ch then flush_all_boundaries sends ended else ended)

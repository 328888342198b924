-- ===== src/Rbd/Adapter.antt =====
-- rbdIterAdapter of internal/worker/rbd/source.go: from the extents of an RBD diff to the blocks of
-- the pipeline. Offsets and lengths are int64 values that are not negative.
pub mod Step
pub mod Tiling
pub mod Numbers
mod Tests
use Prim.Native.String.{String}
use mathlib.Core.Option
use ceph_volsync_plugin.Base.{
  ◌%◌, ℕ, zero, suc, ◌+◌, ◌-◌, Bool, true, false, ◌&&◌, List, [], ◌∷◌, Option, none, some, ltb, leb,
  ◌==◌, if◌then◌else◌,
}
use ceph_volsync_plugin.Pipeline.Window.{u64}
use ceph_volsync_plugin.Pipeline.Types.{ChangeBlock}

-- diffBlock.
pub record DiffBlock : Type 0 where
  pub offset : ℕ
  pub len : ℕ

-- `extents` is what `iter` has still to give.
pub record Adapter : Type 0 where
  pub extents : List DiffBlock
  pub req_id : ℕ
  pub total_size : ℕ
  pub chunk_size : ℕ
  pub is_full_diff : Bool
  pub current_pos : ℕ
  pub rem_offset : ℕ
  pub rem_len : ℕ
  pub rem_is_zero : Bool
  pub has_rem : Bool
  pub pending_offset : ℕ
  pub pending_len : ℕ
  pub has_pending : Bool
  pub iter_done : Bool

-- The adapter that Sync builds.
pub new_adapter : List DiffBlock → ℕ → ℕ → Bool → Adapter
new_adapter extents total chunk full = record {
  extents = extents;
  req_id = 0;
  total_size = total;
  chunk_size = chunk;
  is_full_diff = full;
  current_pos = 0;
  rem_offset = 0;
  rem_len = 0;
  rem_is_zero = false;
  has_rem = false;
  pending_offset = 0;
  pending_len = 0;
  has_pending = false;
  iter_done = false;
}

abbrev set_rem : Adapter → ℕ → ℕ → Bool → Adapter
set_rem a offset len is_zero = record a {
  rem_offset = offset;
  rem_len = len;
  rem_is_zero = is_zero;
  has_rem = true;
}

-- The iterator is at its end.
end_of_diff : Adapter → Adapter × Bool
end_of_diff a =
    if a.is_full_diff && ltb a.current_pos a.total_size
    then (set_rem a a.current_pos (a.total_size - a.current_pos) true, true)
    else (a, false)

-- A gap before an extent of a full diff.
gap_before : Adapter → DiffBlock → Adapter
gap_before a cb =
    let b = set_rem a a.current_pos (cb.offset - a.current_pos) true in
    record b { pending_offset = cb.offset; pending_len = cb.len; has_pending = true }

-- The loop of loadNext over the extents that are left.
load_loop : List DiffBlock → Adapter → Adapter × Bool
unfolding end_of_diff gap_before
load_loop [] a = end_of_diff (record a { extents = []; iter_done = true })
load_loop (cb ∷ rest) a =
    let skip = load_loop rest a in
    let b = record a { extents = rest } in
    if a.is_full_diff && ltb a.current_pos cb.offset
    then (gap_before b cb, true)
    else if ltb cb.offset a.current_pos
    then if leb cb.len (a.current_pos - cb.offset)
      then skip
      else (set_rem b a.current_pos (cb.len - (a.current_pos - cb.offset)) false, true)
    else (set_rem b cb.offset cb.len false, true)

take_pending : Adapter → Adapter
take_pending a =
    let b = set_rem a a.pending_offset a.pending_len false in record b { has_pending = false }

pub load_next : Adapter → Adapter × Bool
unfolding load_loop take_pending
load_next a =
    if a.has_pending
    then (take_pending a, true)
    else if a.iter_done
    then (a, false)
    else load_loop a.extents a

emit_len : Adapter → ℕ
emit_len a = if ltb 0 a.chunk_size && ltb a.chunk_size a.rem_len then a.chunk_size else a.rem_len

-- The constant DevicePath.
abbrev pub device_path : String
device_path = "/dev/block"

pub emit_from_remainder : Adapter → Adapter × ChangeBlock
unfolding emit_len
emit_from_remainder a =
    let n = emit_len a in
    (
      record a {
        req_id = (a.req_id + 1) % u64;
        rem_offset = a.rem_offset + n;
        rem_len = a.rem_len - n;
        has_rem = if leb a.rem_len n then false else a.has_rem;
        current_pos = a.rem_offset + n;
      },
      record {
        file_path = device_path;
        offset = a.rem_offset;
        len = n;
        req_id = a.req_id;
        total_size = a.total_size;
        is_zero = a.rem_is_zero;
      },
    )

abbrev pub emit : Adapter → Adapter × Option ChangeBlock
emit a = let (b, block) = emit_from_remainder a in (b, some block)

-- What Next does with the answer of loadNext.
abbrev pub after_load : Adapter × Bool → Adapter × Option ChangeBlock
after_load (b, true) = emit b
after_load (b, false) = (b, none)

abbrev pub choose : Bool → Adapter → Adapter × Option ChangeBlock
choose true a = emit a
choose false a = after_load (load_next a)

pub next : Adapter → Adapter × Option ChangeBlock
next a = choose a.has_rem a

-- All the blocks that the feeder takes from the adapter, on fuel; `none` if the fuel runs out.
unfoldable pub drain : ℕ → Adapter → Option (List ChangeBlock)
drain zero a = none
drain (suc fuel) a =
    let more = drain fuel (next a).0 in
    elim (next a).1 [ none ↦ some [] | some block ↦ Option.map (◌∷◌ block) more ]

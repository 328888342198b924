-- ===== src/Cephfs/Iterator/Covered.antt =====
-- Every block that the iterator gives gets a boundary.
use Prim.Native.String.{String}
use ceph_volsync_plugin.Base.{
  ℕ, ◌+◌, ◌-◌, ◌≤◌, ◌<◌, ◌≡◌, refl, sym, ◌∙◌, ◌⊎◌, inl, inr, true, ◌&&◌, List, [], ◌∷◌, ◌++◌, Any,
  Any-append_left, Any-append_right, Option, none, some, Bool-cases, ltb, arith, if◌then◌else◌,
}
use mathlib.Core.Option.{some-injective}
use ceph_volsync_plugin.Cephfs.Drainer.{FileBoundary}
use ceph_volsync_plugin.Cephfs.Iterator.{
  FileEntry, FileBlock, DiffRead, Options, BlockIterator, emit_boundary, drain_pending,
  drain_pending_boundaries, end_of_file, close_current_iter, end_path, close_reads, ended_file,
  use_reads, open_file, is_empty_size, is_small,
}

-- A boundary of the block's file that is not before the block.
abbrev pub Ends : FileBlock → FileBoundary → Type 0
Ends b fb = (fb.path ≡ b.file_path) × (b.req_id ≤ fb.last_req_id)

abbrev pub IsSettled : BlockIterator → FileBlock → Type 0
IsSettled it b = Any (Ends b) it.sent ⊎ Any (Ends b) it.pending_boundaries

-- The block is of the file that is read now.
abbrev pub IsOpen : BlockIterator → FileBlock → Type 0
IsOpen it b =
    (it.cur_file ≡ some b.file_path) × ((it.file_start_req_id ≤ b.req_id) × (b.req_id < it.req_id))

abbrev pub IsCovered : BlockIterator → FileBlock → Type 0
IsCovered it b = IsSettled it b ⊎ IsOpen it b

-- One more boundary, sent or kept back, keeps those that there are.
emit_boundary-keeps :
    (o : Options) (path : String) (it : BlockIterator) (b : FileBlock)
    → IsSettled it b
    → IsSettled (emit_boundary o path it) b
unfolding emit_boundary
emit_boundary-keeps o path it b (inl s) = elim (Bool-cases (o.accepts it.attempts)) [
  | inl a ↦ rw a (inl (Any-append_left (Ends b) it.sent _ s))
  | inr a ↦ rw a (inl s)
]
emit_boundary-keeps o path it b (inr s) = elim (Bool-cases (o.accepts it.attempts)) [
  | inl a ↦ rw a (inr s)
  | inr a ↦ rw a (inr (Any-append_left (Ends b) it.pending_boundaries _ s))
]

emit_boundary-settles :
    (o : Options) (path : String) (it : BlockIterator) (b : FileBlock)
    → path ≡ b.file_path
    → b.req_id < it.req_id
    → IsSettled (emit_boundary o path it) b
unfolding emit_boundary
emit_boundary-settles o path it b e lt =
    let last : b.req_id ≤ it.req_id - 1 = omega arith in
    elim (Bool-cases (o.accepts it.attempts)) [
      | inl a ↦ rw a (inl (Any-append_right (Ends b) it.sent _ (inl (e, last))))
      | inr a ↦ rw a (inr (Any-append_right (Ends b) it.pending_boundaries _ (inl (e, last))))
    ]

pub end_path-settles :
    (o : Options) (p : Option String) (it : BlockIterator) (b : FileBlock)
    → o.has_boundary_ch ≡ true
    → it.cur_file ≡ p
    → IsCovered it b
    → IsSettled (end_path o p it) b
end_path-settles o none it b c e (inl s) = s
end_path-settles o none it b c e (inr now) = absurd (cc (e, now.0))
end_path-settles o (some path) it b c e (inl s) =
    elim (Bool-cases (o.has_boundary_ch && ltb it.file_start_req_id it.req_id)) [
      | inl f ↦ rw f (emit_boundary-keeps o path it b s)
      | inr f ↦ rw f s
    ]
end_path-settles o (some path) it b c e (inr now) =
    elim (Bool-cases (o.has_boundary_ch && ltb it.file_start_req_id it.req_id)) [
      | inl f ↦
          rw f (emit_boundary-settles o path it b (some-injective _ _ (sym e ∙ now.0)) now.1.1)
      | inr f ↦ absurd (ground (arith, c, f, now.1.0, now.1.1))
    ]

drain_pending-settles :
    (P : FileBoundary → Type 0) (o : Options) (n : ℕ) (sent pending : List FileBoundary)
    → Any P sent ⊎ Any P pending
    → Any P (drain_pending o n sent pending).1 ⊎ Any P (drain_pending o n sent pending).2
unfolding drain_pending
drain_pending-settles P o n sent [] h = h
drain_pending-settles P o n sent (fb ∷ rest) (inl h) = elim (Bool-cases (o.accepts n)) [
  | inl e ↦
      rw e (
        drain_pending-settles P o (n + 1) (sent ++ fb ∷ []) rest (inl (Any-append_left P sent _ h)))
  | inr e ↦ rw e (inl h)
]
drain_pending-settles P o n sent (fb ∷ rest) (inr (inl p)) = elim (Bool-cases (o.accepts n)) [
  | inl e ↦ rw e (
      drain_pending-settles P o (n + 1) (sent ++ fb ∷ []) rest
        (inl (Any-append_right P sent (fb ∷ []) (inl p))))
  | inr e ↦ rw e (inr (inl p))
]
drain_pending-settles P o n sent (fb ∷ rest) (inr (inr h)) = elim (Bool-cases (o.accepts n)) [
  | inl e ↦ rw e (drain_pending-settles P o (n + 1) (sent ++ fb ∷ []) rest (inr h))
  | inr e ↦ rw e (inr (inr h))
]

close_reads-settles :
    (r : Option (List DiffRead)) (it : BlockIterator) (b : FileBlock)
    → IsSettled it b
    → IsSettled (close_reads r it) b
close_reads-settles none it b s = s
close_reads-settles (some r) it b s = s

pub ended_file-settles :
    (o : Options) (it : BlockIterator) (b : FileBlock)
    → o.has_boundary_ch ≡ true
    → IsCovered it b
    → IsSettled (ended_file o it) b
unfolding ended_file end_of_file close_current_iter drain_pending_boundaries
ended_file-settles o it b c h =
    let ended = end_path o it.cur_file it in
    close_reads-settles (drain_pending_boundaries o ended).cur_iter
      (drain_pending_boundaries o ended) b
      (drain_pending-settles (Ends b) o ended.attempts ended.sent ended.pending_boundaries
        (end_path-settles o it.cur_file it b c refl h))

use_reads-settles :
    (r : Option (List DiffRead)) (it : BlockIterator) (b : FileBlock)
    → IsSettled it b
    → IsSettled (use_reads r it) b
use_reads-settles none it b s = s
use_reads-settles (some r) it b s = s

pub open_file-settles :
    (o : Options) (e : FileEntry) (it : BlockIterator) (b : FileBlock)
    → IsSettled it b
    → IsSettled (open_file o e it) b
unfolding open_file
open_file-settles o e it b s =
    let size = if o.has_file_ch then e.size else it.total_size in
    let opened : BlockIterator = record it {
      cur_file = some e.path;
      file_start_req_id = it.req_id;
      total_size = size;
    } in
    elim (Bool-cases (o.has_file_ch && is_empty_size size)) [
      | inl a ↦ rw a s
      | inr a ↦ elim (Bool-cases (o.has_file_ch && is_small o.small_file_threshold size)) [
        | inl c ↦ rw (a, c) s
        | inr c ↦ rw (a, c) (use_reads-settles (o.new_iter e.path) opened b s)
      ]
    ]

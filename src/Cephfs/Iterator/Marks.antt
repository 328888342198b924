-- ===== src/Cephfs/Iterator/Marks.antt =====
-- The boundaries that the iterator emits, against the blocks that it has given.
use Prim.Native.String.{String}
use ceph_volsync_plugin.Base.{
  ℕ, ◌+◌, ◌-◌, ◌≤◌, ◌<◌, ◌≡◌, refl, inl, inr, ◌&&◌, List, [], ◌∷◌, ◌++◌, All, All-append, Option,
  none, some, length, get_elem?, Bool-cases, ltb, arith,
}
use ceph_volsync_plugin.Cephfs.Drainer.{FileBoundary}
use ceph_volsync_plugin.Cephfs.Iterator.{
  FileBlock, DiffRead, Options, BlockIterator, emit_boundary, drain_pending,
  drain_pending_boundaries, end_of_file, close_current_iter, end_path, close_reads, ended_file,
}

-- A boundary marks the block of its file that has its request number.
abbrev pub Marks : List FileBlock → FileBoundary → Type 0
Marks h fb = (b : FileBlock) × (get_elem? h fb.last_req_id ≡ some b) × (b.file_path ≡ fb.path)

-- The state after the blocks `h`: they are numbered from 0, the last of them belongs to the current
-- file if that file has had a block, and every boundary emitted marks one of them.
pub record IsSound (h : List FileBlock) (it : BlockIterator) : Type 0 where
  pub counted : it.req_id ≡ length h
  pub start : it.file_start_req_id ≤ it.req_id
  pub current :
      (path : String)
      → it.cur_file ≡ some path
      → it.file_start_req_id < it.req_id
      → (b : FileBlock) × (get_elem? h (it.req_id - 1) ≡ some b) × (b.file_path ≡ path)
  pub idle : it.cur_file ≡ none → (it.buf ≡ []) × (it.cur_iter ≡ none)
  pub numbered : (k : ℕ) (b : FileBlock) → get_elem? h k ≡ some b → b.req_id ≡ k
  pub sent_marks : All (Marks h) it.sent
  pub pending_marks : All (Marks h) it.pending_boundaries

pub end_path-IsSound :
    (h : List FileBlock) (o : Options) (p : Option String) (it : BlockIterator)
    → it.cur_file ≡ p
    → IsSound h it
    → IsSound h (end_path o p it)
unfolding emit_boundary
end_path-IsSound h o none it e s = s
end_path-IsSound h o (some path) it e s =
    elim (Bool-cases (o.has_boundary_ch && ltb it.file_start_req_id it.req_id)) [
      | inr f ↦ rw f s
      | inl f ↦
          let (b, g, p) = s.current path e (ground (arith, f)) in
          elim (Bool-cases (o.accepts it.attempts)) [
            | inl a ↦
                rw (f, a)
                  (record {
                    counted = s.counted;
                    start = s.start;
                    current = s.current;
                    idle = s.idle;
                    numbered = s.numbered;
                    sent_marks = All-append (Marks h) it.sent _ s.sent_marks ((b, g, p), tt);
                    pending_marks = s.pending_marks;
                  })
            | inr a ↦
                rw (f, a)
                  (record {
                    counted = s.counted;
                    start = s.start;
                    current = s.current;
                    idle = s.idle;
                    numbered = s.numbered;
                    sent_marks = s.sent_marks;
                    pending_marks =
                        All-append (Marks h) it.pending_boundaries _ s.pending_marks
                          ((b, g, p), tt);
                  })
          ]
    ]

drain_pending-All :
    (P : FileBoundary → Type 0) (o : Options) (n : ℕ) (sent pending : List FileBoundary)
    → All P sent
    → All P pending
    → All P (drain_pending o n sent pending).1 × All P (drain_pending o n sent pending).2
unfolding drain_pending
drain_pending-All P o n sent [] a b = (a, tt)
drain_pending-All P o n sent (fb ∷ rest) a b = elim (Bool-cases (o.accepts n)) [
  | inl e ↦ rw e (
      drain_pending-All P o (n + 1) (sent ++ fb ∷ []) rest (All-append P sent (fb ∷ []) a (b.0, tt))
        b.1)
  | inr e ↦ rw e (a, b)
]

drain_pending_boundaries-IsSound :
    (h : List FileBlock) (o : Options) (it : BlockIterator)
    → IsSound h it
    → IsSound h (drain_pending_boundaries o it)
unfolding drain_pending_boundaries
drain_pending_boundaries-IsSound h o it s =
    let both =
      drain_pending-All (Marks h) o it.attempts it.sent it.pending_boundaries s.sent_marks
        s.pending_marks in
    record {
      counted = s.counted;
      start = s.start;
      current = s.current;
      idle = s.idle;
      numbered = s.numbered;
      sent_marks = both.0;
      pending_marks = both.1;
    }

close_reads-IsSound :
    (h : List FileBlock) (r : Option (List DiffRead)) (it : BlockIterator)
    → IsSound h it
    → IsSound h (close_reads r it)
close_reads-IsSound h none it s = s
close_reads-IsSound h (some r) it s = record {
  counted = s.counted;
  start = s.start;
  current = s.current;
  idle = λ e. (refl, refl);
  numbered = s.numbered;
  sent_marks = s.sent_marks;
  pending_marks = s.pending_marks;
}

pub ended_file-IsSound :
    (h : List FileBlock) (o : Options) (it : BlockIterator)
    → IsSound h it
    → IsSound h (ended_file o it)
unfolding ended_file end_of_file close_current_iter
ended_file-IsSound h o it s =
    let ended = drain_pending_boundaries o (end_path o it.cur_file it) in
    close_reads-IsSound h ended.cur_iter ended (
      drain_pending_boundaries-IsSound h o (end_path o it.cur_file it)
        (end_path-IsSound h o it.cur_file it refl s))

-- ===== src/Cephfs/Iterator/Closing.antt =====
-- What Close leaves to the drainer.
use Prim.Native.String.{String}
use ceph_volsync_plugin.Base.{
  ℕ, ◌+◌, ◌-◌, ◌≤◌, ◌≡◌, refl, inl, inr, Bool, true, false, List, [], ◌∷◌, All, All-append,
  All-take, Option, none, some, length, length-append, Bool-cases, leb, arith, if◌then◌else◌,
}
use ceph_volsync_plugin.Cephfs.Drainer.{FileBoundary}
use ceph_volsync_plugin.Cephfs.Iterator.{
  FileBlock, DiffRead, Options, BlockIterator, emit_boundary, end_of_file, close_current_iter,
  last_boundary, end_path, close_reads, flush_all_boundaries, close,
}
use ceph_volsync_plugin.Cephfs.Iterator.Marks.{Marks, IsSound, end_path-IsSound}

pub end_path-pending :
    (o : Options) (p : Option String) (it : BlockIterator)
    → length (end_path o p it).pending_boundaries ≤ length it.pending_boundaries + 1
unfolding emit_boundary
end_path-pending o none it = omega arith
end_path-pending o (some path) it =
    let fb : FileBoundary = record {
      path = path;
      last_req_id = it.req_id - 1;
      total_size = it.total_size;
    } in
    ground (arith, length-append it.pending_boundaries (fb ∷ []))

-- What the flush hands over.
abbrev Flushes : List FileBlock → ℕ → BlockIterator → BlockIterator → Type 0
Flushes h sends it it' =
    All (Marks h) it'.sent × (length it.pending_boundaries ≤ sends → it'.pending_boundaries ≡ [])

flush-Flushes :
    (h : List FileBlock) (sends : ℕ) (it : BlockIterator)
    → IsSound h it
    → Flushes h sends it (flush_all_boundaries sends it)
unfolding flush_all_boundaries
flush-Flushes h sends it s = elim (Bool-cases (leb (length it.pending_boundaries) sends)) [
  | inl e ↦
      rw e (
        All-append (Marks h) it.sent it.pending_boundaries s.sent_marks s.pending_marks,
        λ le. refl,
      )
  | inr e ↦ rw e (
    All-append (Marks h) it.sent _ s.sent_marks
        (All-take (Marks h) sends it.pending_boundaries s.pending_marks),
    λ le. absurd (ground (arith, e)),
  )
]

close_reads-Flushes :
    (h : List FileBlock) (sends : ℕ) (r : Option (List DiffRead)) (it it' : BlockIterator)
    → Flushes h sends it it'
    → Flushes h sends it (close_reads r it')
close_reads-Flushes h sends none it it' f = f
close_reads-Flushes h sends (some x) it it' f = f

close_from :
    (h : List FileBlock) (o : Options) (sends : ℕ) (it ended : BlockIterator)
    → o.has_boundary_ch ≡ true
    → IsSound h ended
    → Flushes h sends ended
        (close_current_iter (if o.has_boundary_ch then flush_all_boundaries sends ended else ended))
unfolding close_current_iter
close_from h o sends it ended b s = rw b (
    close_reads-Flushes h sends (flush_all_boundaries sends ended).cur_iter ended
      (flush_all_boundaries sends ended) (flush-Flushes h sends ended s))

last_boundary-IsSound :
    (h : List FileBlock) (o : Options) (f : Bool) (it : BlockIterator)
    → IsSound h it
    → IsSound h (last_boundary o f it)
unfolding end_of_file
last_boundary-IsSound h o true it s = s
last_boundary-IsSound h o false it s = end_path-IsSound h o it.cur_file it refl s

last_boundary-pending :
    (o : Options) (f : Bool) (it : BlockIterator)
    → length (last_boundary o f it).pending_boundaries ≤ length it.pending_boundaries + 1
unfolding end_of_file
last_boundary-pending o true it = omega arith
last_boundary-pending o false it = end_path-pending o it.cur_file it

-- Close of an iterator that has a boundary channel and is sound after the blocks `h`, whether the
-- transfer failed or not: every boundary that the drainer has been sent marks a block of `h`, and
-- if the context lasts for as many sends as boundaries were kept back and one more, none is left.
pub close_flushes :
    (h : List FileBlock) (o : Options) (sends : ℕ) (it : BlockIterator)
    → o.has_boundary_ch ≡ true
    → IsSound h it
    → All (Marks h) (close sends o it).sent
      × (length it.pending_boundaries + 1 ≤ sends → (close sends o it).pending_boundaries ≡ [])
unfolding close
close_flushes h o sends it b s =
    let ended = last_boundary o it.failed it in
    let (marks, none_left) =
      close_from h o sends it ended b (last_boundary-IsSound h o it.failed it s) in
    (marks, λ le. none_left (omega (arith, last_boundary-pending o it.failed it)))

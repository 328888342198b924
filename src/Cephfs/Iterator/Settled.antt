-- ===== src/Cephfs/Iterator/Settled.antt =====
-- What Close leaves of the blocks given.
use ceph_volsync_plugin.Base.{
  ℕ, ◌+◌, ◌≤◌, ◌≡◌, refl, inl, inr, Bool, true, false, if◌then◌else◌, List, ◌++◌, Any,
  Any-append_left, Any-append_right, Option, none, some, length, leb, Bool-cases, arith,
}
use ceph_volsync_plugin.Cephfs.Drainer.{FileBoundary}
use ceph_volsync_plugin.Cephfs.Iterator.{
  FileBlock, DiffRead, Options, BlockIterator, close, last_boundary, close_reads,
  flush_all_boundaries, end_of_file, end_path, close_current_iter,
}
use ceph_volsync_plugin.Cephfs.Iterator.Closing.{end_path-pending}
use ceph_volsync_plugin.Cephfs.Iterator.Covered.{Ends, IsSettled, IsCovered, end_path-settles}

-- Close of a transfer that did not fail, over the boundary of the current file and all that were
-- kept back.
flush-settles :
    (sends : ℕ) (it : BlockIterator) (b : FileBlock)
    → length it.pending_boundaries ≤ sends
    → IsSettled it b
    → Any (Ends b) (flush_all_boundaries sends it).sent
unfolding flush_all_boundaries
flush-settles sends it b le s = elim (Bool-cases (leb (length it.pending_boundaries) sends)) [
  | inr e ↦ absurd (ground (arith, e))
  | inl e ↦ rw e (all_sent s)
]
  where
    all_sent : IsSettled it b → Any (Ends b) (it.sent ++ it.pending_boundaries)
    all_sent (inl h) = Any-append_left (Ends b) it.sent it.pending_boundaries h
    all_sent (inr h) = Any-append_right (Ends b) it.sent it.pending_boundaries h

close_reads-sent :
    (r : Option (List DiffRead)) (it : BlockIterator) → (close_reads r it).sent ≡ it.sent
close_reads-sent none it = refl
close_reads-sent (some r) it = refl

same_boundaries :
    (b : FileBlock) {xs ys : List FileBoundary} → xs ≡ ys → Any (Ends b) ys → Any (Ends b) xs
same_boundaries b e h = rw e h

-- Close with the two tests that it makes.
close_with-settles :
    (sends : ℕ) (o : Options) (it : BlockIterator) (b : FileBlock) (f c : Bool)
    → f ≡ false
    → c ≡ true
    → Any (Ends b) (flush_all_boundaries sends (end_path o it.cur_file it)).sent
    → Any
        (Ends b)
        (close_current_iter (
          if c
          then flush_all_boundaries sends (last_boundary o f it)
          else last_boundary o f it)).sent
unfolding end_of_file close_current_iter
close_with-settles sends o it b true c e d h = absurd (cc e)
close_with-settles sends o it b false false e d h = absurd (cc d)
close_with-settles sends o it b false true e d h =
    let flushed = flush_all_boundaries sends (end_path o it.cur_file it) in
    same_boundaries b (close_reads-sent flushed.cur_iter flushed) h

-- Close of a transfer that did not fail, where the context lasts: every block is before a boundary
-- of its file in the channel.
pub close-settles :
    (sends : ℕ) (o : Options) (it : BlockIterator) (b : FileBlock)
    → it.failed ≡ false
    → o.has_boundary_ch ≡ true
    → length it.pending_boundaries + 1 ≤ sends
    → IsCovered it b
    → Any (Ends b) (close sends o it).sent
unfolding close
close-settles sends o it b e c le s =
    let ended = end_path o it.cur_file it in
    close_with-settles sends o it b it.failed o.has_boundary_ch e c (
      flush-settles sends ended b (omega (arith, end_path-pending o it.cur_file it))
        (end_path-settles o it.cur_file it b c refl s))

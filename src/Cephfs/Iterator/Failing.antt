-- ===== src/Cephfs/Iterator/Failing.antt =====
-- Only SetFailed marks a transfer as failed.
use ceph_volsync_plugin.Base.{
  ℕ, zero, suc, ◌≡◌, refl, ◌∙◌, Bool, List, [], ◌∷◌, Option, none, some, arith, if◌then◌else◌,
}
use Prim.Native.String.{String}
use ceph_volsync_plugin.Cephfs.Split.{ChangedBlock}
use ceph_volsync_plugin.Cephfs.Iterator.{
  FileEntry, FileBlock, DiffRead, extents, read_error, Options, BlockIterator, Round, emitted,
  again, exhausted, emit_boundary, end_path, end_of_file, drain_pending_boundaries,
  close_current_iter, close_reads, use_reads, ended_file, open_file, advance_to, advance_file,
  read_from, round_from, round, finish, after, next,
}

end_path-failed :
    (o : Options) (p : Option String) (it : BlockIterator) → (end_path o p it).failed ≡ it.failed
unfolding emit_boundary
end_path-failed o none it = refl
end_path-failed o (some path) it = ground arith

close_reads-failed :
    (r : Option (List DiffRead)) (it : BlockIterator) → (close_reads r it).failed ≡ it.failed
close_reads-failed none it = refl
close_reads-failed (some r) it = refl

ended_file-failed : (o : Options) (it : BlockIterator) → (ended_file o it).failed ≡ it.failed
unfolding ended_file end_of_file drain_pending_boundaries close_current_iter
ended_file-failed o it =
    let ended = drain_pending_boundaries o (end_of_file o it) in
    close_reads-failed ended.cur_iter ended ∙ end_path-failed o it.cur_file it

use_reads-failed :
    (r : Option (List DiffRead)) (it : BlockIterator) → (use_reads r it).failed ≡ it.failed
use_reads-failed none it = refl
use_reads-failed (some r) it = refl

open_file-failed :
    (o : Options) (e : FileEntry) (it : BlockIterator) → (open_file o e it).failed ≡ it.failed
unfolding open_file
open_file-failed o e it =
    let size = if o.has_file_ch then e.size else it.total_size in
    ground (
      arith,
      use_reads-failed (o.new_iter e.path)
          (record it { cur_file = some e.path; file_start_req_id = it.req_id; total_size = size }),
    )

abbrev RoundFailed : Bool → Round → Type 0
RoundFailed f (emitted it b) = it.failed ≡ f
RoundFailed f (again it) = it.failed ≡ f
RoundFailed f (exhausted it) = it.failed ≡ f

advance_to-failed :
    (o : Options) (es : List FileEntry) (it : BlockIterator) (f : Bool)
    → it.failed ≡ f
    → RoundFailed f (advance_to o es it)
advance_to-failed o [] it f h = h
advance_to-failed o (e ∷ rest) it f h = open_file-failed o e (record it { entries = rest }) ∙ h

advance_file-failed :
    (o : Options) (it : BlockIterator) (f : Bool)
    → it.failed ≡ f
    → RoundFailed f (advance_file o it)
unfolding advance_file
advance_file-failed o it f h =
    advance_to-failed o (ended_file o it).entries (ended_file o it) f (ended_file-failed o it ∙ h)

round-failed :
    (o : Options) (it : BlockIterator) (f : Bool) → it.failed ≡ f → RoundFailed f (round o it)
unfolding round
round-failed o it f h = from it.buf
  where
    reads_from : (r : Option (List DiffRead)) → RoundFailed f (read_from o r it)
    reads_from none = advance_file-failed o it f h
    reads_from (some []) = advance_file-failed o it f h
    reads_from (some (read_error ∷ reads)) = advance_file-failed o it f h
    reads_from (some (extents [] ∷ reads)) = advance_file-failed o it f h
    reads_from (some (extents (b ∷ bs) ∷ reads)) = h

    from : (bs : List ChangedBlock) → RoundFailed f (round_from o bs it)
    from [] = reads_from it.cur_iter
    from (b ∷ bs) = h

abbrev pub NextFailed : Bool → Option (BlockIterator × Option FileBlock) → Type 0
NextFailed f none = Unit
NextFailed f (some (it, b)) = it.failed ≡ f

finish-failed :
    (it : BlockIterator) (r : Round) (more : Option (BlockIterator × Option FileBlock)) (f : Bool)
    → RoundFailed f r
    → ((after it r).failed ≡ f → NextFailed f more)
    → NextFailed f (finish r more)
finish-failed it (emitted it' b) more f h later = h
finish-failed it (exhausted it') more f h later = h
finish-failed it (again it') more f h later = later h

pub next-failed :
    (fuel : ℕ) (o : Options) (it : BlockIterator) (f : Bool)
    → it.failed ≡ f
    → NextFailed f (next fuel o it)
unfolding next
next-failed zero o it f h = tt
next-failed (suc fuel) o it f h =
    let r = round o it in
    finish-failed it r (next fuel o (after it r)) f (round-failed o it f h)
      (next-failed fuel o (after it r) f)

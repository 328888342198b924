-- ===== src/Cephfs/Iterator/Rounds.antt =====
-- Next comes to an end.
use Prim.Native.String.{String}
use ceph_volsync_plugin.Base.{
  ℕ, zero, suc, ◌+◌, ◌*◌, ◌≤◌, ◌<◌, ◌≡◌, refl, ap, ◌∙◌, List, [], ◌∷◌, Option, none, some, length,
  arith, if◌then◌else◌,
}
use ceph_volsync_plugin.Cephfs.Split.{ChangedBlock, split_large_blocks}
use ceph_volsync_plugin.Cephfs.Split.Pieces.{split_large_blocks-some}
use ceph_volsync_plugin.Cephfs.Iterator.{
  FileEntry, FileBlock, DiffRead, extents, read_error, Options, BlockIterator, max_block_len,
  emit_boundary, drain_pending_boundaries, end_of_file, close_current_iter, end_path, close_reads,
  use_reads, ended_file, advance_to, read_from, round_from, finish, after, open_file, Round,
  emitted, again, exhausted, advance_file, round, next,
}

abbrev iter_weight : Option (List DiffRead) → ℕ
iter_weight none = 0
iter_weight (some _) = 1

abbrev weight : List ChangedBlock → Option (List DiffRead) → List FileEntry → ℕ
weight (b ∷ bs) reads entries = 0
weight [] reads entries = suc (2 * length entries + iter_weight reads)

-- The rounds that Next takes at most before the one that ends it.
abbrev pub rounds_left : BlockIterator → ℕ
rounds_left it = weight it.buf it.cur_iter it.entries

weight-le :
    (bs : List ChangedBlock) (reads : Option (List DiffRead)) (entries : List FileEntry)
    → weight bs reads entries ≤ 2 * length entries + 2
weight-le [] none entries = omega arith
weight-le [] (some reads) entries = omega arith
weight-le (b ∷ bs) reads entries = omega arith

weight-some :
    (bs : List ChangedBlock) (reads : Option (List DiffRead)) (entries : List FileEntry)
    → 0 < length bs
    → weight bs reads entries ≡ 0
weight-some [] reads entries h = absurd (omega arith)
weight-some (b ∷ bs) reads entries h = refl

-- A round that does not end Next leaves fewer rounds.
abbrev Shrinks : ℕ → Round → Type 0
Shrinks n (emitted it b) = Unit
Shrinks n (exhausted it) = Unit
Shrinks n (again it) = rounds_left it < n

end_path-entries :
    (o : Options) (p : Option String) (it : BlockIterator) → (end_path o p it).entries ≡ it.entries
unfolding emit_boundary
end_path-entries o none it = refl
end_path-entries o (some path) it = ground arith

close_reads-entries :
    (r : Option (List DiffRead)) (it : BlockIterator) → (close_reads r it).entries ≡ it.entries
close_reads-entries none it = refl
close_reads-entries (some r) it = refl

pub ended_file-entries : (o : Options) (it : BlockIterator) → (ended_file o it).entries ≡ it.entries
unfolding ended_file end_of_file drain_pending_boundaries close_current_iter
ended_file-entries o it =
    let ended = end_of_file o it in
    close_reads-entries (drain_pending_boundaries o ended).cur_iter
      (drain_pending_boundaries o ended)
    ∙ end_path-entries o it.cur_file it

use_reads-entries :
    (r : Option (List DiffRead)) (it : BlockIterator) → (use_reads r it).entries ≡ it.entries
use_reads-entries none it = refl
use_reads-entries (some r) it = refl

pub open_file-entries :
    (o : Options) (e : FileEntry) (it : BlockIterator) → (open_file o e it).entries ≡ it.entries
unfolding open_file
open_file-entries o e it =
    let size = if o.has_file_ch then e.size else it.total_size in
    ground (
      arith,
      use_reads-entries (o.new_iter e.path)
          (record it { cur_file = some e.path; file_start_req_id = it.req_id; total_size = size }),
    )

advance_to-Shrinks :
    (o : Options) (es : List FileEntry) (it : BlockIterator) (n : ℕ)
    → 2 * length es < n
    → Shrinks n (advance_to o es it)
advance_to-Shrinks o [] it n h = tt
advance_to-Shrinks o (e ∷ rest) it n h =
    let opened = open_file o e (record it { entries = rest }) in
    let kept : opened.entries ≡ rest = open_file-entries o e (record it { entries = rest }) in
    omega (arith, weight-le opened.buf opened.cur_iter opened.entries, ap length kept)

advance_file-Shrinks :
    (o : Options) (it : BlockIterator) (n : ℕ)
    → 2 * length it.entries < n
    → Shrinks n (advance_file o it)
unfolding advance_file
advance_file-Shrinks o it n h =
    advance_to-Shrinks o (ended_file o it).entries (ended_file o it) n
      (omega (arith, ap length (ended_file-entries o it)))

read_from-Shrinks :
    (o : Options) (r : Option (List DiffRead)) (it : BlockIterator) (n : ℕ)
    → 2 * length it.entries + iter_weight r < n
    → Shrinks n (read_from o r it)
read_from-Shrinks o none it n h = advance_file-Shrinks o it n (omega arith)
read_from-Shrinks o (some []) it n h = advance_file-Shrinks o it n (omega arith)
read_from-Shrinks o (some (read_error ∷ reads)) it n h = advance_file-Shrinks o it n (omega arith)
read_from-Shrinks o (some (extents [] ∷ reads)) it n h = advance_file-Shrinks o it n (omega arith)
read_from-Shrinks o (some (extents (b ∷ bs) ∷ reads)) it n h = omega (
  arith,
  weight-some (split_large_blocks (length (b ∷ bs)) max_block_len (b ∷ bs)) (some reads) it.entries
      (split_large_blocks-some (length (b ∷ bs)) max_block_len b bs),
)

round_from-Shrinks :
    (o : Options) (bs : List ChangedBlock) (it : BlockIterator)
    → Shrinks (weight bs it.cur_iter it.entries) (round_from o bs it)
round_from-Shrinks o (b ∷ bs) it = tt
round_from-Shrinks o [] it =
    read_from-Shrinks o it.cur_iter it (weight [] it.cur_iter it.entries) (omega arith)

round-Shrinks : (o : Options) (it : BlockIterator) → Shrinks (rounds_left it) (round o it)
unfolding round
round-Shrinks o it = round_from-Shrinks o it.buf it

finish-some :
    (n : ℕ) (it : BlockIterator) (r : Round) (more : Option (BlockIterator × Option FileBlock))
    → Shrinks n r
    → (rounds_left (after it r) < n → (x : BlockIterator × Option FileBlock) × (more ≡ some x))
    → (x : BlockIterator × Option FileBlock) × (finish r more ≡ some x)
finish-some n it (emitted it' b) more s later = ((it', some b), refl)
finish-some n it (exhausted it') more s later = ((it', none), refl)
finish-some n it (again it') more s later = later s

-- Next gives a block or says that there is none after a number of rounds that the state bounds: at
-- most two for each file that is left and two more, whatever the files, their diffs and the
-- channels give.
pub next_returns :
    (fuel : ℕ) (o : Options) (it : BlockIterator)
    → rounds_left it < fuel
    → (r : BlockIterator × Option FileBlock) × (next fuel o it ≡ some r)
unfolding next
next_returns zero o it h = absurd (omega arith)
next_returns (suc fuel) o it h =
    finish-some (rounds_left it) it (round o it) (next fuel o (after it (round o it)))
      (round-Shrinks o it) (λ less. next_returns fuel o (after it (round o it)) (omega arith))

-- ===== src/Cephfs/Iterator/Complete.antt =====
-- The blocks given keep their boundaries, or belong to the file that is read now.
use Prim.Native.String.{String}
use native.Mathlib.Nat.{mod-eq_of_lt}
use ceph_volsync_plugin.Base.{
  ℕ, zero, suc, ◌+◌, ◌%◌, ◌<◌, ◌≡◌, refl, inl, inr, true, List, [], ◌∷◌, ◌++◌, All, All-map,
  All-append, Option, none, some, length, arith,
}
use ceph_volsync_plugin.Pipeline.Window.{u64}
use ceph_volsync_plugin.Cephfs.Split.{ChangedBlock}
use ceph_volsync_plugin.Cephfs.Iterator.{
  FileEntry, FileBlock, DiffRead, extents, read_error, Options, BlockIterator, Round, emitted,
  again, exhausted, ended_file, advance_to, advance_file, read_from, round_from, round, emit_block,
  path_of, finish, after, next,
}
use ceph_volsync_plugin.Cephfs.Iterator.Marks.{IsSound}
use ceph_volsync_plugin.Cephfs.Iterator.Files.{SoundRound}
use ceph_volsync_plugin.Cephfs.Iterator.Run.{round-Sound}
use ceph_volsync_plugin.Cephfs.Iterator.Covered.{
  IsSettled, IsOpen, IsCovered, ended_file-settles, open_file-settles,
}

abbrev CoveredRound : List FileBlock → Round → Type 0
CoveredRound h (emitted it b) = All (IsCovered it) (h ++ b ∷ [])
CoveredRound h (again it) = All (IsCovered it) h
CoveredRound h (exhausted it) = All (IsCovered it) h

advance_to-Covered :
    (h : List FileBlock) (o : Options) (es : List FileEntry) (it : BlockIterator)
    → All (IsSettled it) h
    → CoveredRound h (advance_to o es it)
advance_to-Covered h o [] it a = All-map h (λ b s. inl s) a
advance_to-Covered h o (e ∷ rest) it a =
    All-map h (λ b s. inl (open_file-settles o e (record it { entries = rest }) b s)) a

advance_file-Covered :
    (h : List FileBlock) (o : Options) (it : BlockIterator)
    → o.has_boundary_ch ≡ true
    → All (IsCovered it) h
    → CoveredRound h (advance_file o it)
unfolding advance_file
advance_file-Covered h o it c a =
    advance_to-Covered h o (ended_file o it).entries (ended_file o it)
      (All-map h (λ b s. ended_file-settles o it b c s) a)

read_from-Covered :
    (h : List FileBlock) (o : Options) (r : Option (List DiffRead)) (it : BlockIterator)
    → o.has_boundary_ch ≡ true
    → All (IsCovered it) h
    → CoveredRound h (read_from o r it)
read_from-Covered h o none it c a = advance_file-Covered h o it c a
read_from-Covered h o (some []) it c a = advance_file-Covered h o it c a
read_from-Covered h o (some (read_error ∷ reads)) it c a = advance_file-Covered h o it c a
read_from-Covered h o (some (extents [] ∷ reads)) it c a = advance_file-Covered h o it c a
read_from-Covered h o (some (extents (b ∷ bs) ∷ reads)) it c a = All-map h (λ x s. s) a

named :
    (p : Option String) (it : BlockIterator)
    → it.cur_file ≡ p
    → (it.cur_file ≡ none → ⊥)
    → it.cur_file ≡ some (path_of p)
named none it e n = absurd (n e)
named (some path) it e n = e

emit_block-IsOpen :
    (b : ChangedBlock) (bs : List ChangedBlock) (it : BlockIterator) (h : List FileBlock)
    → it.buf ≡ b ∷ bs
    → (it.req_id + 1) % u64 ≡ it.req_id + 1
    → IsSound h it
    → IsOpen
        (record it { buf = bs; req_id = (it.req_id + 1) % u64 })
        (emit_block (path_of it.cur_file) b it)
emit_block-IsOpen b bs it h e up s =
    (named it.cur_file it refl (λ n. absurd (cc (e, (s.idle n).0))), (s.start, omega (arith, up)))

round_from-Covered :
    (h : List FileBlock) (o : Options) (bs : List ChangedBlock) (it : BlockIterator)
    → it.buf ≡ bs
    → length h + 1 < u64
    → o.has_boundary_ch ≡ true
    → IsSound h it
    → All (IsCovered it) h
    → CoveredRound h (round_from o bs it)
round_from-Covered h o [] it e small c s a = read_from-Covered h o it.cur_iter it c a
round_from-Covered h o (b ∷ bs) it e small c s a =
    let up : (it.req_id + 1) % u64 ≡ it.req_id + 1 =
      mod-eq_of_lt {n = it.req_id + 1} {m = u64} (omega (arith, s.counted)) in
    let after : BlockIterator = record it { buf = bs; req_id = (it.req_id + 1) % u64 } in
    let d = emit_block (path_of it.cur_file) b it in
    All-append (IsCovered after) h (d ∷ []) (All-map h (λ x. kept x up) a)
      (inr (emit_block-IsOpen b bs it h e up s), tt)
  where
    kept :
        (x : FileBlock)
        → (it.req_id + 1) % u64 ≡ it.req_id + 1
        → IsCovered it x
        → IsCovered (record it { buf = bs; req_id = (it.req_id + 1) % u64 }) x
    kept x up (inl k) = inl k
    kept x up (inr now) = inr (now.0, (now.1.0, omega (arith, up, now.1.1)))

round-Covered :
    (h : List FileBlock) (o : Options) (it : BlockIterator)
    → length h + 1 < u64
    → o.has_boundary_ch ≡ true
    → IsSound h it
    → All (IsCovered it) h
    → CoveredRound h (round o it)
unfolding round
round-Covered h o it small c s a = round_from-Covered h o it.buf it refl small c s a

-- The state after the blocks `h`.
abbrev pub Keeps : List FileBlock → BlockIterator → Type 0
Keeps h it = IsSound h it × All (IsCovered it) h

-- What holds after Next.
abbrev pub KeepsNext : List FileBlock → Option (BlockIterator × Option FileBlock) → Type 0
KeepsNext h none = Unit
KeepsNext h (some (it, some b)) = Keeps (h ++ b ∷ []) it
KeepsNext h (some (it, none)) = Keeps h it

finish-Keeps :
    (h : List FileBlock) (it : BlockIterator) (r : Round)
    (more : Option (BlockIterator × Option FileBlock))
    → SoundRound h r
    → CoveredRound h r
    → (Keeps h (after it r) → KeepsNext h more)
    → KeepsNext h (finish r more)
finish-Keeps h it (emitted it' b) more s a later = (s, a)
finish-Keeps h it (exhausted it') more s a later = (s, a)
finish-Keeps h it (again it') more s a later = later (s, a)

pub next-Keeps :
    (fuel : ℕ) (h : List FileBlock) (o : Options) (it : BlockIterator)
    → length h + 1 < u64
    → o.has_boundary_ch ≡ true
    → Keeps h it
    → KeepsNext h (next fuel o it)
unfolding next
next-Keeps zero h o it small c k = tt
next-Keeps (suc fuel) h o it small c k =
    let r = round o it in
    finish-Keeps h it r (next fuel o (after it r)) (round-Sound h o it small k.0)
      (round-Covered h o it small c k.0 k.1) (next-Keeps fuel h o (after it r) small c)

-- ===== src/Cephfs/Iterator/Run.antt =====
-- The blocks and the boundaries over any calls of Next.
use ceph_volsync_plugin.Base.{
  ℕ, zero, suc, ◌+◌, ◌%◌, ◌<◌, ◌≡◌, refl, sym, ap, ◌∙◌, ◌⊎◌, inl, inr, List, [], ◌∷◌, ◌++◌, All,
  Option, none, some, length, length-append, get_elem?, arith,
}
use native.Mathlib.Nat.{mod-eq_of_lt}
use mathlib.Core.Option.{some-injective}
use ceph_volsync_plugin.Pipeline.Window.{u64}
use ceph_volsync_plugin.Cephfs.Split.{ChangedBlock}
use ceph_volsync_plugin.Cephfs.Drainer.{FileBoundary}
use ceph_volsync_plugin.Cephfs.Iterator.{
  FileEntry, FileBlock, Options, BlockIterator, new_block_iterator, round_from, finish, after,
  Round, emitted, again, exhausted, round, next, emit_block, path_of,
}
use ceph_volsync_plugin.Cephfs.Iterator.Marks.{Marks, IsSound}
use ceph_volsync_plugin.Cephfs.Iterator.Files.{SoundRound, read_from-Sound}

get_elem?-append :
    (h : List FileBlock) (c : FileBlock) (k : ℕ) {b : FileBlock}
    → get_elem? h k ≡ some b
    → get_elem? (h ++ c ∷ []) k ≡ some b
get_elem?-append [] c k e = absurd (cc e)
get_elem?-append (x ∷ h) c zero e = e
get_elem?-append (x ∷ h) c (suc k) e = get_elem?-append h c k e

get_elem?-last : (h : List FileBlock) (c : FileBlock) → get_elem? (h ++ c ∷ []) (length h) ≡ some c
get_elem?-last [] c = refl
get_elem?-last (x ∷ h) c = get_elem?-last h c

get_elem?-cases :
    (h : List FileBlock) (c : FileBlock) (k : ℕ) (b : FileBlock)
    → get_elem? (h ++ c ∷ []) k ≡ some b
    → (get_elem? h k ≡ some b) ⊎ ((k ≡ length h) × (b ≡ c))
get_elem?-cases [] c zero b e = inr (refl, sym (some-injective _ _ e))
get_elem?-cases [] c (suc k) b e = absurd (cc e)
get_elem?-cases (x ∷ h) c zero b e = inl e
get_elem?-cases (x ∷ h) c (suc k) b e = elim (get_elem?-cases h c k b e) [
  | inl f ↦ inl f
  | inr (f, g) ↦ inr (ap suc f, g)
]

Marks-append :
    (h : List FileBlock) (c : FileBlock) (fbs : List FileBoundary)
    → All (Marks h) fbs
    → All (Marks (h ++ c ∷ [])) fbs
Marks-append h c [] a = tt
Marks-append h c (fb ∷ fbs) a =
    let (b, g, p) = a.0 in ((b, get_elem?-append h c fb.last_req_id g, p), Marks-append h c fbs a.1)

round_from-Sound :
    (h : List FileBlock) (o : Options) (bs : List ChangedBlock) (it : BlockIterator)
    → it.buf ≡ bs
    → length h + 1 < u64
    → IsSound h it
    → SoundRound h (round_from o bs it)
round_from-Sound h o [] it e small s = read_from-Sound h o it.cur_iter it refl s e
round_from-Sound h o (b ∷ bs) it e small s =
    let c = emit_block (path_of it.cur_file) b it in
    let up : (it.req_id + 1) % u64 ≡ it.req_id + 1 =
      mod-eq_of_lt {n = it.req_id + 1} {m = u64} (omega (arith, s.counted)) in
    let counted : (it.req_id + 1) % u64 ≡ length (h ++ c ∷ []) =
      omega (arith, up, s.counted, length-append h (c ∷ [])) in
    record {
      counted = counted;
      start = omega (arith, up, s.start);
      current = λ path p lt. (
        c,
        ap (get_elem? (h ++ c ∷ [])) (omega (arith, up, s.counted)) ∙ get_elem?-last h c,
        ap path_of p,
      );
      idle = λ n. absurd (cc (e, (s.idle n).0));
      numbered = λ k d g. elim (get_elem?-cases h c k d g) [
        | inl f ↦ s.numbered k d f
        | inr (f, q) ↦ ap (λ x. x.req_id) q ∙ s.counted ∙ sym f
      ];
      sent_marks = Marks-append h c it.sent s.sent_marks;
      pending_marks = Marks-append h c it.pending_boundaries s.pending_marks;
    }

pub round-Sound :
    (h : List FileBlock) (o : Options) (it : BlockIterator)
    → length h + 1 < u64
    → IsSound h it
    → SoundRound h (round o it)
unfolding round
round-Sound h o it small s = round_from-Sound h o it.buf it refl small s

-- What holds after Next.
abbrev SoundNext : List FileBlock → Option (BlockIterator × Option FileBlock) → Type 0
SoundNext h none = Unit
SoundNext h (some (it, some b)) = IsSound (h ++ b ∷ []) it
SoundNext h (some (it, none)) = IsSound h it

finish-Sound :
    (h : List FileBlock) (it : BlockIterator) (r : Round)
    (more : Option (BlockIterator × Option FileBlock))
    → IsSound h it
    → SoundRound h r
    → (IsSound h (after it r) → SoundNext h more)
    → SoundNext h (finish r more)
finish-Sound h it (emitted it' b) more s t later = t
finish-Sound h it (exhausted it') more s t later = t
finish-Sound h it (again it') more s t later = later t

next-Sound :
    (fuel : ℕ) (h : List FileBlock) (o : Options) (it : BlockIterator)
    → length h + 1 < u64
    → IsSound h it
    → SoundNext h (next fuel o it)
unfolding next
next-Sound zero h o it small s = tt
next-Sound (suc fuel) h o it small s =
    finish-Sound h it (round o it) (next fuel o (after it (round o it))) s
      (round-Sound h o it small s) (λ t. next-Sound fuel h o (after it (round o it)) small t)

-- The blocks that calls of Next have given.
pub data Gives (o : Options) (first : BlockIterator) : List FileBlock → BlockIterator → Type 0 where
  not_yet : Gives o first [] first
  gives :
      {h : List FileBlock} {it it' : BlockIterator} {b : FileBlock} (fuel : ℕ)
      → Gives o first h it
      → next fuel o it ≡ some (it', some b)
      → Gives o first (h ++ b ∷ []) it'
  ends :
      {h : List FileBlock} {it it' : BlockIterator} (fuel : ℕ)
      → Gives o first h it
      → next fuel o it ≡ some (it', none)
      → Gives o first h it'

pub new-IsSound : (entries : List FileEntry) → IsSound [] (new_block_iterator entries)
unfolding new_block_iterator
new-IsSound entries = record {
  counted = refl;
  start = omega arith;
  current = λ path e. absurd (cc e);
  idle = λ e. (refl, refl);
  numbered = λ k b e. absurd (cc e);
  sent_marks = tt;
  pending_marks = tt;
}

gave :
    (h : List FileBlock) {r r' : Option (BlockIterator × Option FileBlock)}
    → r ≡ r'
    → SoundNext h r
    → SoundNext h r'
gave h {r} {r'} e n = rw e at n

-- After any calls of Next on a new iterator that have given fewer than 2^64 - 1 blocks, whatever
-- the diffs and the channels give: the blocks are numbered from 0 in the order in which they were
-- given, and every file boundary, sent or kept back, names the path and the number of a block that
-- was given before it.
pub Gives-IsSound :
    (o : Options) (entries : List FileEntry) {h : List FileBlock} {it : BlockIterator}
    → length h + 1 < u64
    → Gives o (new_block_iterator entries) h it
    → IsSound h it
Gives-IsSound o entries small not_yet = new-IsSound entries
Gives-IsSound o entries small (gives {h} {it} {it'} {b} fuel g e) =
    let more = length-append h (b ∷ []) in
    let n =
      next-Sound fuel h o it (omega (arith, more))
        (Gives-IsSound o entries (omega (arith, more)) g) in
    gave h e n
Gives-IsSound o entries small (ends {h} {it} {it'} fuel g e) =
    gave h e (next-Sound fuel h o it small (Gives-IsSound o entries small g))

-- ===== src/Cephfs/Iterator/Served.antt =====
-- Every small file that comes gets a block.
use Prim.Native.String.{String}
use ceph_volsync_plugin.Base.{
  ℕ, zero, suc, ◌<◌, ◌≡◌, refl, ap, ◌∙◌, ◌⊎◌, inl, inr, true, false, List, [], ◌∷◌, ◌++◌, Any,
  Any-append_left, Any-append_right, Option, none, some, length, arith,
}
use ceph_volsync_plugin.Base.Int.{ℤ, pos, negsuc}
use ceph_volsync_plugin.Cephfs.Split.{ChangedBlock}
use ceph_volsync_plugin.Cephfs.Split.Pieces.{split_large_blocks-some}
use ceph_volsync_plugin.Cephfs.Iterator.{
  FileEntry, FileBlock, DiffRead, extents, read_error, Options, BlockIterator, Round, emitted,
  again, exhausted, ended_file, open_file, advance_to, advance_file, read_from, round_from, round,
  emit_block, path_of, finish, after, next, is_small, is_empty_size, whole_file, max_block_len,
}
use ceph_volsync_plugin.Cephfs.Iterator.Rounds.{ended_file-entries, open_file-entries}

-- A block of the file.
abbrev pub HasBlock : String → List FileBlock → Type 0
HasBlock path h = Any (λ b. b.file_path ≡ path) h

abbrev pub Awaits : FileEntry → List FileEntry → Type 0
Awaits e entries = Any (λ d. d ≡ e) entries

-- The file has had a block, or is the current one and has a block in the buffer, or is still to
-- come.
abbrev pub IsServed : FileEntry → List FileBlock → BlockIterator → Type 0
IsServed e h it =
    HasBlock e.path h ⊎ (((it.cur_file ≡ some e.path) × (0 < length it.buf)) ⊎ Awaits e it.entries)

whole_file-some : (t : ℕ) (z : ℤ) → is_small t z ≡ true → 0 < length (whole_file z)
whole_file-some t (pos n) h =
    split_large_blocks-some 1 max_block_len (record { offset = 0; len = n }) []
whole_file-some t (negsuc n) h = absurd (cc h)

small_file : (t : ℕ) (z : ℤ) → is_small t z ≡ true → is_empty_size z ≡ false
small_file t (pos n) h = ground (arith, h)
small_file t (negsuc n) h = refl

open_file-small :
    (o : Options) (e : FileEntry) (it : BlockIterator)
    → o.has_file_ch ≡ true
    → is_small o.small_file_threshold e.size ≡ true
    → ((open_file o e it).cur_file ≡ some e.path) × (0 < length (open_file o e it).buf)
unfolding open_file
open_file-small o e it c s =
    let full = whole_file-some o.small_file_threshold e.size s in
    let n = small_file o.small_file_threshold e.size s in simp (c, s, n) (refl, full)

-- A round that does not end Next keeps it; the one that finds no more files has left none out.
abbrev ServedRound : FileEntry → List FileBlock → Round → Type 0
ServedRound e h (emitted it b) = IsServed e (h ++ b ∷ []) it
ServedRound e h (again it) = IsServed e h it
ServedRound e h (exhausted it) = HasBlock e.path h

opened-Served :
    (e d : FileEntry) (h : List FileBlock) (o : Options) (it : BlockIterator)
    → o.has_file_ch ≡ true
    → is_small o.small_file_threshold e.size ≡ true
    → d ≡ e
    → IsServed e h (open_file o d it)
opened-Served e d h o it c s q =
    let both = open_file-small o d it c (ap (λ x. is_small o.small_file_threshold x.size) q ∙ s) in
    inr (inl (both.0 ∙ ap (λ x. some x.path) q, both.1))

advance_to-Served :
    (e : FileEntry) (h : List FileBlock) (o : Options) (es : List FileEntry) (it : BlockIterator)
    → o.has_file_ch ≡ true
    → is_small o.small_file_threshold e.size ≡ true
    → HasBlock e.path h ⊎ Awaits e es
    → ServedRound e h (advance_to o es it)
advance_to-Served e h o [] it c s (inl b) = b
advance_to-Served e h o [] it c s (inr w) = absurd w
advance_to-Served e h o (d ∷ rest) it c s (inl b) = inl b
advance_to-Served e h o (d ∷ rest) it c s (inr (inl q)) =
    opened-Served e d h o (record it { entries = rest }) c s q
advance_to-Served e h o (d ∷ rest) it c s (inr (inr w)) =
    inr (inr (rw (open_file-entries o d (record it { entries = rest })) w))

advance_file-Served :
    (e : FileEntry) (h : List FileBlock) (o : Options) (it : BlockIterator)
    → o.has_file_ch ≡ true
    → is_small o.small_file_threshold e.size ≡ true
    → HasBlock e.path h ⊎ Awaits e it.entries
    → ServedRound e h (advance_file o it)
unfolding advance_file
advance_file-Served e h o it c s w =
    advance_to-Served e h o (ended_file o it).entries (ended_file o it) c s (kept w)
  where
    kept :
        HasBlock e.path h ⊎ Awaits e it.entries
        → HasBlock e.path h ⊎ Awaits e (ended_file o it).entries
    kept (inl b) = inl b
    kept (inr k) = inr (rw (ended_file-entries o it) k)

read_from-Served :
    (e : FileEntry) (h : List FileBlock) (o : Options) (r : Option (List DiffRead))
    (it : BlockIterator)
    → o.has_file_ch ≡ true
    → is_small o.small_file_threshold e.size ≡ true
    → HasBlock e.path h ⊎ Awaits e it.entries
    → ServedRound e h (read_from o r it)
read_from-Served e h o none it c s w = advance_file-Served e h o it c s w
read_from-Served e h o (some []) it c s w = advance_file-Served e h o it c s w
read_from-Served e h o (some (read_error ∷ reads)) it c s w = advance_file-Served e h o it c s w
read_from-Served e h o (some (extents [] ∷ reads)) it c s w = advance_file-Served e h o it c s w
read_from-Served e h o (some (extents (b ∷ bs) ∷ reads)) it c s (inl k) = inl k
read_from-Served e h o (some (extents (b ∷ bs) ∷ reads)) it c s (inr k) = inr (inr k)

round_from-Served :
    (e : FileEntry) (h : List FileBlock) (o : Options) (bs : List ChangedBlock) (it : BlockIterator)
    → it.buf ≡ bs
    → o.has_file_ch ≡ true
    → is_small o.small_file_threshold e.size ≡ true
    → IsServed e h it
    → ServedRound e h (round_from o bs it)
round_from-Served e h o [] it q c s (inl k) = read_from-Served e h o it.cur_iter it c s (inl k)
round_from-Served e h o [] it q c s (inr (inl now)) = absurd (omega (arith, ap length q, now.1))
round_from-Served e h o [] it q c s (inr (inr k)) =
    read_from-Served e h o it.cur_iter it c s (inr k)
round_from-Served e h o (b ∷ bs) it q c s (inl k) =
    inl (Any-append_left (λ b. b.file_path ≡ e.path) h _ k)
round_from-Served e h o (b ∷ bs) it q c s (inr (inl now)) = inl (
    Any-append_right (λ b. b.file_path ≡ e.path) h (emit_block (path_of it.cur_file) b it ∷ [])
      (inl (ap path_of now.0)))
round_from-Served e h o (b ∷ bs) it q c s (inr (inr k)) = inr (inr k)

round-Served :
    (e : FileEntry) (h : List FileBlock) (o : Options) (it : BlockIterator)
    → o.has_file_ch ≡ true
    → is_small o.small_file_threshold e.size ≡ true
    → IsServed e h it
    → ServedRound e h (round o it)
unfolding round
round-Served e h o it c s k = round_from-Served e h o it.buf it refl c s k

-- What holds after Next.
abbrev pub ServedNext :
    FileEntry → List FileBlock → Option (BlockIterator × Option FileBlock) → Type 0
ServedNext e h none = Unit
ServedNext e h (some (it, some b)) = IsServed e (h ++ b ∷ []) it
ServedNext e h (some (it, none)) = HasBlock e.path h

finish-Served :
    (e : FileEntry) (h : List FileBlock) (it : BlockIterator) (r : Round)
    (more : Option (BlockIterator × Option FileBlock))
    → ServedRound e h r
    → (IsServed e h (after it r) → ServedNext e h more)
    → ServedNext e h (finish r more)
finish-Served e h it (emitted it' b) more k later = k
finish-Served e h it (exhausted it') more k later = k
finish-Served e h it (again it') more k later = later k

pub next-Served :
    (fuel : ℕ) (e : FileEntry) (h : List FileBlock) (o : Options) (it : BlockIterator)
    → o.has_file_ch ≡ true
    → is_small o.small_file_threshold e.size ≡ true
    → IsServed e h it
    → ServedNext e h (next fuel o it)
unfolding next
next-Served zero e h o it c s k = tt
next-Served (suc fuel) e h o it c s k =
    let r = round o it in
    finish-Served e h it r (next fuel o (after it r)) (round-Served e h o it c s k)
      (next-Served fuel e h o (after it r) c s)

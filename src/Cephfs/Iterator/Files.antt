-- ===== src/Cephfs/Iterator/Files.antt =====
-- Opening and reading a file keeps the boundaries in step with the blocks.
use Prim.Native.String.{String}
use ceph_volsync_plugin.Base.{
  ℕ, ◌≡◌, refl, ◌∙◌, inl, inr, ◌&&◌, List, [], ◌∷◌, ◌++◌, All, Option, none, some, length,
  get_elem?, Bool-cases, arith, if◌then◌else◌,
}
use ceph_volsync_plugin.Cephfs.Iterator.{
  FileEntry, FileBlock, DiffRead, extents, read_error, Options, BlockIterator, emit_boundary,
  drain_pending_boundaries, end_of_file, close_current_iter, end_path, close_reads, use_reads,
  ended_file, advance_to, read_from, open_file, Round, emitted, again, exhausted, advance_file,
  is_empty_size, is_small, whole_file,
}
use ceph_volsync_plugin.Cephfs.Iterator.Marks.{Marks, IsSound, ended_file-IsSound}

-- A file that is opened has had no block yet.
record Opened (h : List FileBlock) (it : BlockIterator) : Type 0 where
  counted : it.req_id ≡ length h
  start : it.file_start_req_id ≡ it.req_id
  file : (path : String) × (it.cur_file ≡ some path)
  numbered : (k : ℕ) (b : FileBlock) → get_elem? h k ≡ some b → b.req_id ≡ k
  sent_marks : All (Marks h) it.sent
  pending_marks : All (Marks h) it.pending_boundaries

Opened-IsSound : (h : List FileBlock) (it : BlockIterator) → Opened h it → IsSound h it
Opened-IsSound h it s = record {
  counted = s.counted;
  start = omega (arith, s.start);
  current = λ path e lt. absurd (omega (arith, s.start));
  idle = λ e. absurd (cc (e, s.file.1));
  numbered = s.numbered;
  sent_marks = s.sent_marks;
  pending_marks = s.pending_marks;
}

use_reads-IsSound :
    (h : List FileBlock) (r : Option (List DiffRead)) (it : BlockIterator)
    → Opened h it
    → IsSound h (use_reads r it)
use_reads-IsSound h none it s = Opened-IsSound h it s
use_reads-IsSound h (some reads) it s =
    Opened-IsSound h (record it { cur_iter = some reads })
      (record {
        counted = s.counted;
        start = s.start;
        file = s.file;
        numbered = s.numbered;
        sent_marks = s.sent_marks;
        pending_marks = s.pending_marks;
      })

open_file-IsSound :
    (h : List FileBlock) (o : Options) (e : FileEntry) (it : BlockIterator)
    → IsSound h it
    → IsSound h (open_file o e it)
unfolding open_file
open_file-IsSound h o e it s =
    let size = if o.has_file_ch then e.size else it.total_size in
    let opened : BlockIterator = record it {
      cur_file = some e.path;
      file_start_req_id = it.req_id;
      total_size = size;
    } in
    let ok : Opened h opened = record {
      counted = s.counted;
      start = refl;
      file = (e.path, refl);
      numbered = s.numbered;
      sent_marks = s.sent_marks;
      pending_marks = s.pending_marks;
    } in
    elim (Bool-cases (o.has_file_ch && is_empty_size size)) [
      | inl a ↦ rw a (Opened-IsSound h opened ok)
      | inr a ↦ elim (Bool-cases (o.has_file_ch && is_small o.small_file_threshold size)) [
        | inl b ↦
            rw (a, b)
              (Opened-IsSound h (record opened { buf = whole_file size })
                (record {
                  counted = s.counted;
                  start = refl;
                  file = (e.path, refl);
                  numbered = s.numbered;
                  sent_marks = s.sent_marks;
                  pending_marks = s.pending_marks;
                }))
        | inr b ↦ rw (a, b) (use_reads-IsSound h (o.new_iter e.path) opened ok)
      ]
    ]

abbrev pub SoundRound : List FileBlock → Round → Type 0
SoundRound h (emitted it b) = IsSound (h ++ b ∷ []) it
SoundRound h (again it) = IsSound h it
SoundRound h (exhausted it) = IsSound h it

advance_to-Sound :
    (h : List FileBlock) (o : Options) (es : List FileEntry) (it : BlockIterator)
    → IsSound h it
    → (it.buf ≡ [])
    → (it.cur_iter ≡ none)
    → SoundRound h (advance_to o es it)
advance_to-Sound h o [] it s b c = record {
  counted = s.counted;
  start = s.start;
  current = λ path e. absurd (cc e);
  idle = λ e. (b, c);
  numbered = s.numbered;
  sent_marks = s.sent_marks;
  pending_marks = s.pending_marks;
}
advance_to-Sound h o (e ∷ rest) it s b c =
    open_file-IsSound h o e (record it { entries = rest })
      (record {
        counted = s.counted;
        start = s.start;
        current = s.current;
        idle = s.idle;
        numbered = s.numbered;
        sent_marks = s.sent_marks;
        pending_marks = s.pending_marks;
      })

end_path-buf :
    (o : Options) (p : Option String) (it : BlockIterator) → (end_path o p it).buf ≡ it.buf
unfolding emit_boundary
end_path-buf o none it = refl
end_path-buf o (some path) it = ground arith

close_reads-empty :
    (r : Option (List DiffRead)) (it : BlockIterator)
    → it.cur_iter ≡ r
    → it.buf ≡ []
    → ((close_reads r it).buf ≡ []) × ((close_reads r it).cur_iter ≡ none)
close_reads-empty none it e b = (b, e)
close_reads-empty (some r) it e b = (refl, refl)

pub ended_file-empty :
    (o : Options) (it : BlockIterator)
    → it.buf ≡ []
    → ((ended_file o it).buf ≡ []) × ((ended_file o it).cur_iter ≡ none)
unfolding ended_file end_of_file close_current_iter drain_pending_boundaries
ended_file-empty o it b =
    let ended = drain_pending_boundaries o (end_path o it.cur_file it) in
    close_reads-empty ended.cur_iter ended refl (end_path-buf o it.cur_file it ∙ b)

advance_file-Sound :
    (h : List FileBlock) (o : Options) (it : BlockIterator)
    → IsSound h it
    → it.buf ≡ []
    → SoundRound h (advance_file o it)
unfolding advance_file
advance_file-Sound h o it s b =
    let empty = ended_file-empty o it b in
    advance_to-Sound h o (ended_file o it).entries (ended_file o it) (ended_file-IsSound h o it s)
      empty.0 empty.1

pub read_from-Sound :
    (h : List FileBlock) (o : Options) (r : Option (List DiffRead)) (it : BlockIterator)
    → it.cur_iter ≡ r
    → IsSound h it
    → it.buf ≡ []
    → SoundRound h (read_from o r it)
read_from-Sound h o none it e s b = advance_file-Sound h o it s b
read_from-Sound h o (some []) it e s b = advance_file-Sound h o it s b
read_from-Sound h o (some (read_error ∷ reads)) it e s b = advance_file-Sound h o it s b
read_from-Sound h o (some (extents [] ∷ reads)) it e s b = advance_file-Sound h o it s b
read_from-Sound h o (some (extents (c ∷ cs) ∷ reads)) it e s b = record {
  counted = s.counted;
  start = s.start;
  current = s.current;
  idle = λ n. absurd (cc (e, (s.idle n).1));
  numbered = s.numbered;
  sent_marks = s.sent_marks;
  pending_marks = s.pending_marks;
}

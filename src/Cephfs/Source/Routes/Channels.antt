-- ===== src/Cephfs/Source/Routes/Channels.antt =====
-- All directories: which entries go to which channel.
use ceph_volsync_plugin.Base.{
  ◌≡◌, ◌≢◌, refl, sym, ap, ◌∙◌, inl, inr, Bool, ◌||◌, List, [], ◌∷◌, ◌++◌, append-nil, append_assoc,
  Bool-cases,
}
use ceph_volsync_plugin.Cephfs.Paths.{Text}
use ceph_volsync_plugin.Cephfs.Source.Routes.{
  Route, ProduceEnd, produced, waiting, read_failed, stat_failed, cancelled, no_iterator,
  walk_failed, Produced, categorize_dir, DirAnswers, follow, produce_entries,
}
use ceph_volsync_plugin.Cephfs.Source.Routes.Reports.{
  Report, all_reports, select, is_missing, gone, is_special, specials, has_data, data_files,
  has_directory, deleted_ch, special_ch, large_ch, select-append, has_directory-append,
  deleted_ch-append, special_ch-append, large_ch-append,
}
use ceph_volsync_plugin.Cephfs.Source.Routes.Rounds.{Channels, stopped, categorize_dir-Channels}

-- A channel of two parts, one after the other.
two_parts :
    (f : List Route → List Text) (test : Report → Bool)
    → ((x y : List Route) → f (x ++ y) ≡ f x ++ f y)
    → (a b : List Route) (s t : List Report) → f a ≡ select test s
    → f b ≡ select test t
    → f (a ++ b) ≡ select test (s ++ t)
two_parts f test hf a b s t h k =
    hf a b ∙ ap (λ z. z ++ f b) h ∙ ap (λ z. select test s ++ z) k ∙ sym (select-append test s t)

-- A directory that ended well goes before what comes next.
both_Channels :
    {all others : List Report} {p q : Produced}
    → p.end ≡ produced
    → Channels all p
    → Channels others q
    → Channels (all ++ others) (record {
      routed = p.routed ++ q.routed;
      dir_changed = p.dir_changed || q.dir_changed;
      end = q.end;
    })
unfolding gone specials data_files
both_Channels {all} {others} {p} {q} e c d = record {
  seen = c.seen ++ d.seen;
  rest = d.rest;
  seen_is =
      append_assoc c.seen d.seen d.rest
      ∙ ap (λ z. c.seen ++ z) d.seen_is
      ∙ ap (λ z. z ++ others)
          (sym (append-nil c.seen) ∙ ap (λ z. c.seen ++ z) (sym (c.complete e)) ∙ c.seen_is);
  deleted_is =
      two_parts deleted_ch (λ r. is_missing r.entry.stat) deleted_ch-append p.routed q.routed c.seen
        d.seen c.deleted_is d.deleted_is;
  special_is =
      two_parts special_ch (λ r. is_special r.entry.dtype r.entry.stat) special_ch-append p.routed
        q.routed c.seen d.seen c.special_is d.special_is;
  large_is =
      two_parts large_ch (λ r. has_data r.entry.dtype r.entry.stat) large_ch-append p.routed
        q.routed c.seen d.seen c.large_is d.large_is;
  dir_is =
      ap (λ z. z || q.dir_changed) c.dir_is
      ∙ ap (λ z. has_directory c.seen || z) d.dir_is
      ∙ sym (has_directory-append c.seen d.seen);
  complete = d.complete;
}

-- The directories after a failure are not looked at.
Channels-more :
    (others : List Report) {all : List Report} {p : Produced}
    → p.end ≢ produced
    → Channels all p
    → Channels (all ++ others) p
Channels-more others n c = record {
  seen = c.seen;
  rest = c.rest ++ others;
  seen_is = sym (append_assoc c.seen c.rest others) ∙ ap (λ z. z ++ others) c.seen_is;
  deleted_is = c.deleted_is;
  special_is = c.special_is;
  large_is = c.large_is;
  dir_is = c.dir_is;
  complete = λ k. absurd (n k);
}

follow-Channels :
    {all others : List Report} (e : ProduceEnd) (now : Produced) {rest : Produced}
    → now.end ≡ e
    → Channels all now
    → Channels others rest
    → Channels (all ++ others) (follow e now rest)
follow-Channels produced now h c d = both_Channels h c d
follow-Channels waiting now h c d = Channels-more _ (λ k. cc (h, k)) c
follow-Channels read_failed now h c d = Channels-more _ (λ k. cc (h, k)) c
follow-Channels stat_failed now h c d = Channels-more _ (λ k. cc (h, k)) c
follow-Channels cancelled now h c d = Channels-more _ (λ k. cc (h, k)) c
follow-Channels no_iterator now h c d = Channels-more _ (λ k. cc (h, k)) c
follow-Channels walk_failed now h c d = Channels-more _ (λ k. cc (h, k)) c

-- Whatever fails: of the entries that the diffs of the directories report, a first part was looked
-- at, and of that part, in order, the deletions channel got exactly the paths that are gone, the
-- channel for rsync those that are there and are neither a directory nor a regular file with data,
-- and the pipeline the regular files with data, of whatever size; the flag for directories is set
-- exactly if one of them is a directory that is still there; and if there was no error every entry
-- was looked at.
pub produce_entries-Channels :
    (answers : Text → DirAnswers) (walk_ok : Bool) (dirs : List Text)
    → Channels (all_reports answers dirs) (produce_entries answers walk_ok dirs)
unfolding produce_entries all_reports
produce_entries-Channels answers walk_ok [] = stopped [] _ (λ k. refl)
produce_entries-Channels answers walk_ok (dir ∷ dirs) =
    let a = answers dir in
    let now = categorize_dir-Channels dir a.reads in
    let next = produce_entries-Channels answers walk_ok dirs in
    elim (Bool-cases a.done) [
      | inl e ↦ simp e (stopped _ cancelled (λ k. cc))
      | inr e ↦ elim (Bool-cases a.opens) [
        | inr o ↦ simp (e, o) (stopped _ no_iterator (λ k. cc))
        | inl o ↦
            simp (e, o)
              (follow-Channels (categorize_dir dir a.reads).end (categorize_dir dir a.reads) refl
                now next)
      ]
    ]

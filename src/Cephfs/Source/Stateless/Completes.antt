-- ===== src/Cephfs/Source/Stateless/Completes.antt =====
-- What holds once a sync has completed.
use ceph_volsync_plugin.Base.{
  ◌≡◌, refl, sym, ap, ◌∙◌, Bool, true, false, ◌&&◌, List, [], ◌∷◌, ◌++◌, concat, inl, inr,
  Bool-cases, append-nil,
}
use ceph_volsync_plugin.Base.Text.{Text}
use ceph_volsync_plugin.Cephfs.Source.Batches.{flushed}
use ceph_volsync_plugin.Cephfs.Source.Batches.Workers.{AllFlushed, occurs, all_sent}
use ceph_volsync_plugin.Cephfs.Source.Walk.{walk_and_stream_directories}
use ceph_volsync_plugin.Cephfs.Source.Routes.{
  ProduceEnd, produced, waiting, read_failed, stat_failed, cancelled, no_iterator, walk_failed,
  Produced, DirAnswers, follow, categorize_dir, produce_entries,
}
use ceph_volsync_plugin.Cephfs.Source.Routes.Reports.{
  Report, all_reports, gone, specials, data_files, has_directory, deleted_ch, special_ch, large_ch,
}
use ceph_volsync_plugin.Cephfs.Source.Routes.Channels.{produce_entries-Channels}
use ceph_volsync_plugin.Cephfs.Source.Stateless.{
  Environment, completed, Synced, is_produced, is_flushed, all_flushed, group_ok, finish, group,
  run_stateless_sync,
}
use ceph_volsync_plugin.Cephfs.Source.Stateless.Covers.{
  flushed_end, and_left, and_right, all_flushed-AllFlushed, run_deletes_all, consume_all,
}

-- Everything that the diffs of all directories report.
abbrev pub reported : Environment → List Report
reported env = all_reports env.dirs (walk_and_stream_directories env.root).dirs

pub record Completes (env : Environment) (s : Synced) : Type 0 where
  pub walked : (walk_and_stream_directories env.root).ok ≡ true
  pub deleted : concat s.deletes.sent ≡ gone (reported env)
  pub special :
      (test : Text → Bool)
      → occurs test (all_sent s.special_batches) ≡ occurs test (specials (reported env))
  pub large : large_ch s.producer.routed ≡ data_files (reported env)
  pub metas :
      (test : Text → Bool) → occurs test (all_sent s.meta_batches) ≡ occurs test env.committed
  pub convergence : s.convergence ≡ has_directory (reported env)

produced_end : (e : ProduceEnd) → is_produced e ≡ true → e ≡ produced
produced_end produced h = refl
produced_end _ h = absurd (cc)

follow-produced :
    (e : ProduceEnd) (now rest : Produced)
    → now.end ≡ e
    → (follow e now rest).end ≡ produced
    → rest.end ≡ produced
follow-produced produced now rest h k = k
follow-produced waiting now rest h k = absurd (cc (h, k))
follow-produced read_failed now rest h k = absurd (cc (h, k))
follow-produced stat_failed now rest h k = absurd (cc (h, k))
follow-produced cancelled now rest h k = absurd (cc (h, k))
follow-produced no_iterator now rest h k = absurd (cc (h, k))
follow-produced walk_failed now rest h k = absurd (cc (h, k))

-- The producer returns the error of the walk.
produced-walked :
    (answers : Text → DirAnswers) (walk_ok : Bool) (dirs : List Text)
    → (produce_entries answers walk_ok dirs).end ≡ produced
    → walk_ok ≡ true
unfolding produce_entries
produced-walked answers true [] h = refl
produced-walked answers false [] h = absurd (cc)
produced-walked answers walk_ok (dir ∷ dirs) h = elim (Bool-cases (answers dir).done) [
  | inl e ↦ absurd (cc (simp e at h))
  | inr e ↦ elim (Bool-cases (answers dir).opens) [
    | inr o ↦ absurd (cc (simp (e, o) at h))
    | inl o ↦
        let now = categorize_dir dir (answers dir).reads in
        produced-walked answers walk_ok dirs (
          follow-produced now.end now (produce_entries answers walk_ok dirs) refl
            (simp (e, o) at h))
  ]
]

-- A sync completes only if its group has, and it ran the last rsync if a directory had changed.
record Finished (ok : Bool) (s r : Synced) : Type 0 where
  pub group_is : ok ≡ true
  pub convergence : r.convergence ≡ s.producer.dir_changed
  pub producer : r.producer ≡ s.producer
  pub special_batches : r.special_batches ≡ s.special_batches
  pub meta_batches : r.meta_batches ≡ s.meta_batches
  pub deletes : r.deletes ≡ s.deletes

finish-Finished :
    (ok converges : Bool) (s : Synced)
    → s.convergence ≡ false
    → (finish ok converges s).end ≡ completed
    → Finished ok s (finish ok converges s)
finish-Finished false converges s c h = absurd (cc)
finish-Finished true converges s c h = elim (Bool-cases s.producer.dir_changed) [
  | inl e ↦ simp e (record {
    group_is = refl;
    convergence = sym e;
    producer = refl;
    special_batches = refl;
    meta_batches = refl;
    deletes = refl;
  })
  | inr e ↦ simp e (record {
    group_is = refl;
    convergence = c ∙ sym e;
    producer = refl;
    special_batches = refl;
    meta_batches = refl;
    deletes = refl;
  })
]

-- The group has ended without an error, and so has each of its parts.
record Parts (s : Synced) : Type 0 where
  pub producer : s.producer.end ≡ produced
  pub specials : AllFlushed s.special_batches
  pub metas : AllFlushed s.meta_batches
  pub deletes : s.deletes.end ≡ flushed

group_ok-Parts : (pipeline_ok : Bool) (s : Synced) → group_ok pipeline_ok s ≡ true → Parts s
group_ok-Parts pipeline_ok s h =
    let d = is_flushed s.deletes.end in
    let m = all_flushed s.meta_batches in
    let b = all_flushed s.special_batches in
    let p = is_produced s.producer.end in
    let h1 = and_right p (pipeline_ok && (b && (m && d))) h in
    let h2 = and_right pipeline_ok (b && (m && d)) h1 in
    let h3 = and_right b (m && d) h2 in
    record {
      producer = produced_end s.producer.end (and_left p (pipeline_ok && (b && (m && d))) h);
      specials = all_flushed-AllFlushed s.special_batches (and_left b (m && d) h2);
      metas = all_flushed-AllFlushed s.meta_batches (and_left m d h3);
      deletes = flushed_end s.deletes.end (and_right m d h3);
    }

-- If a sync completes: the walk of the directories ended well; the requests for deletions named
-- exactly the reported paths that are gone, in order; the rsync batches held the reported entries
-- that are there and are neither directories nor regular files with data, each as often as
-- reported; the pipeline was given the regular files with data, of whatever size, in order; the
-- metadata batches held the committed files, each as often as it was committed; and the last rsync
-- ran exactly if some reported directory is still there.
pub run_stateless_sync-Completes :
    (env : Environment)
    → (run_stateless_sync env).end ≡ completed
    → Completes env (run_stateless_sync env)
unfolding run_stateless_sync
run_stateless_sync-Completes env h =
    let s = group env in
    let f = finish-Finished (group_ok env.pipeline_ok s) env.converges s refl h in
    let parts = group_ok-Parts env.pipeline_ok s f.group_is in
    let w = walk_and_stream_directories env.root in
    let p = produce_entries env.dirs w.ok w.dirs in
    let ends : p.end ≡ produced = parts.producer in
    let c = produce_entries-Channels env.dirs w.ok w.dirs in
    let seen : c.seen ≡ reported env =
      sym (append-nil c.seen) ∙ ap (λ z. c.seen ++ z) (sym (c.complete ends)) ∙ c.seen_is in
    record {
      walked = produced-walked env.dirs w.ok w.dirs ends;
      deleted =
          ap (λ d. concat d.sent) f.deletes
          ∙ run_deletes_all env.deleter (deleted_ch p.routed) parts.deletes
          ∙ c.deleted_is
          ∙ ap gone seen;
      special = λ test.
          ap (λ b. occurs test (all_sent b)) f.special_batches
          ∙ consume_all env.specials (special_ch p.routed) test parts.specials
          ∙ ap (occurs test) (c.special_is ∙ ap specials seen);
      large = ap (λ q. large_ch q.routed) f.producer ∙ c.large_is ∙ ap data_files seen;
      metas = λ test.
          ap (λ b. occurs test (all_sent b)) f.meta_batches
          ∙ consume_all env.metas env.committed test parts.metas;
      convergence = f.convergence ∙ c.dir_is ∙ ap has_directory seen;
    }

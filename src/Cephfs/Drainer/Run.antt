-- ===== src/Cephfs/Drainer/Run.antt =====
-- What a whole run of the drainer commits.
use ceph_volsync_plugin.Base.{
  ℕ, ◌≡◌, ◌≢◌, refl, sym, ap, ◌∙◌, Bool, true, List, [], ◌∷◌, ◌++◌, map, All, append-nil,
  append_assoc, concat, arith,
}
use ceph_volsync_plugin.Cephfs.Drainer.{
  FileBoundary, Commit, DrainEnd, drained, commit_error, notify_error, cancelled, Drained,
  drain_qualified, Event, Input, closed, done, ready_at, run,
}
use ceph_volsync_plugin.Cephfs.Drainer.Commits.{IsCommit, Keeps, Before}
use ceph_volsync_plugin.Cephfs.Drainer.Loops.{
  fresh-Before, drain_qualified-Keeps, flush_all-Keeps, flush_all-Finishes,
}

-- What was committed is a first part of the files, in their order, and all of them if the run
-- ended without an error. Each of the files committed is in `P`, and each request is bounded.
pub record Committed (P : FileBoundary → Type 0) (files : List FileBoundary) (r : Drained)
    : Type 0 where
  pub rest : List FileBoundary
  pub in_order : concat r.sent ++ rest ≡ files
  pub safe : All P (concat r.sent)
  pub sizes : All IsCommit r.sent
  pub whole : r.end ≡ drained → rest ≡ []

Keeps-Committed :
    {P : FileBoundary → Type 0} {files more : List FileBoundary} (later : List FileBoundary)
    {r : Drained}
    → files ++ later ≡ more
    → Keeps P files r
    → (r.end ≡ drained → r.pending ++ later ≡ [])
    → Committed P more r
Keeps-Committed later {r} e k h = record {
  rest = r.unsent ++ r.pending ++ later;
  in_order =
      sym (append_assoc (concat r.sent) (r.unsent ++ r.pending) later)
      ∙ ap (λ z. z ++ later) k.files_kept
      ∙ e;
  safe = k.safe;
  sizes = k.sizes;
  whole = λ d. rw (k.settled d) (h d);
}

abbrev pub boundary_of : Event → FileBoundary
boundary_of e = e.boundary

ready_at-released :
    (max_window : ℕ) (e : Event) (b : FileBoundary)
    → ready_at max_window e b ≡ true
    → e.is_released b.last_req_id ≡ true
ready_at-released max_window e b h = ground arith

Committed-files :
    {P : FileBoundary → Type 0} {files others : List FileBoundary} {r : Drained}
    → files ≡ others
    → Committed P files r
    → Committed P others r
Committed-files e c = record {
  rest = c.rest;
  in_order = c.in_order ∙ e;
  safe = c.safe;
  sizes = c.sizes;
  whole = c.whole;
}

-- One event: its files are the pending ones with the new one.
event-files :
    (sent : List (List FileBoundary)) (pending later : List FileBoundary) (b : FileBoundary)
    → (concat sent ++ ([] ++ (pending ++ b ∷ []))) ++ later ≡ concat sent ++ (pending ++ b ∷ later)
event-files sent pending later b =
    append_assoc (concat sent) (pending ++ b ∷ []) later
    ∙ ap (λ z. concat sent ++ z) (append_assoc pending (b ∷ []) later)

event-Committed :
    {P : FileBoundary → Type 0} {files all : List FileBoundary} (later : List FileBoundary)
    (r more : Drained)
    → files ++ later ≡ all
    → Keeps P files r
    → (r.end ≡ drained → Committed P (concat r.sent ++ (r.pending ++ later)) more)
    → Committed P all (elim r.end [ drained ↦ more | _ ↦ r ])
event-Committed {P} {files} {all} later r more e k h = answered r.end refl
  where
    stopped : (r.end ≡ drained → ⊥) → Committed P all r
    stopped n = Keeps-Committed later e k (λ d. absurd (n d))

    answered : (x : DrainEnd) → r.end ≡ x → Committed P all (elim x [ drained ↦ more | _ ↦ r ])
    answered drained d =
        Committed-files
          (sym (append_assoc (concat r.sent) r.pending later)
            ∙ ap (λ z. (concat r.sent ++ (z ++ r.pending)) ++ later) (sym (k.settled d))
            ∙ ap (λ z. z ++ later) k.files_kept
            ∙ e)
          (h d)
    answered commit_error d = stopped (λ g. absurd (cc (d, g)))
    answered notify_error d = stopped (λ g. absurd (cc (d, g)))
    answered cancelled d = stopped (λ g. absurd (cc (d, g)))

run_from-Committed :
    (max_window : ℕ) (commits : ℕ → Commit) (waits : FileBoundary → Bool) (input : Input)
    (acked : ℕ → Bool)
    → ((b : FileBoundary) → waits b ≡ true → acked b.last_req_id ≡ true)
    → (es : List Event) → All (λ e. (id : ℕ) → e.is_released id ≡ true → acked id ≡ true) es
    → (sent : List (List FileBoundary)) (pending : List FileBoundary)
    → Before (λ b. acked b.last_req_id ≡ true) sent []
    → Committed
        (λ b. acked b.last_req_id ≡ true)
        (concat sent ++ (pending ++ map boundary_of es))
        (run max_window commits waits input sent pending es)
unfolding run
run_from-Committed max_window commits waits closed acked w [] a sent pending b =
    Keeps-Committed [] (append-nil _ ∙ ap (λ z. concat sent ++ z) (sym (append-nil pending)))
      (flush_all-Keeps (λ b. acked b.last_req_id ≡ true) commits waits w pending sent [] b)
      (λ d. append-nil _ ∙ flush_all-Finishes commits waits pending sent [] d)
run_from-Committed max_window commits waits done acked w [] a sent pending b = record {
  rest = pending;
  in_order = ap (λ z. concat sent ++ z) (sym (append-nil pending));
  safe = b.safe;
  sizes = b.sizes;
  whole = λ h. absurd (cc h);
}
run_from-Committed max_window commits waits input acked w (e ∷ es) a sent pending b =
    let r = drain_qualified commits (ready_at max_window e) sent [] (pending ++ e.boundary ∷ []) in
    let k =
      drain_qualified-Keeps (λ b. acked b.last_req_id ≡ true) commits (ready_at max_window e)
        (λ f h. a.0 f.last_req_id (ready_at-released max_window e f h)) (pending ++ e.boundary ∷ [])
        sent [] b in
    event-Committed (map boundary_of es) r (run max_window commits waits input r.sent r.pending es)
      (event-files sent pending (map boundary_of es) e.boundary) k
      (λ d.
        run_from-Committed max_window commits waits input acked w es a.1 r.sent r.pending
          (fresh-Before k))

-- Over any run of the drainer, whatever fails, where IsReleased and the waits answer true only for
-- requests that are acknowledged: the files committed are a first part of those received, in their
-- order, in requests of 1 to 1000 files; the last block of each of them is acknowledged; and if the
-- run ends without an error every file received has been committed.
pub run-Committed :
    (max_window : ℕ) (commits : ℕ → Commit) (waits : FileBoundary → Bool) (input : Input)
    (es : List Event) (acked : ℕ → Bool)
    → ((b : FileBoundary) → waits b ≡ true → acked b.last_req_id ≡ true)
    → All (λ e. (id : ℕ) → e.is_released id ≡ true → acked id ≡ true) es
    → Committed
        (λ b. acked b.last_req_id ≡ true)
        (map boundary_of es)
        (run max_window commits waits input [] [] es)
run-Committed max_window commits waits input es acked w a =
    run_from-Committed max_window commits waits input acked w es a [] []
      (record { safe = tt; sizes = tt; ready_batch = tt; room = omega arith })

done_step :
    (r more : Drained)
    → (more.end ≢ drained)
    → (elim r.end as (λ _. Drained) [ drained ↦ more | _ ↦ r ]).end ≢ drained
done_step r more n = answered r.end refl
  where
    answered :
        (x : DrainEnd)
        → r.end ≡ x
        → (elim x as (λ _. Drained) [ drained ↦ more | _ ↦ r ]).end ≢ drained
    answered drained d = n
    answered commit_error d = λ g. absurd (cc (d, g))
    answered notify_error d = λ g. absurd (cc (d, g))
    answered cancelled d = λ g. absurd (cc (d, g))

-- A run whose context ends does not end without an error.
pub run_done :
    (max_window : ℕ) (commits : ℕ → Commit) (waits : FileBoundary → Bool)
    (sent : List (List FileBoundary)) (pending : List FileBoundary) (es : List Event)
    → (run max_window commits waits done sent pending es).end ≢ drained
unfolding run
run_done max_window commits waits sent pending [] = λ h. absurd (cc h)
run_done max_window commits waits sent pending (e ∷ es) =
    let r = drain_qualified commits (ready_at max_window e) sent [] (pending ++ e.boundary ∷ []) in
    done_step r (run max_window commits waits done r.sent r.pending es)
      (run_done max_window commits waits r.sent r.pending es)

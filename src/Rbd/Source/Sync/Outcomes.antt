-- ===== src/Rbd/Source/Sync/Outcomes.antt =====
-- What Sync has done when it ends.
use ceph_volsync_plugin.Base.{
  ℕ, zero, suc, ◌+◌, ◌<◌, ◌≡◌, refl, ◌⊎◌, inl, inr, Bool, true, false, ◌&&◌, List, [], ◌∷◌, All,
  All-map, some, ok, err, length, arith, if◌then◌else◌,
}
use ceph_volsync_plugin.Pipeline.Window.{WindowSemaphore, u64, is_released}
use ceph_volsync_plugin.Pipeline.Window.Tracking.{Tracks, is_released_iff}
use ceph_volsync_plugin.Pipeline.Types.{ChangeBlock}
use ceph_volsync_plugin.Rbd.Adapter.{drain}
use ceph_volsync_plugin.Rbd.Adapter.Numbers.{new_adapter-req_id}
use ceph_volsync_plugin.Rbd.Source.Sync.{
  SyncError, SyncAnswers, Synced, adapter_of, Fed, feed_adapter, fails, close_and_signal_done,
  commit_sync, wait_and_commit, run_pipeline, set_up, steps_of, sync_rbd, pipeline_error, ack_error,
  open_error, send_error, receive_error, signal_error,
}
use ceph_volsync_plugin.Rbd.Source.Sync.Blocks.{
  Counts, feed_adapter-Counts, feed_adapter-drain, feed_adapter-le,
}

abbrev pub AllDone : (ℕ → Bool) → List ChangeBlock → Type 0
AllDone finished bs = All (λ b. finished b.req_id ≡ true) bs

-- A commit or a signal comes after every block is done; success means that the whole diff was
-- taken, that every block of it is done, and that there was a commit unless there was no block.
pub record Settles (finished : ℕ → Bool) (a : SyncAnswers) (r : Synced) : Type 0 where
  pub commit_last : r.committed ≡ true → AllDone finished r.given
  pub signal_last : r.signalled ≡ true → AllDone finished r.given
  pub whole : r.result ≡ ok tt → drain a.calls (adapter_of a) ≡ some r.given
  pub done : r.result ≡ ok tt → AllDone finished r.given
  pub commits : r.result ≡ ok tt → (r.given ≡ []) ⊎ (r.committed ≡ true)
  pub signals : r.result ≡ ok tt → r.signalled ≡ true

fails-Settles :
    (finished : ℕ → Bool) (a : SyncAnswers) (given : List ChangeBlock) (committed : Bool)
    (e : SyncError)
    → (committed ≡ true → AllDone finished given)
    → Settles finished a (fails given committed e)
fails-Settles finished a given committed e h = record {
  commit_last = h;
  signal_last = λ k. absurd (cc k);
  whole = λ k. absurd (cc k);
  done = λ k. absurd (cc k);
  commits = λ k. absurd (cc k);
  signals = λ k. absurd (cc k);
}

-- The signal, of which the answer is `s`.
signal-Settles :
    (finished : ℕ → Bool) (a : SyncAnswers) (given : List ChangeBlock) (committed s : Bool)
    → AllDone finished given
    → drain a.calls (adapter_of a) ≡ some given
    → (given ≡ []) ⊎ (committed ≡ true)
    → Settles finished a (record {
      given = given;
      committed = committed;
      signalled = s;
      result = if s then ok tt else err signal_error;
    })
signal-Settles finished a given committed true all d c = record {
  commit_last = λ k. all;
  signal_last = λ k. all;
  whole = λ k. d;
  done = λ k. all;
  commits = λ k. c;
  signals = λ k. refl;
}
signal-Settles finished a given committed false all d c = record {
  commit_last = λ k. all;
  signal_last = λ k. all;
  whole = λ k. d;
  done = λ k. all;
  commits = λ k. c;
  signals = λ k. absurd (cc k);
}

commit_sync-Settles :
    (finished : ℕ → Bool) (a : SyncAnswers) (given : List ChangeBlock)
    → AllDone finished given
    → drain a.calls (adapter_of a) ≡ some given
    → Settles finished a (commit_sync a given)
unfolding commit_sync
commit_sync-Settles finished a given all d = opens a.opens_commit a.sends_commit a.receives_commit
  where
    opens :
        (o s r : Bool)
        → Settles finished a (
            if o
            then if s
              then if r then close_and_signal_done a given true else fails given true receive_error
              else fails given false send_error
            else fails given false open_error)
    opens false s r = fails-Settles finished a given false open_error (λ k. all)
    opens true false r = fails-Settles finished a given false send_error (λ k. all)
    opens true true false = fails-Settles finished a given true receive_error (λ k. all)
    opens true true true = signal-Settles finished a given true a.signals_done all d (inr refl)

-- Every block is below the number of the next, so it is done if the one before that is passed.
passed-AllDone :
    (finished : ℕ → Bool) (w : WindowSemaphore) (f : Fed) (last : ℕ)
    → Tracks finished w
    → is_released w last ≡ true
    → f.adapter.req_id ≡ suc last
    → Counts 0 f
    → AllDone finished f.given
passed-AllDone finished w f last t h e c =
    let all = (is_released_iff last t).0 h in
    All-map f.given (λ b lt. all b.req_id (omega (arith, e, lt))) c.below

empty_given : (bs : List ChangeBlock) → length bs ≡ 0 → bs ≡ []
empty_given [] e = refl
empty_given (b ∷ bs) e = absurd (omega (arith, e))

wait_and_commit-Settles :
    (finished : ℕ → Bool) (w : WindowSemaphore) (a : SyncAnswers) (f : Fed) (next : ℕ)
    → Tracks finished w
    → ((id : ℕ) → a.acked id ≡ true → is_released w id ≡ true)
    → f.adapter.req_id ≡ next
    → Counts 0 f
    → drain a.calls (adapter_of a) ≡ some f.given
    → Settles finished a (wait_and_commit a f.given next)
wait_and_commit-Settles finished w a f zero t h e c d =
    let none_given = empty_given f.given (omega (arith, e, c.reached)) in
    signal-Settles finished a f.given false a.signals_done (rw none_given tt) d (inl none_given)
wait_and_commit-Settles finished w a f (suc last) t h e c d = waited (a.acked last) refl
  where
    waited :
        (x : Bool)
        → a.acked last ≡ x
        → Settles finished a (if x then commit_sync a f.given else fails f.given false ack_error)
    waited false k = fails-Settles finished a f.given false ack_error (λ q. absurd (cc q))
    waited true k =
        commit_sync-Settles finished a f.given (passed-AllDone finished w f last t (h last k) e c) d

run_pipeline-Settles :
    (finished : ℕ → Bool) (w : WindowSemaphore) (a : SyncAnswers)
    → Tracks finished w
    → ((id : ℕ) → a.acked id ≡ true → is_released w id ≡ true)
    → a.calls + 1 < u64
    → Settles finished a (run_pipeline a)
unfolding run_pipeline
run_pipeline-Settles finished w a t h small = ran (a.stages_ok && f.ended) refl
  where
    f : Fed
    f = feed_adapter a.calls (adapter_of a)

    chosen : Bool → Synced
    chosen x =
        if x then wait_and_commit a f.given f.adapter.req_id else fails f.given false pipeline_error

    ran : (x : Bool) → (a.stages_ok && f.ended) ≡ x → Settles finished a (chosen x)
    ran false k = fails-Settles finished a f.given false pipeline_error (λ q. absurd (cc q))
    ran true k =
        wait_and_commit-Settles finished w a f f.adapter.req_id t h refl
          (feed_adapter-Counts a.calls (adapter_of a) 0
            (new_adapter-req_id a.extents a.vol_size _ _)
            (omega (arith, feed_adapter-le a.calls (adapter_of a))))
          (feed_adapter-drain a.calls (adapter_of a) (ground (arith, k)))

set_up-Settles :
    (finished : ℕ → Bool) (a : SyncAnswers) (more : Synced) (steps : List (Bool × SyncError))
    → Settles finished a more
    → Settles finished a (set_up steps more)
unfolding set_up
set_up-Settles finished a more [] h = h
set_up-Settles finished a more ((true, e) ∷ steps) h = set_up-Settles finished a more steps h
set_up-Settles finished a more ((false, e) ∷ steps) h =
    fails-Settles finished a [] false e (λ k. absurd (cc k))

-- Over any run of Sync, whatever fails, with fewer than 2^64 - 1 calls of Next, where the window
-- `w` at the end tracks the requests that are done and still affirms what IsReleased affirmed
-- before: a commit or a signal is sent only after every block that the feeder took is done. If it
-- succeeds the feeder took all blocks of the diff, every one of them is done, there was a commit
-- unless there was no block, and the end was signalled.
pub sync_rbd-Settles :
    (finished : ℕ → Bool) (w : WindowSemaphore) (a : SyncAnswers)
    → Tracks finished w
    → ((id : ℕ) → a.acked id ≡ true → is_released w id ≡ true)
    → a.calls + 1 < u64
    → Settles finished a (sync_rbd a)
unfolding sync_rbd
sync_rbd-Settles finished w a t h small =
    set_up-Settles finished a (run_pipeline a) (steps_of a)
      (run_pipeline-Settles finished w a t h small)

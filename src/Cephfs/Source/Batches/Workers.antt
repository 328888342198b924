-- ===== src/Cephfs/Source/Batches/Workers.antt =====
-- runParallelRsyncWorkers of internal/worker/cephfs/source.go, for consumeSpecialFiles and
-- consumeMetaRsync: workers that take paths from one channel.
use ceph_volsync_plugin.Base.{
  ℕ, suc, ◌+◌, ◌<◌, ◌≡◌, refl, sym, ap, ◌∙◌, Bool, true, false, List, [], ◌∷◌, ◌++◌, map, concat,
  append-nil, ◌==◌, arith, if◌then◌else◌, All,
}
use ceph_volsync_plugin.Cephfs.Paths.{Text}
use ceph_volsync_plugin.Cephfs.Source.Batches.{
  Received, path, closed, done, flushed, Batched, ListAnswers, is_nil, rsync_batch,
  rsync_worker_loop,
}
use ceph_volsync_plugin.Cephfs.Source.Batches.Delivery.{
  received, is_closed, rsync_worker_loop-Delivers,
}

-- A path that the channel gave, and which worker received it.
pub record Taken : Type 0 where
  pub worker : ℕ
  pub path : Text

-- What one worker received, in order.
unfoldable pub share : ℕ → List Taken → List Text
share w [] = []
share w (t ∷ ts) = if t.worker == w then t.path ∷ share w ts else share w ts

-- The answers that a worker's calls get, and whether the channel's end comes before that of the
-- context.
pub record Worker : Type 0 where
  pub answers : ℕ → ListAnswers
  pub sees_end : Bool

abbrev pub last_event : Bool → Received
last_event true = closed
last_event false = done

unfoldable pub run_worker : (ℕ → Worker) → List Taken → ℕ → Batched
unfolding rsync_worker_loop share
run_worker workers ts w =
    rsync_worker_loop (workers w).answers
      (map path (share w ts) ++ last_event (workers w).sees_end ∷ [])

abbrev pub rsync_workers : ℕ
rsync_workers = 4

unfoldable pub run_parallel_rsync_workers : (ℕ → Worker) → List Taken → List Batched
unfolding run_worker
run_parallel_rsync_workers workers ts = map (run_worker workers ts) (0 ∷ 1 ∷ 2 ∷ 3 ∷ [])

-- g.Wait() returns nil.
abbrev pub AllFlushed : List Batched → Type 0
AllFlushed = All λ b. b.end ≡ flushed

-- How many paths of a list pass a test.
pub occurs : (Text → Bool) → List Text → ℕ
occurs test [] = 0
occurs test (p ∷ ps) = if test p then suc (occurs test ps) else occurs test ps

-- The paths of all batches of all workers.
pub all_sent : List Batched → List Text
all_sent [] = []
all_sent (b ∷ bs) = concat b.sent ++ all_sent bs

occurs-append :
    (test : Text → Bool) (ps qs : List Text)
    → occurs test (ps ++ qs) ≡ occurs test ps + occurs test qs
unfolding occurs
occurs-append test [] qs = omega arith
occurs-append test (p ∷ ps) qs = ground (arith, occurs-append test ps qs)

pub received-map : (ps : List Text) (b : Bool) → received (map path ps ++ last_event b ∷ []) ≡ ps
unfolding received
received-map [] true = refl
received-map [] false = refl
received-map (p ∷ ps) b = ap (◌∷◌ p) (received-map ps b)

pub is_closed-map : (ps : List Text) (b : Bool) → is_closed (map path ps ++ last_event b ∷ []) ≡ b
unfolding is_closed
is_closed-map [] true = refl
is_closed-map [] false = refl
is_closed-map (p ∷ ps) b = is_closed-map ps b

-- A worker that ends without an error has sent its share.
run_worker-share :
    (workers : ℕ → Worker) (ts : List Taken) (w : ℕ)
    → (run_worker workers ts w).end ≡ flushed
    → concat (run_worker workers ts w).sent ≡ share w ts
unfolding run_worker
run_worker-share workers ts w e =
    let rs = map path (share w ts) ++ last_event (workers w).sees_end ∷ [] in
    let d = rsync_worker_loop-Delivers (workers w).answers rs in
    let b = rsync_worker_loop (workers w).answers rs in
    let nothing = d.settled e in
    sym (append-nil (concat b.sent))
    ∙ ap (λ z. concat b.sent ++ (z ++ [])) (sym nothing.0)
    ∙ ap (λ z. concat b.sent ++ (b.unsent ++ z)) (sym nothing.1)
    ∙ d.kept
    ∙ received-map (share w ts) (workers w).sees_end

occurs-run_worker :
    (workers : ℕ → Worker) (ts : List Taken) (test : Text → Bool) (w : ℕ)
    → (run_worker workers ts w).end ≡ flushed
    → occurs test (concat (run_worker workers ts w).sent) ≡ occurs test (share w ts)
occurs-run_worker workers ts test w e = ap (occurs test) (run_worker-share workers ts w e)

-- A worker that ends without an error has seen the channel's end.
pub run_worker-sees_end :
    (workers : ℕ → Worker) (ts : List Taken) (w : ℕ)
    → (run_worker workers ts w).end ≡ flushed
    → (workers w).sees_end ≡ true
unfolding run_worker
run_worker-sees_end workers ts w e =
    let rs = map path (share w ts) ++ last_event (workers w).sees_end ∷ [] in
    sym (is_closed-map (share w ts) (workers w).sees_end)
    ∙ (rsync_worker_loop-Delivers (workers w).answers rs).closes e

abbrev Below : ℕ → Taken → Type 0
Below n t = t.worker < n

occurs-share :
    (test : Text → Bool) (ts : List Taken)
    → All (Below rsync_workers) ts
    → occurs test (share 0 ts)
        + occurs test (share 1 ts)
        + occurs test (share 2 ts)
        + occurs test (share 3 ts)
      ≡ occurs test (map Taken.path ts)
unfolding occurs share
occurs-share test [] h = refl
occurs-share test (t ∷ ts) h = ground (arith, occurs-share test ts h.1, h.0)

occurs-all_sent :
    (test : Text → Bool) (b : Batched) (bs : List Batched)
    → occurs test (all_sent (b ∷ bs)) ≡ occurs test (concat b.sent) + occurs test (all_sent bs)
unfolding all_sent
occurs-all_sent test b bs = occurs-append test (concat b.sent) (all_sent bs)

occurs-none : (test : Text → Bool) → occurs test (all_sent []) ≡ 0
unfolding occurs all_sent
occurs-none test = refl

-- Whichever of the four workers takes which path: if they all end without an error, their batches
-- hold every path that the channel gave as often as it gave it, and no other.
pub run_parallel_rsync_workers_sends :
    (workers : ℕ → Worker) (ts : List Taken) (test : Text → Bool)
    → All (λ t. t.worker < rsync_workers) ts
    → AllFlushed (run_parallel_rsync_workers workers ts)
    → occurs test (all_sent (run_parallel_rsync_workers workers ts))
      ≡ occurs test (map Taken.path ts)
unfolding run_parallel_rsync_workers
run_parallel_rsync_workers_sends workers ts test h (e0, (e1, (e2, (e3, _)))) =
    let run = run_worker workers ts in
    let all = occurs-all_sent test in
    omega (
      arith,
      all (run 0) (run 1 ∷ run 2 ∷ run 3 ∷ []),
      all (run 1) (run 2 ∷ run 3 ∷ []),
      all (run 2) (run 3 ∷ []),
      all (run 3) [],
      occurs-none test,
      occurs-run_worker workers ts test 0 e0,
      occurs-run_worker workers ts test 1 e1,
      occurs-run_worker workers ts test 2 e2,
      occurs-run_worker workers ts test 3 e3,
      occurs-share test ts h,
    )

-- The four workers end without an error if every call succeeds and every worker sees the channel's
-- end.
pub run_parallel_rsync_workers_ends :
    (workers : ℕ → Worker) (ts : List Taken)
    → ((w i : ℕ) → is_nil (rsync_batch ((workers w).answers i)) ≡ true)
    → ((w : ℕ) → (workers w).sees_end ≡ true)
    → AllFlushed (run_parallel_rsync_workers workers ts)
unfolding run_parallel_rsync_workers run_worker
run_parallel_rsync_workers_ends workers ts ok ends = (one 0, (one 1, (one 2, (one 3, tt))))
  where
    one : (w : ℕ) → (run_worker workers ts w).end ≡ flushed
    one w =
        let d =
          rsync_worker_loop-Delivers (workers w).answers
            (map path (share w ts) ++ last_event (workers w).sees_end ∷ []) in
        d.finishes (ok w) (is_closed-map (share w ts) (workers w).sees_end ∙ ends w)

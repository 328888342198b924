-- ===== src/Cephfs/Source/Stateless/Covers.antt =====
-- A sync that completes has dealt with everything that the snapshot diffs report.
use ceph_volsync_plugin.Base.{
  ℕ, zero, suc, ◌+◌, ◌<◌, ◌≡◌, ◌≢◌, ◌≤◌, refl, sym, ap, ◌∙◌, Bool, true, false, ◌&&◌, List, [], ◌∷◌,
  ◌++◌, append-nil, map, length, take, concat, leb, leb→le, All, arith, inl, inr, Bool-cases,
}
use ceph_volsync_plugin.Base.Text.{Text}
use ceph_volsync_plugin.Cephfs.Source.Batches.{BatchEnd, flushed, Batched, consume_deletes}
use ceph_volsync_plugin.Cephfs.Source.Batches.Delivery.{consume_deletes-Delivers}
use ceph_volsync_plugin.Cephfs.Source.Batches.Workers.{
  Taken, rsync_workers, run_parallel_rsync_workers, AllFlushed, occurs, all_sent,
  run_parallel_rsync_workers_sends, run_worker-sees_end, received-map, is_closed-map,
}
use ceph_volsync_plugin.Cephfs.Source.Stateless.{
  Consumers, deal, sees, consume, Deleter, view, run_deletes, is_flushed, all_flushed,
}

pub flushed_end : (e : BatchEnd) → is_flushed e ≡ true → e ≡ flushed
flushed_end flushed h = refl
flushed_end _ h = absurd (cc)

pub and_left : (a b : Bool) → a && b ≡ true → a ≡ true
and_left true b h = refl
and_left false b h = h

pub and_right : (a b : Bool) → a && b ≡ true → b ≡ true
and_right true b h = h
and_right false b h = absurd (cc)

pub all_flushed-AllFlushed : (bs : List Batched) → all_flushed bs ≡ true → AllFlushed bs
all_flushed-AllFlushed [] h = tt
all_flushed-AllFlushed (b ∷ bs) h =
    (flushed_end b.end (and_left _ _ h), all_flushed-AllFlushed bs (and_right _ _ h))

take-all : (n : ℕ) (ps : List Text) → length ps ≤ n → take n ps ≡ ps
take-all zero [] h = refl
take-all zero (p ∷ ps) h = absurd (omega (arith, h))
take-all (suc n) [] h = refl
take-all (suc n) (p ∷ ps) h = ap (◌∷◌ p) (take-all n ps (omega (arith, h)))

-- Whoever saw the end of a channel has taken everything.
took_all :
    (b : Bool) (reads : ℕ) (ps : List Text) → b && leb (length ps) reads ≡ true → take reads ps ≡ ps
took_all b reads ps h =
    take-all reads ps (leb→le (length ps) reads (and_right b (leb (length ps) reads) h))

-- The deletions that end without an error have asked for every path of the channel.
pub run_deletes_all :
    (d : Deleter) (paths : List Text)
    → (run_deletes d paths).end ≡ flushed
    → concat (run_deletes d paths).sent ≡ paths
unfolding run_deletes
run_deletes_all d paths e = elim (Bool-cases d.opens) [
  | inr o ↦ absurd (unopened_end (rw o at e))
  | inl o ↦ rw o (all_asked (rw o at e))
]
  where
    unopened_end : (consume_deletes false d.answers (view d.reads d.sees_end paths)).end ≢ flushed
    unopened_end h = unfold consume_deletes in cc

    all_asked :
        (consume_deletes true d.answers (view d.reads d.sees_end paths)).end ≡ flushed
        → concat (consume_deletes true d.answers (view d.reads d.sees_end paths)).sent ≡ paths
    all_asked h =
        let b = d.sees_end && leb (length paths) d.reads in
        let r = consume_deletes true d.answers (view d.reads d.sees_end paths) in
        let c = consume_deletes-Delivers d.answers (view d.reads d.sees_end paths) in
        let nothing = c.settled h in
        let saw : b ≡ true = sym (is_closed-map (take d.reads paths) b) ∙ c.closes h in
        sym (append-nil (concat r.sent))
        ∙ ap (λ z. concat r.sent ++ (z ++ [])) (sym nothing.0)
        ∙ ap (λ z. concat r.sent ++ (r.unsent ++ z)) (sym nothing.1)
        ∙ c.kept
        ∙ received-map (take d.reads paths) b
        ∙ took_all d.sees_end d.reads paths saw

deal-path : (taker : ℕ → ℕ) (i : ℕ) (ps : List Text) → map Taken.path (deal taker i ps) ≡ ps
deal-path taker i [] = refl
deal-path taker i (p ∷ ps) = ap (◌∷◌ p) (deal-path taker (i + 1) ps)

deal-below :
    (taker : ℕ → ℕ) (i : ℕ) (ps : List Text) → All (λ t. t.worker < rsync_workers) (deal taker i ps)
deal-below taker i [] = tt
deal-below taker i (p ∷ ps) = (ground arith, deal-below taker (i + 1) ps)

-- The workers that all end without an error have synced every path of the channel.
pub consume_all :
    (c : Consumers) (paths : List Text) (test : Text → Bool)
    → AllFlushed (consume c paths)
    → occurs test (all_sent (consume c paths)) ≡ occurs test paths
unfolding consume
consume_all c paths test h =
    let ws = λ (w : ℕ). sees paths c.reads (c.workers w) in
    let ts = deal c.taker 0 (take c.reads paths) in
    let saw : (c.workers 0).sees_end && leb (length paths) c.reads ≡ true =
      unfold run_parallel_rsync_workers in run_worker-sees_end ws ts 0 h.0 in
    run_parallel_rsync_workers_sends ws ts test (deal-below c.taker 0 (take c.reads paths)) h
    ∙ ap (occurs test) (deal-path c.taker 0 (take c.reads paths) ∙ took_all _ c.reads paths saw)

-- ===== src/Cephfs/Source/BlockPipeline/Received.antt =====
-- What the drainer of runSnapdiffBlockPipeline commits of the boundaries sent.
use ceph_volsync_plugin.Base.{
  ℕ, ◌+◌, ◌≡◌, refl, sym, ap, ◌∙◌, Bool, true, List, [], ◌∷◌, ◌++◌, map, append-nil, concat, All,
  All-left, All-take, Option, none, some, take,
}
use ceph_volsync_plugin.Pipeline.Window.{WindowSemaphore, is_released}
use ceph_volsync_plugin.Cephfs.Drainer.{FileBoundary, drained, Drained, closed, done}
use ceph_volsync_plugin.Cephfs.Drainer.Run.{Committed, boundary_of, run-Committed, run_done}
use ceph_volsync_plugin.Cephfs.Source.BlockPipeline.{Answers, events, default_config, drain_sent}

events-boundaries :
    (released : ℕ → ℕ → Bool) (n : ℕ) (fbs : List FileBoundary)
    → map boundary_of (events released n fbs) ≡ fbs
unfolding events
events-boundaries released n [] = refl
events-boundaries released n (fb ∷ fbs) = ap (◌∷◌ fb) (events-boundaries released (n + 1) fbs)

-- The window `w` at the end: what an earlier IsReleased affirmed still holds.
abbrev pub Affirms : WindowSemaphore → Answers → Type 0
Affirms w a =
    ((fb : FileBoundary) → a.waits fb ≡ true → is_released w fb.last_req_id ≡ true)
    × ((n id : ℕ) → a.released n id ≡ true → is_released w id ≡ true)

events-affirmed :
    (w : WindowSemaphore) (released : ℕ → ℕ → Bool)
    → ((n id : ℕ) → released n id ≡ true → is_released w id ≡ true)
    → (n : ℕ) (fbs : List FileBoundary)
    → All
        (λ e. (id : ℕ) → e.is_released id ≡ true → is_released w id ≡ true)
        (events released n fbs)
unfolding events
events-affirmed w released h n [] = tt
events-affirmed w released h n (fb ∷ fbs) = (h n, events-affirmed w released h (n + 1) fbs)

abbrev pub received : Option ℕ → List FileBoundary → List FileBoundary
received none sent = sent
received (some k) sent = take k sent

-- The boundaries that the drainer has committed are passed by the window.
abbrev pub IsPassed : WindowSemaphore → FileBoundary → Type 0
IsPassed w fb = is_released w fb.last_req_id ≡ true

committed_files :
    {P : FileBoundary → Type 0} {files others : List FileBoundary} {d : Drained}
    → files ≡ others
    → Committed P files d
    → Committed P others d
committed_files {P} {files} {others} {d} e c = rw e at c

pub drain_sent-Committed :
    (w : WindowSemaphore) (a : Answers) (sent : List FileBoundary) (cut : Option ℕ)
    → Affirms w a
    → Committed (IsPassed w) (received cut sent) (drain_sent a sent cut)
unfolding drain_sent
drain_sent-Committed w a sent none h =
    committed_files {P = IsPassed w} (events-boundaries a.released 0 sent) (
      run-Committed default_config.max_window a.commits a.waits closed (events a.released 0 sent)
        (is_released w) h.0 (events-affirmed w a.released h.1 0 sent))
drain_sent-Committed w a sent (some k) h =
    committed_files {P = IsPassed w} (events-boundaries a.released 0 (take k sent)) (
      run-Committed default_config.max_window a.commits a.waits done
        (events a.released 0 (take k sent)) (is_released w) h.0
        (events-affirmed w a.released h.1 0 (take k sent)))

pub drain_sent-whole :
    (w : WindowSemaphore) (a : Answers) (sent : List FileBoundary) (cut : Option ℕ)
    → Affirms w a
    → (drain_sent a sent cut).end ≡ drained
    → concat (drain_sent a sent cut).sent ≡ sent
unfolding drain_sent
drain_sent-whole w a sent none h e =
    let c = drain_sent-Committed w a sent none h in
    sym (append-nil _)
    ∙ ap (λ z. concat (drain_sent a sent none).sent ++ z) (sym (c.whole e))
    ∙ c.in_order
drain_sent-whole w a sent (some k) h e = absurd (
    run_done default_config.max_window a.commits a.waits [] [] (events a.released 0 (take k sent))
      e)

pub received-All :
    (P : FileBoundary → Type 0) (cut : Option ℕ) (sent : List FileBoundary)
    → All P sent
    → All P (received cut sent)
received-All P none sent a = a
received-All P (some k) sent a = All-take P k sent a

-- What is committed comes from what was sent.
pub committed-All :
    (P : FileBoundary → Type 0) {Q : FileBoundary → Type 0} {files : List FileBoundary}
    {d : Drained}
    → Committed Q files d
    → All P files
    → All P (concat d.sent)
committed-All P {Q} {files} {d} c a = All-left P (concat d.sent) c.rest (rw c.in_order a)

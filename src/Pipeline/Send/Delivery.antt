-- ===== src/Pipeline/Send/Delivery.antt =====
-- Every chunk that a sender takes is delivered or given up, and its memory is given back.
use ceph_volsync_plugin.Base.{
  ℕ, ◌+◌, ◌≡◌, refl, sym, ap, ◌∙◌, ◌⊎◌, inl, inr, Bool, true, false, List, [], ◌∷◌, ◌++◌, map, none,
  some, append-nil, append_assoc, concat, concat-append, Bool-cases, arith,
}
use mathlib.Core.List.{map-append}
use ceph_volsync_plugin.Pipeline.Types.{
  ReadChunk, Stats, Held, mem_out, win_out, owned_win, sent_mem, sent_win, release_held,
  release_mem_only, release_held_once, mem_out-append, win_out-append,
}
use ceph_volsync_plugin.Pipeline.Config.{Config}
use ceph_volsync_plugin.Pipeline.Send.{
  to_block, Sender, no_blocks, End, closed, done, SendRun, SendError, Flush, flush, must_flush,
  append_chunk, flush_before, unflushed, data_sender, release_all, release_all_mem,
}

held_of : ReadChunk → Held
held_of c = c.held

-- The batch of the sender is what these chunks stand for.
record Carries (cs : List ReadChunk) (s : Sender) : Type 0 where
  blocks : s.blocks ≡ map to_block cs
  pending : s.pending ≡ map held_of cs

release_all-mem : (cs : List ReadChunk) → mem_out (release_all (map held_of cs)) ≡ sent_mem cs
unfolding release_held held_of
release_all-mem [] = refl
release_all-mem (c ∷ cs) =
    mem_out-append (release_held c.held).0 (release_all (map held_of cs))
    ∙ ground (arith, release_all-mem cs)

release_all-win : (cs : List ReadChunk) → win_out (release_all (map held_of cs)) ≡ sent_win cs
unfolding release_held held_of
release_all-win [] = refl
release_all-win (c ∷ cs) =
    win_out-append (release_held c.held).0 (release_all (map held_of cs))
    ∙ rw (release_all-win cs) (ground arith)

release_all_mem-mem :
    (cs : List ReadChunk) → mem_out (release_all_mem (map held_of cs)) ≡ sent_mem cs
unfolding release_mem_only held_of
release_all_mem-mem [] = refl
release_all_mem-mem (c ∷ cs) =
    mem_out-append (release_mem_only c.held).0 (release_all_mem (map held_of cs))
    ∙ ground (arith, release_all_mem-mem cs)

release_all_mem-win : (cs : List ReadChunk) → win_out (release_all_mem (map held_of cs)) ≡ []
unfolding release_mem_only held_of
release_all_mem-win [] = refl
release_all_mem-win (c ∷ cs) =
    win_out-append (release_mem_only c.held).0 (release_all_mem (map held_of cs))
    ∙ rw (release_all_mem-win cs) (ground arith)

-- What flush does with the batch of `cs`: it is sent and its memory is released, or the send
-- fails and memory and windows are released.
abbrev Flushes : List ReadChunk → Flush → Type 0
Flushes cs f =
    (mem_out f.calls ≡ sent_mem cs)
    × (((f.failed ≡ false)
          × (concat f.request ≡ map to_block cs)
          × (win_out f.calls ≡ [])
          × Carries [] f.sender)
        ⊎ ((f.failed ≡ true) × (f.request ≡ []) × (win_out f.calls ≡ sent_win cs)))

flush-Flushes :
    (sent : Bool) (stats : Stats) (cs : List ReadChunk) (s : Sender)
    → Carries cs s
    → Flushes cs (flush sent stats s)
unfolding flush
flush-Flushes sent stats [] s h = rw (h.blocks, flush) (refl, inl (refl, refl, refl, h))
flush-Flushes true stats (c ∷ cs) s h =
    rw (h.blocks, flush, h.pending)
      (
        release_all_mem-mem (c ∷ cs),
        inl (
          refl,
          append-nil _ ∙ h.blocks,
          release_all_mem-win (c ∷ cs),
          record { blocks = refl; pending = refl },
        ),
      )
flush-Flushes false stats (c ∷ cs) s h =
    rw (h.blocks, flush, h.pending)
      (release_all-mem (c ∷ cs), inr (refl, refl, release_all-win (c ∷ cs)))

-- The chunks of a run, those that were pending first, split into those whose blocks went out, in
-- order, and those given up, whose windows are released. The memory of all is released.
pub record Settles (cs : List ReadChunk) (run : SendRun) : Type 0 where
  pub gone : List ReadChunk
  pub lost : List ReadChunk
  pub split : cs ++ run.received ≡ gone ++ lost
  pub sent : concat run.requests ≡ map to_block gone
  pub memory : mem_out run.calls ≡ sent_mem (cs ++ run.received)
  pub windows : win_out run.calls ≡ sent_win lost
  pub complete : run.failure ≡ none → lost ≡ []

sent_mem-append : (xs ys : List ReadChunk) → sent_mem (xs ++ ys) ≡ sent_mem xs + sent_mem ys
sent_mem-append [] ys = omega arith
sent_mem-append (x ∷ xs) ys = omega (arith, sent_mem-append xs ys)

sent_win-append : (xs ys : List ReadChunk) → sent_win (xs ++ ys) ≡ sent_win xs ++ sent_win ys
sent_win-append [] ys = refl
sent_win-append (x ∷ xs) ys = rw (sent_win-append xs ys) (sym (append_assoc (owned_win x.held) _ _))

append_chunk-Carries :
    (cs : List ReadChunk) (s : Sender) (c : ReadChunk)
    → Carries cs s
    → Carries (cs ++ c ∷ []) (append_chunk s c)
unfolding append_chunk held_of
append_chunk-Carries cs s c h = record {
  blocks = rw h.blocks (sym (map-append to_block cs (c ∷ [])));
  pending = rw h.pending (sym (map-append held_of cs (c ∷ [])));
}

module _ (cfg : Config) (sends : ℕ → Bool) where
  end-Settles :
      (end : End) (stats : Stats) (cs : List ReadChunk) (s : Sender)
      → Carries cs s
      → Settles cs (data_sender cfg sends end stats s [])
  unfolding data_sender
  end-Settles closed stats cs s h = elim (flush-Flushes (sends stats.send_flushes) stats cs s h).1 [
    | inl (e, q, w, _) ↦ record {
      gone = cs;
      lost = [];
      split = refl;
      sent = q;
      memory = rw (append-nil cs) (flush-Flushes (sends stats.send_flushes) stats cs s h).0;
      windows = w;
      complete = λ _. refl;
    }
    | inr (e, q, w) ↦ record {
      gone = [];
      lost = cs;
      split = append-nil cs;
      sent = ap concat q;
      memory = rw (append-nil cs) (flush-Flushes (sends stats.send_flushes) stats cs s h).0;
      windows = w;
      complete = λ n. absurd (impossible e n);
    }
  ]
    where
      impossible :
          (flush (sends stats.send_flushes) stats s).failed ≡ true
          → (data_sender cfg sends closed stats s []).failure ≡ none
          → ⊥
      impossible e n = cc (rw e at n)
  end-Settles done stats cs s h = record {
    gone = [];
    lost = cs;
    split = append-nil cs;
    sent = refl;
    memory = rw (append-nil cs, h.pending) (release_all-mem cs);
    windows = rw h.pending (release_all-win cs);
    complete = λ n. cc;
  }

  -- One more chunk, when the batch goes on without a flush.
  grow-Settles :
      (cs : List ReadChunk) (c : ReadChunk) (run : SendRun)
      → Settles (cs ++ c ∷ []) run
      → Settles cs (record run { received = c ∷ run.received })
  grow-Settles cs c run h = record {
    gone = h.gone;
    lost = h.lost;
    split = sym (append_assoc cs (c ∷ []) run.received) ∙ h.split;
    sent = h.sent;
    memory = h.memory ∙ ap sent_mem (append_assoc cs (c ∷ []) run.received);
    windows = h.windows;
    complete = h.complete;
  }

  -- A flush of the batch before the chunk: what follows starts from the chunk alone.
  flushed-Settles :
      (cs : List ReadChunk) (c : ReadChunk) (f : Flush) (run : SendRun)
      → mem_out f.calls ≡ sent_mem cs
      → concat f.request ≡ map to_block cs
      → win_out f.calls ≡ []
      → Settles (c ∷ []) run
      → Settles cs (record run {
        requests = f.request ++ run.requests;
        calls = f.calls ++ run.calls;
        received = c ∷ run.received;
      })
  flushed-Settles cs c f run m q w h = record {
    gone = cs ++ h.gone;
    lost = h.lost;
    split = rw h.split (sym (append_assoc cs h.gone h.lost));
    sent =
        concat-append f.request run.requests ∙ rw (q, h.sent) (sym (map-append to_block cs h.gone));
    memory =
        mem_out-append f.calls run.calls
        ∙ omega (arith, m, h.memory, sent_mem-append cs (c ∷ run.received));
    windows = win_out-append f.calls run.calls ∙ rw (w, h.windows) refl;
    complete = h.complete;
  }

  -- A failed flush gives up the batch and the chunk that forced it.
  failed-Settles :
      (cs : List ReadChunk) (c : ReadChunk) (f : Flush)
      → mem_out f.calls ≡ sent_mem cs
      → f.request ≡ []
      → win_out f.calls ≡ sent_win cs
      → Settles cs (record {
        requests = f.request;
        calls = f.calls ++ (release_held c.held).0;
        stats = f.stats;
        received = c ∷ [];
        failure = some SendError.send_failed;
      })
  failed-Settles cs c f m q w = record {
    gone = [];
    lost = cs ++ c ∷ [];
    split = refl;
    sent = ap concat q;
    memory =
        mem_out-append f.calls (release_held c.held).0
        ∙ omega (arith, m, (release_held_once c.held).0, sent_mem-append cs (c ∷ []));
    windows =
        win_out-append f.calls (release_held c.held).0
        ∙ rw (w, (release_held_once c.held).1, sent_win-append cs (c ∷ []), append-nil) refl;
    complete = λ n. cc;
  }

  sender_run-Settles :
      (end : End) (stats : Stats) (cs rest : List ReadChunk) (s : Sender)
      → Carries cs s
      → Settles cs (data_sender cfg sends end stats s rest)
  unfolding data_sender
  sender_run-Settles end stats cs [] s h = end-Settles end stats cs s h
  sender_run-Settles end stats cs (c ∷ rest) s h = elim (Bool-cases (must_flush cfg s c)) [
    | inl m ↦
        let f = flush_before cfg (sends stats.send_flushes) stats s c in
        let flushes : Flushes cs f = rw m (flush-Flushes (sends stats.send_flushes) stats cs s h) in
        elim flushes.1 [
          | inl (e, q, w, k) ↦
              rw (e, data_sender)
                (flushed-Settles cs c f
                  (data_sender cfg sends end f.stats (append_chunk f.sender c) rest) flushes.0 q w
                  (sender_run-Settles end f.stats (c ∷ []) rest (append_chunk f.sender c)
                    (append_chunk-Carries [] f.sender c k)))
          | inr (e, q, w) ↦ rw (e, data_sender) (failed-Settles cs c f flushes.0 q w)
        ]
    | inr m ↦
        let f = flush_before cfg (sends stats.send_flushes) stats s c in
        let idle : f ≡ unflushed stats s = rw m refl in
        let fine : f.failed ≡ false = rw m refl in
        rw (fine, data_sender)
          (rw (idle, flush_before)
            (grow-Settles cs c _ (
              sender_run-Settles end stats (cs ++ c ∷ []) rest (append_chunk s c)
                (append_chunk-Carries cs s c h))))
  ]

-- Over any run of a sender, whichever sends fail and however its input ends: the chunks that it
-- took fall into a first part, whose blocks went out in order, and a rest, whose windows it
-- released, and no others; it released the memory of all of them; and if it ended without an
-- error nothing was given up.
pub data_sender-Settles :
    (cfg : Config) (sends : ℕ → Bool) (end : End) (stats : Stats) (cs : List ReadChunk)
    → Settles [] (data_sender cfg sends end stats no_blocks cs)
data_sender-Settles cfg sends end stats cs =
    sender_run-Settles cfg sends end stats [] cs no_blocks
      (record { blocks = refl; pending = refl })

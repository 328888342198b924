-- ===== src/Cephfs/Source/Batches/Delivery.antt =====
-- What the batches of the source hold.
use ceph_volsync_plugin.Base.{
  ℕ, suc, ◌≤◌, ◌<◌, ◌≡◌, refl, ap, ◌∙◌, Bool, true, false, List, [], ◌∷◌, ◌++◌, length,
  length-append, All, All-append, concat, concat-snoc-append, append_assoc, leb, leb→le, Bool-cases,
  inl, inr, arith,
}
use ceph_volsync_plugin.Cephfs.Paths.{Text}
use ceph_volsync_plugin.Cephfs.Source.Batches.{
  Received, path, closed, done, BatchEnd, flushed, Batched, ended, flush_batch, batch_loop,
  ListAnswers, is_nil, rsync_batch, rsync_worker_loop, DeleteAnswers, send_delete_batch,
  consume_deletes, small_batch_size, delete_batch_size,
}

-- The paths that come before the channel is closed or the context ends.
unfoldable pub received : List Received → List Text
received [] = []
received (path p ∷ rs) = p ∷ received rs
received (_ ∷ rs) = []

-- The channel is closed before the context ends.
unfoldable pub is_closed : List Received → Bool
is_closed [] = false
is_closed (path p ∷ rs) = is_closed rs
is_closed (closed ∷ rs) = true
is_closed (done ∷ rs) = false

-- Every batch is full but the last, which is not empty.
abbrev pub IsCut : ℕ → List (List Text) → Type 0
IsCut limit [] = Unit
IsCut limit (b ∷ []) = (1 ≤ length b) × (length b ≤ limit)
IsCut limit (b ∷ c ∷ bs) = (length b ≡ limit) × IsCut limit (c ∷ bs)

-- What becomes of the paths received: those sent, those given up with the run, those not looked at.
pub record Delivers (limit : ℕ) (calls : ℕ → Bool) (rs : List Received) (paths : List Text)
    (b : Batched) : Type 0 where
  pub rest : List Text
  pub kept : concat b.sent ++ (b.unsent ++ rest) ≡ paths
  pub settled : b.end ≡ flushed → (b.unsent ≡ []) × (rest ≡ [])
  pub cut : IsCut limit b.sent
  pub closes : b.end ≡ flushed → is_closed rs ≡ true
  pub finishes : ((i : ℕ) → calls i ≡ true) → is_closed rs ≡ true → b.end ≡ flushed

Full : ℕ → List Text → Type 0
Full limit b = length b ≡ limit

Full-IsCut : (limit : ℕ) (bs : List (List Text)) → 1 ≤ limit → All (Full limit) bs → IsCut limit bs
unfolding Full
Full-IsCut limit [] h f = tt
Full-IsCut limit (b ∷ []) h f = (omega (arith, f.0), omega (arith, f.0))
Full-IsCut limit (b ∷ c ∷ bs) h f = (f.0, Full-IsCut limit (c ∷ bs) h f.1)

last-IsCut :
    (limit : ℕ) (bs : List (List Text)) (b : List Text)
    → All (Full limit) bs
    → 1 ≤ length b
    → length b ≤ limit
    → IsCut limit (bs ++ b ∷ [])
unfolding Full
last-IsCut limit [] b f h k = (h, k)
last-IsCut limit (c ∷ []) b f h k = (f.0, (h, k))
last-IsCut limit (c ∷ d ∷ bs) b f h k = (f.0, last-IsCut limit (d ∷ bs) b f.1 h k)

-- What holds before each round of the loop.
record Before (limit : ℕ) (sent : List (List Text)) (batch : List Text) : Type 0 where
  full : All (Full limit) sent
  room : length batch < limit

length-snoc : (xs : List Text) (x : Text) → length (xs ++ x ∷ []) ≡ suc (length xs)
length-snoc xs x = omega (arith, length-append xs (x ∷ []))

stopped :
    {limit : ℕ} {calls : ℕ → Bool} {rs : List Received} {sent : List (List Text)}
    {unsent paths : List Text} {e : BatchEnd} (rest : List Text)
    → IsCut limit sent
    → concat sent ++ (unsent ++ rest) ≡ paths
    → ¬ (e ≡ flushed)
    → (((i : ℕ) → calls i ≡ true) → is_closed rs ≡ true → e ≡ flushed)
    → Delivers limit calls rs paths (ended sent unsent e)
stopped rest c k n f = record {
  rest = rest;
  kept = k;
  settled = λ e. absurd (n e);
  cut = c;
  closes = λ e. absurd (n e);
  finishes = f;
}

flush_batch-Delivers :
    (limit : ℕ) (calls : ℕ → Bool) (rs : List Received) (sent : List (List Text))
    (batch : List Text)
    → 1 ≤ limit
    → Before limit sent batch
    → Delivers limit calls
        (closed ∷ rs)
        (concat sent ++ (batch ++ []))
        (flush_batch calls sent batch)
unfolding flush_batch is_closed
flush_batch-Delivers limit calls rs sent [] l b = record {
  rest = [];
  kept = refl;
  settled = λ e. (refl, refl);
  cut = Full-IsCut limit sent l b.full;
  closes = λ e. refl;
  finishes = λ h k. refl;
}
flush_batch-Delivers limit calls rs sent (p ∷ ps) l b = elim (Bool-cases (calls (length sent))) [
  | inl e ↦ simp e (record {
    rest = [];
    kept = concat-snoc-append sent (p ∷ ps) [];
    settled = λ e. (refl, refl);
    cut = last-IsCut limit sent (p ∷ ps) b.full (omega arith) (omega (arith, b.room));
    closes = λ e. refl;
    finishes = λ h k. refl;
  })
  | inr e ↦ simp e (
      stopped {rs = closed ∷ rs} [] (Full-IsCut limit sent l b.full) refl (λ k. cc)
        (λ h k. cc (h (length sent), e)))
]

Delivers-paths :
    {limit : ℕ} {calls : ℕ → Bool} {rs : List Received} {paths others : List Text} {b : Batched}
    → paths ≡ others
    → Delivers limit calls rs paths b
    → Delivers limit calls rs others b
Delivers-paths e d = record {
  rest = d.rest;
  kept = d.kept ∙ e;
  settled = d.settled;
  cut = d.cut;
  closes = d.closes;
  finishes = d.finishes;
}

-- A path in front of what is received changes nothing for a run that goes on.
one_more :
    {limit : ℕ} {calls : ℕ → Bool} {rs : List Received} {paths : List Text} {b : Batched} (p : Text)
    → Delivers limit calls rs paths b
    → Delivers limit calls (path p ∷ rs) paths b
unfolding is_closed
one_more p d = record {
  rest = d.rest;
  kept = d.kept;
  settled = d.settled;
  cut = d.cut;
  closes = d.closes;
  finishes = d.finishes;
}

fresh-Before :
    {limit : ℕ} (sent : List (List Text)) (next : List Text)
    → 1 ≤ limit
    → All (Full limit) sent
    → length next ≡ limit
    → Before limit (sent ++ next ∷ []) []
unfolding Full
fresh-Before {limit} sent next l f e = record {
  full = All-append (Full limit) sent (next ∷ []) f (e, tt);
  room = omega arith;
}

batch_loop-Delivers :
    (limit : ℕ) (calls : ℕ → Bool) (sent : List (List Text)) (batch : List Text)
    (rs : List Received)
    → 1 ≤ limit
    → Before limit sent batch
    → Delivers limit calls rs
        (concat sent ++ (batch ++ received rs))
        (batch_loop limit calls sent batch rs)
unfolding batch_loop received
batch_loop-Delivers limit calls sent batch [] l b =
    stopped [] (Full-IsCut limit sent l b.full) refl (λ k. cc) (unfold is_closed in λ h k. cc)
batch_loop-Delivers limit calls sent batch (done ∷ rs) l b =
    stopped [] (Full-IsCut limit sent l b.full) refl (λ k. cc) (unfold is_closed in λ h k. cc)
batch_loop-Delivers limit calls sent batch (closed ∷ rs) l b =
    flush_batch-Delivers limit calls rs sent batch l b
batch_loop-Delivers limit calls sent batch (path p ∷ rs) l b =
    let next = batch ++ p ∷ [] in
    let long = length-snoc batch p in
    let cut = Full-IsCut limit sent l b.full in
    let same = ap (λ z. concat sent ++ z) (append_assoc batch (p ∷ []) (received rs)) in
    elim (Bool-cases (leb limit (length next))) [
      | inr e ↦ simp e (
          Delivers-paths same (
            one_more p (
              batch_loop-Delivers limit calls sent next rs l
                (record { full = b.full; room = ground arith }))))
      | inl e ↦
          let full : length next ≡ limit = omega (arith, leb→le limit (length next) e, b.room) in
          elim (Bool-cases (calls (length sent))) [
            | inl k ↦
                simp (e, k)
                  (Delivers-paths (concat-snoc-append sent next (received rs) ∙ same) (
                    one_more p (
                      batch_loop-Delivers limit calls (sent ++ next ∷ []) [] rs l
                        (fresh-Before sent next l b.full full))))
            | inr k ↦
                simp (e, k)
                  (stopped (received rs) cut same (λ k. cc) (λ h n. cc (h (length sent), k)))
          ]
    ]

-- Over any run of an rsync worker, whatever it receives and whichever call fails: the paths
-- received are those of its batches, in their order, then those of a batch that it gave up, then
-- those that it did not look at; every batch has 500 paths but the last, which is not empty; if it
-- ended without an error nothing was given up; and if every call succeeds and the channel is
-- closed before the context ends, it ends without an error.
pub rsync_worker_loop-Delivers :
    (answers : ℕ → ListAnswers) (rs : List Received)
    → Delivers small_batch_size
        (λ i. is_nil (rsync_batch (answers i)))
        rs
        (received rs)
        (rsync_worker_loop answers rs)
unfolding rsync_worker_loop
rsync_worker_loop-Delivers answers rs =
    batch_loop-Delivers small_batch_size (λ i. is_nil (rsync_batch (answers i))) [] [] rs
      (omega arith) (record { full = tt; room = omega arith })

pub consume_deletes-Delivers :
    (answers : ℕ → DeleteAnswers) (rs : List Received)
    → Delivers delete_batch_size
        (λ i. send_delete_batch (answers i))
        rs
        (received rs)
        (consume_deletes true answers rs)
unfolding consume_deletes
consume_deletes-Delivers answers rs =
    batch_loop-Delivers delete_batch_size (λ i. send_delete_batch (answers i)) [] [] rs
      (omega arith) (record { full = tt; room = omega arith })

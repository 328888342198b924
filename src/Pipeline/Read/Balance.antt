-- ===== src/Pipeline/Read/Balance.antt =====
-- A read worker keeps no memory and no window that it does not hand on.
use ceph_volsync_plugin.Base.{
  Bool, ℕ, ◌+◌, ◌≡◌, refl, ◌∙◌, ◌⊎◌, inl, inr, List, [], ◌∷◌, ◌++◌, Result, ok, err, append-nil,
  append_assoc, Option-cases, arith,
}
use ceph_volsync_plugin.Pipeline.Types.{
  Chunk, ReadChunk, Stats, Call, mem_in, mem_out, win_in, win_out, sent_mem, sent_win, release_held,
  mem_in-append, mem_out-append, win_in-append, win_out-append,
}
use ceph_volsync_plugin.Pipeline.Config.{Config}
use ceph_volsync_plugin.Pipeline.Read.{
  Turn, ReadError, Outcome, zero_turn, emit_turn, data_turn, acquire_size, read_turn, read_worker,
}

abbrev sent_by : Result ReadError ReadChunk → List ReadChunk
sent_by (ok r) = r ∷ []
sent_by (err e) = []

abbrev Balances : List Call → List ReadChunk → Type 0
Balances calls sent =
    (mem_in calls ≡ mem_out calls + sent_mem sent) × (win_in calls ≡ sent_win sent ++ win_out calls)

-- A round that sends a chunk releases no window.
abbrev KeepsWindow : Result ReadError ReadChunk → List Call → Type 0
KeepsWindow (ok r) calls = win_out calls ≡ []
KeepsWindow (err e) calls = Unit

abbrev Good : Outcome → Type 0
Good o = Balances o.calls (sent_by o.result) × KeepsWindow o.result o.calls

zero_turn-Good : (t : Turn) (s : Stats) (c : Chunk) → Good (zero_turn t s c)
unfolding zero_turn
zero_turn-Good t s c = ground arith

emit_turn-Good :
    (n : ℕ) (t : Turn) (s : Stats) (c : Chunk) (b : List ℕ) → Good (emit_turn n t s c b)
unfolding emit_turn release_held
emit_turn-Good n t s c b = ground arith

data_turn-Good : (n : ℕ) (t : Turn) (s : Stats) (c : Chunk) → Good (data_turn n t s c)
unfolding data_turn
data_turn-Good n t s c = elim (Option-cases (t.read_at c.offset n)) [
  | inl e ↦ ground arith
  | inr (b, e) ↦ ground (arith, emit_turn-Good n t s c b)
]

read_turn-Good : (cfg : Config) (t : Turn) (s : Stats) (c : Chunk) → Good (read_turn cfg t s c)
unfolding read_turn
read_turn-Good cfg t s c =
    ground (arith, zero_turn-Good t s c, data_turn-Good (acquire_size cfg c) t s c)

Result-cases :
    (r : Result ReadError ReadChunk)
    → ((e : ReadError) × (r ≡ err e)) ⊎ ((c : ReadChunk) × (r ≡ ok c))
Result-cases (ok c) = inr (c, refl)
Result-cases (err e) = inl (e, refl)

Balances-append :
    (xs ys : List Call) (r : ReadChunk) (rs : List ReadChunk)
    → Balances xs (r ∷ [])
    → win_out xs ≡ []
    → Balances ys rs
    → Balances (xs ++ ys) (r ∷ rs)
Balances-append xs ys r rs b keeps c = (
  omega (arith, mem_in-append xs ys, mem_out-append xs ys, b.0, c.0),
  win_in-append xs ys
      ∙ (rw (b.1, keeps, c.1, win_out-append xs ys) (simp (append-nil, append_assoc, keeps))),
)

-- Over any run of a read worker, whatever is cancelled and whatever read fails: the memory that
-- it acquired is the memory that it released plus what the chunks sent on still hold, and the
-- windows that it acquired are those held by the chunks sent on, then those that it released.
pub read_worker-Balances :
    (cfg : Config) (is_closed : Bool) (s : Stats) (turns : List (Turn × Chunk))
    → let run = read_worker cfg is_closed s turns in
      (mem_in run.calls ≡ mem_out run.calls + sent_mem run.sent)
      × (win_in run.calls ≡ sent_win run.sent ++ win_out run.calls)
unfolding read_worker
read_worker-Balances cfg is_closed s [] = (omega arith, refl)
read_worker-Balances cfg is_closed s ((t, c) ∷ rest) =
    let o = read_turn cfg t s c in
    let good = read_turn-Good cfg t s c in
    elim (Result-cases o.result) [
      | inl (e, q) ↦ rw (q, read_worker) (rw q at good.0)
      | inr (r, q) ↦
          rw (q, read_worker)
            (Balances-append o.calls (read_worker cfg is_closed o.stats rest).calls r
              (read_worker cfg is_closed o.stats rest).sent (rw q at good.0) (rw q at good.1)
              (read_worker-Balances cfg is_closed o.stats rest))
    ]

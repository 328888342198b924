-- ===== src/Cephfs/Drainer/Loops.antt =====
-- What the loops of the drainer keep.
use ceph_volsync_plugin.Base.{
  ℕ, ◌≡◌, refl, sym, ap, ◌∙◌, inl, inr, Bool, true, List, [], ◌∷◌, ◌++◌, All-append, append_assoc,
  concat, length, leb, arith, Bool-cases,
}
use ceph_volsync_plugin.Cephfs.Drainer.{
  FileBoundary, Commit, committed, refused, unnotified, DrainEnd, drained, commit_error,
  notify_error, cancelled, Drained, commit_batch_size, send_batch, send_rest, drain_qualified,
  flush_all,
}
use ceph_volsync_plugin.Cephfs.Drainer.Commits.{
  Keeps, Keeps-files, Before, send_batch-Keeps, send_rest-Keeps, more-Before, full-IsCommit,
  full-Keeps,
}

send_batch-pending :
    (commits : ℕ → Commit) (sent : List (List FileBoundary)) (batch pending : List FileBoundary)
    → (send_batch commits sent batch pending).pending ≡ pending
unfolding send_batch
send_batch-pending commits sent batch pending = answered (commits (length sent))
  where
    answered :
        (a : Commit)
        → (elim a as (λ _. Drained) [
          | committed ↦ record {
            sent = sent ++ batch ∷ [];
            unsent = [];
            pending = pending;
            end = drained;
          }
          | refused ↦ record { sent = sent; unsent = batch; pending = pending; end = commit_error }
          | unnotified ↦ record {
            sent = sent ++ batch ∷ [];
            unsent = [];
            pending = pending;
            end = notify_error;
          }
        ]).pending
          ≡ pending
    answered committed = refl
    answered refused = refl
    answered unnotified = refl

-- After a batch the loop starts afresh.
pub fresh-Before :
    {P : FileBoundary → Type 0} {files : List FileBoundary} {r : Drained}
    → Keeps P files r
    → Before P r.sent []
fresh-Before k = record { safe = k.safe; sizes = k.sizes; ready_batch = tt; room = omega arith }

fresh-files :
    {P : FileBoundary → Type 0} {files : List FileBoundary} (rest : List FileBoundary) {r : Drained}
    → Keeps P files r
    → r.end ≡ drained
    → r.pending ≡ rest
    → concat r.sent ++ ([] ++ rest) ≡ files
fresh-files rest {r} k e p =
    ap (λ z. concat r.sent ++ (z ++ rest)) (sym (k.settled e))
    ∙ ap (λ z. concat r.sent ++ (r.unsent ++ z)) (sym p)
    ∙ k.files_kept

taken-files :
    (sent : List (List FileBoundary)) (batch : List FileBoundary) (head : FileBoundary)
    (rest : List FileBoundary)
    → concat sent ++ ((batch ++ head ∷ []) ++ rest) ≡ concat sent ++ (batch ++ head ∷ rest)
taken-files sent batch head rest = ap (λ z. concat sent ++ z) (append_assoc batch (head ∷ []) rest)

module _ (P : FileBoundary → Type 0) (commits : ℕ → Commit) (ready : FileBoundary → Bool)
    (sound : (b : FileBoundary) → ready b ≡ true → P b) where
  -- A full batch that is sent, and then the rest.
  full_batch-Keeps :
      (sent : List (List FileBoundary)) (batch : List FileBoundary) (head : FileBoundary)
      (rest : List FileBoundary) (more : Drained)
      → Before P sent batch
      → P head
      → (let full = send_batch commits sent (batch ++ head ∷ []) rest in
          Before P full.sent [] → Keeps P (concat full.sent ++ ([] ++ rest)) more)
      → let full = send_batch commits sent (batch ++ head ∷ []) rest in
        Keeps P
          (concat sent ++ (batch ++ head ∷ rest))
          (elim full.end [ drained ↦ more | _ ↦ full ])
  full_batch-Keeps sent batch head rest more b h later =
      let full = send_batch commits sent (batch ++ head ∷ []) rest in
      let k : Keeps P (concat sent ++ (batch ++ head ∷ rest)) full =
        Keeps-files (taken-files sent batch head rest) (
          send_batch-Keeps P commits sent (batch ++ head ∷ []) rest b.safe b.sizes
            (All-append P batch (head ∷ []) b.ready_batch (h, tt))
            (full-IsCommit P sent batch head b)) in
      full-Keeps P (concat sent ++ (batch ++ head ∷ rest)) full more k (λ e.
        Keeps-files
          (fresh-files rest k e (send_batch-pending commits sent (batch ++ head ∷ []) rest))
          (later (fresh-Before k)))

  pub drain_qualified-Keeps :
      (pending : List FileBoundary) (sent : List (List FileBoundary)) (batch : List FileBoundary)
      → Before P sent batch
      → Keeps P
          (concat sent ++ (batch ++ pending))
          (drain_qualified commits ready sent batch pending)
  unfolding drain_qualified
  drain_qualified-Keeps [] sent batch b = send_rest-Keeps P commits sent batch [] b
  drain_qualified-Keeps (head ∷ rest) sent batch b = elim (Bool-cases (ready head)) [
    | inr e ↦ simp e (send_rest-Keeps P commits sent batch (head ∷ rest) b)
    | inl e ↦ elim (Bool-cases (leb commit_batch_size (length (batch ++ head ∷ [])))) [
      | inl l ↦
          simp (e, l)
            (full_batch-Keeps sent batch head rest _ b (sound head e) (
              drain_qualified-Keeps rest (send_batch commits sent (batch ++ head ∷ []) rest).sent
                []))
      | inr l ↦
          simp (e, l)
            (Keeps-files (taken-files sent batch head rest) (
              drain_qualified-Keeps rest sent (batch ++ head ∷ [])
                (more-Before P sent batch head b (sound head e) l)))
    ]
  ]

  pub flush_all-Keeps :
      (pending : List FileBoundary) (sent : List (List FileBoundary)) (batch : List FileBoundary)
      → Before P sent batch
      → Keeps P (concat sent ++ (batch ++ pending)) (flush_all commits ready sent batch pending)
  unfolding flush_all
  flush_all-Keeps [] sent batch b = send_rest-Keeps P commits sent batch [] b
  flush_all-Keeps (head ∷ rest) sent batch b = elim (Bool-cases (ready head)) [
    | inr e ↦
        simp e (record {
          files_kept = refl;
          safe = b.safe;
          sizes = b.sizes;
          settled = λ h. absurd (cc h);
        })
    | inl e ↦ elim (Bool-cases (leb commit_batch_size (length (batch ++ head ∷ [])))) [
      | inl l ↦
          simp (e, l)
            (full_batch-Keeps sent batch head rest _ b (sound head e)
              (flush_all-Keeps rest (send_batch commits sent (batch ++ head ∷ []) rest).sent []))
      | inr l ↦
          simp (e, l)
            (Keeps-files (taken-files sent batch head rest) (
              flush_all-Keeps rest sent (batch ++ head ∷ [])
                (more-Before P sent batch head b (sound head e) l)))
    ]
  ]

-- A loop that ended without an error left nothing pending.
abbrev Finishes : Drained → Type 0
Finishes r = r.end ≡ drained → r.pending ≡ []

full-Finishes :
    (full more : Drained) → Finishes more → Finishes (elim full.end [ drained ↦ more | _ ↦ full ])
full-Finishes full more h = answered full.end refl
  where
    answered : (e : DrainEnd) → full.end ≡ e → Finishes (elim e [ drained ↦ more | _ ↦ full ])
    answered drained e = h
    answered commit_error e = λ g. absurd (cc g)
    answered notify_error e = λ g. absurd (cc g)
    answered cancelled e = λ g. absurd (cc g)

pub send_rest-pending :
    (commits : ℕ → Commit) (sent : List (List FileBoundary)) (batch pending : List FileBoundary)
    → (send_rest commits sent batch pending).pending ≡ pending
unfolding send_rest
send_rest-pending commits sent [] pending = refl
send_rest-pending commits sent (b ∷ bs) pending = send_batch-pending commits sent (b ∷ bs) pending

pub flush_all-Finishes :
    (commits : ℕ → Commit) (waits : FileBoundary → Bool) (pending : List FileBoundary)
    (sent : List (List FileBoundary)) (batch : List FileBoundary)
    → Finishes (flush_all commits waits sent batch pending)
unfolding flush_all
flush_all-Finishes commits waits [] sent batch = λ e. send_rest-pending commits sent batch []
flush_all-Finishes commits waits (head ∷ rest) sent batch = elim (Bool-cases (waits head)) [
  | inr e ↦ simp e (λ h. absurd (cc h))
  | inl e ↦ elim (Bool-cases (leb commit_batch_size (length (batch ++ head ∷ [])))) [
    | inl l ↦
        simp (e, l)
          (full-Finishes (send_batch commits sent (batch ++ head ∷ []) rest) _ (
            flush_all-Finishes commits waits rest
              (send_batch commits sent (batch ++ head ∷ []) rest).sent []))
    | inr l ↦ simp (e, l) (flush_all-Finishes commits waits rest sent (batch ++ head ∷ []))
  ]
]

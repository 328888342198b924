-- ===== src/Rbd/Destination/Commits/Syncs.antt =====
-- A response follows the Syncs of all its paths.
use Prim.Native.String.{String}
use ceph_volsync_plugin.Base.{
  ℕ, ◌+◌, ◌≡◌, ◌≢◌, refl, sym, ap, ◌∙◌, inl, inr, Bool, true, List, [], ◌∷◌, ◌++◌, append_assoc,
  concat, Bool-cases,
}
use ceph_volsync_plugin.Rbd.Destination.Commits.{
  CommitRecv, entries, eof, broken, CommitEnd, finished, recv_error, open_error, sync_error,
  close_error, send_error, waiting, CommitAnswers, Committed, stop, Synced, sync_all, respond,
  commit_device,
}

-- The requests up to the end of the stream.
unfoldable pub requests : List CommitRecv → List (List String)
requests [] = []
requests (entries ps ∷ rs) = ps ∷ requests rs
requests (_ ∷ rs) = []

-- The responses are those of a first part of the requests, and a Sync went before for each path of
-- them.
pub record SyncsFirst (rs : List CommitRecv) (c : Committed) : Type 0 where
  pub unanswered : List (List String)
  pub unsent : List String
  pub sent_is : c.sent ++ unanswered ≡ requests rs
  pub synced_is : c.synced ≡ concat c.sent ++ unsent
  pub complete : c.end ≡ finished → (unanswered ≡ []) × (unsent ≡ [])

sync_all-paths :
    (syncs : ℕ → Bool) (n : ℕ) (ps : List String)
    → (sync_all syncs n ps).ok ≡ true
    → (sync_all syncs n ps).paths ≡ ps
unfolding sync_all
sync_all-paths syncs n [] h = refl
sync_all-paths syncs n (p ∷ ps) h = elim (Bool-cases (syncs n)) [
  | inl e ↦ simp e (ap (◌∷◌ p) (sync_all-paths syncs (n + 1) ps (simp e at h)))
  | inr e ↦ absurd (cc (simp e at h))
]

stopped :
    (rs : List CommitRecv) (synced : List String) (e : CommitEnd)
    → e ≢ finished
    → SyncsFirst rs (stop synced e)
stopped rs synced e n = record {
  unanswered = requests rs;
  unsent = synced;
  sent_is = refl;
  synced_is = refl;
  complete = λ k. absurd (n k);
}

respond-SyncsFirst :
    (a : CommitAnswers) (ps : List String) (rs : List CommitRecv) (s : Synced) (more : Committed)
    → (s.ok ≡ true → s.paths ≡ ps)
    → SyncsFirst rs more
    → SyncsFirst (entries ps ∷ rs) (respond a s more)
unfolding respond requests
respond-SyncsFirst a ps rs s more all h =
    let rest = entries ps ∷ rs in
    elim (Bool-cases s.ok) [
      | inr e ↦ simp e (stopped rest s.paths sync_error (λ k. cc))
      | inl e ↦ elim (Bool-cases a.closes) [
        | inr c ↦ simp (e, c) (stopped rest s.paths close_error (λ k. cc))
        | inl c ↦ elim (Bool-cases a.sends) [
          | inr k ↦ simp (e, c, k) (stopped rest s.paths send_error (λ k. cc))
          | inl k ↦
              simp (e, c, k)
                (record {
                  unanswered = h.unanswered;
                  unsent = h.unsent;
                  sent_is =
                      ap (λ z. z ∷ (more.sent ++ h.unanswered)) (all e) ∙ ap (◌∷◌ ps) h.sent_is;
                  synced_is =
                      ap (λ z. s.paths ++ z) h.synced_is
                      ∙ sym (append_assoc s.paths (concat more.sent) h.unsent);
                  complete = h.complete;
                })
        ]
      ]
    ]

-- Over any run of a commit stream, whatever fails: the responses are those of a first part of the
-- requests, in order, each with all of its paths; the device was synced before for every path of
-- them; and if the stream finishes without an error every request has its response.
pub commit_device-SyncsFirst :
    (answers : ℕ → CommitAnswers) (n : ℕ) (rs : List CommitRecv)
    → SyncsFirst rs (commit_device answers n rs)
unfolding commit_device requests
commit_device-SyncsFirst answers n [] = stopped [] [] waiting (λ k. cc)
commit_device-SyncsFirst answers n (broken ∷ rs) = stopped (broken ∷ rs) [] recv_error (λ k. cc)
commit_device-SyncsFirst answers n (eof ∷ rs) = record {
  unanswered = [];
  unsent = [];
  sent_is = refl;
  synced_is = refl;
  complete = λ k. (refl, refl);
}
commit_device-SyncsFirst answers n (entries ps ∷ rs) =
    let a = answers n in
    let next = commit_device-SyncsFirst answers (n + 1) rs in
    elim (Bool-cases a.opens) [
      | inr e ↦ simp e (stopped (entries ps ∷ rs) [] open_error (λ k. cc))
      | inl e ↦ simp e (
          respond-SyncsFirst a ps rs (sync_all a.syncs 0 ps) (commit_device answers (n + 1) rs)
            (sync_all-paths a.syncs 0 ps) next)
    ]

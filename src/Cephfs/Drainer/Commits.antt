-- ===== src/Cephfs/Drainer/Commits.antt =====
-- What the two loops of the drainer send.
use ceph_volsync_plugin.Base.{
  ℕ, ◌≤◌, ◌<◌, ◌≡◌, refl, ◌∙◌, false, List, [], ◌∷◌, ◌++◌, All, All-append, concat, concat-snoc,
  concat-snoc-append, length, length-append, leb, arith,
}
use ceph_volsync_plugin.Cephfs.Drainer.{
  FileBoundary, Commit, committed, refused, unnotified, DrainEnd, drained, commit_error,
  notify_error, cancelled, Drained, commit_batch_size, send_batch, send_rest,
}

-- A request for a commit is never empty and has at most 1000 files.
abbrev pub IsCommit : List FileBoundary → Type 0
IsCommit q = (0 < length q) × (length q ≤ 1000)

-- A result keeps the files: those committed, those given up and those pending are the files there
-- were, in their order. What was committed was answered to be ready, and if the loop ended without
-- an error nothing was given up.
pub record Keeps (P : FileBoundary → Type 0) (files : List FileBoundary) (r : Drained)
    : Type 0 where
  pub files_kept : concat r.sent ++ (r.unsent ++ r.pending) ≡ files
  pub safe : All P (concat r.sent)
  pub sizes : All IsCommit r.sent
  pub settled : r.end ≡ drained → r.unsent ≡ []

pub Keeps-files :
    {P : FileBoundary → Type 0} {files others : List FileBoundary} {r : Drained}
    → files ≡ others
    → Keeps P files r
    → Keeps P others r
Keeps-files e k = record {
  files_kept = k.files_kept ∙ e;
  safe = k.safe;
  sizes = k.sizes;
  settled = k.settled;
}

-- What holds before each round of a loop.
pub record Before (P : FileBoundary → Type 0) (sent : List (List FileBoundary))
    (batch : List FileBoundary) : Type 0 where
  pub safe : All P (concat sent)
  pub sizes : All IsCommit sent
  pub ready_batch : All P batch
  pub room : length batch < 1000

add-safe :
    (P : FileBoundary → Type 0) (sent : List (List FileBoundary)) (q : List FileBoundary)
    → All P (concat sent)
    → All P q
    → All P (concat (sent ++ q ∷ []))
add-safe P sent q s h = rw (concat-snoc sent q) (All-append P (concat sent) q s h)

pub send_batch-Keeps :
    (P : FileBoundary → Type 0) (commits : ℕ → Commit) (sent : List (List FileBoundary))
    (batch pending : List FileBoundary)
    → All P (concat sent)
    → All IsCommit sent
    → All P batch
    → IsCommit batch
    → Keeps P (concat sent ++ (batch ++ pending)) (send_batch commits sent batch pending)
unfolding send_batch
send_batch-Keeps P commits sent batch pending s z b c = answered (commits (length sent))
  where
    answered :
        (a : Commit)
        → Keeps P (concat sent ++ (batch ++ pending)) (elim a [
          | committed ↦ record {
            sent = sent ++ batch ∷ [];
            unsent = [];
            pending = pending;
            end = drained;
          }
          | refused ↦ record { sent = sent; unsent = batch; pending = pending; end = commit_error }
          | unnotified ↦ record {
            sent = sent ++ batch ∷ [];
            unsent = [];
            pending = pending;
            end = notify_error;
          }
        ])
    answered committed = record {
      files_kept = concat-snoc-append sent batch pending;
      safe = add-safe P sent batch s b;
      sizes = All-append IsCommit sent (batch ∷ []) z (c, tt);
      settled = λ h. refl;
    }
    answered refused = record {
      files_kept = refl;
      safe = s;
      sizes = z;
      settled = λ h. absurd (cc h);
    }
    answered unnotified = record {
      files_kept = concat-snoc-append sent batch pending;
      safe = add-safe P sent batch s b;
      sizes = All-append IsCommit sent (batch ∷ []) z (c, tt);
      settled = λ h. refl;
    }

pub send_rest-Keeps :
    (P : FileBoundary → Type 0) (commits : ℕ → Commit) (sent : List (List FileBoundary))
    (batch pending : List FileBoundary)
    → Before P sent batch
    → Keeps P (concat sent ++ (batch ++ pending)) (send_rest commits sent batch pending)
unfolding send_rest
send_rest-Keeps P commits sent [] pending b = record {
  files_kept = refl;
  safe = b.safe;
  sizes = b.sizes;
  settled = λ h. refl;
}
send_rest-Keeps P commits sent (q ∷ qs) pending b =
    send_batch-Keeps P commits sent (q ∷ qs) pending b.safe b.sizes b.ready_batch
      (omega arith, omega (arith, b.room))

-- One more file is taken into the batch.
pub more-Before :
    (P : FileBoundary → Type 0) (sent : List (List FileBoundary)) (batch : List FileBoundary)
    (head : FileBoundary)
    → Before P sent batch
    → P head
    → leb commit_batch_size (length (batch ++ head ∷ [])) ≡ false
    → Before P sent (batch ++ head ∷ [])
more-Before P sent batch head b h small = record {
  safe = b.safe;
  sizes = b.sizes;
  ready_batch = All-append P batch (head ∷ []) b.ready_batch (h, tt);
  room = ground arith;
}

pub full-IsCommit :
    (P : FileBoundary → Type 0) (sent : List (List FileBoundary)) (batch : List FileBoundary)
    (head : FileBoundary)
    → Before P sent batch
    → IsCommit (batch ++ head ∷ [])
full-IsCommit P sent batch head b = omega (arith, length-append batch (head ∷ []), b.room)

-- What a full batch leads to: on success the loop goes on from an empty batch.
pub full-Keeps :
    (P : FileBoundary → Type 0) (files : List FileBoundary) (full more : Drained)
    → Keeps P files full
    → (full.end ≡ drained → Keeps P files more)
    → Keeps P files (elim full.end [ drained ↦ more | _ ↦ full ])
full-Keeps P files full more k h = answered full.end refl
  where
    answered : (e : DrainEnd) → full.end ≡ e → Keeps P files (elim e [ drained ↦ more | _ ↦ full ])
    answered drained e = h e
    answered commit_error e = k
    answered notify_error e = k
    answered cancelled e = k

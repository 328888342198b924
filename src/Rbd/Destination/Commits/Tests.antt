-- ===== src/Rbd/Destination/Commits/Tests.antt =====
-- A commit stream at concrete answers.
use ceph_volsync_plugin.Base.{ℕ, ◌≡◌, refl, true, ltb, List, [], ◌∷◌}
use ceph_volsync_plugin.Rbd.Destination.Commits.{
  CommitRecv, entries, eof, CommitAnswers, sync_error, sync_all, respond, commit_device,
}
use ceph_volsync_plugin.Rbd.Destination.Commits.Syncs.{SyncsFirst, commit_device-SyncsFirst}

-- The device takes one Sync for each opening.
abbrev one_sync : ℕ → CommitAnswers
one_sync n = record { opens = true; syncs = λ k. ltb k 1; closes = true; sends = true }

abbrev two_commits : List CommitRecv
two_commits = entries ("a" ∷ []) ∷ entries ("b" ∷ "c" ∷ []) ∷ eof ∷ []

commit_device-SyncsFirst_example : SyncsFirst two_commits (commit_device one_sync 0 two_commits)
commit_device-SyncsFirst_example = commit_device-SyncsFirst one_sync 0 two_commits

second_sync_fails :
    commit_device one_sync 0 two_commits
    ≡ record { synced = "a" ∷ "b" ∷ []; sent = ("a" ∷ []) ∷ []; end = sync_error }
unfolding commit_device sync_all respond
second_sync_fails = refl

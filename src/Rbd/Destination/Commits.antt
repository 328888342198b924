-- ===== src/Rbd/Destination/Commits.antt =====
-- RBDCommitServer.Commit and RBDDataServer.Delete of internal/worker/rbd/destination.go. What the
-- device and the streams answer is an input, by the number of the request.
pub mod Syncs
mod Tests
use Prim.Native.String.{String}
use ceph_volsync_plugin.Base.{
  ℕ, zero, suc, ◌+◌, Bool, true, false, List, [], ◌∷◌, ◌++◌, if◌then◌else◌,
}

pub data CommitRecv : Type 0 where
  entries : List String → CommitRecv
  eof broken : CommitRecv

pub data CommitEnd : Type 0 where
  finished recv_error open_error sync_error close_error send_error waiting : CommitEnd

-- What a request meets: the opening of the device, the Sync for each of its entries, by how many
-- came before, the Close, and the Send.
pub record CommitAnswers : Type 0 where
  pub opens : Bool
  pub syncs : ℕ → Bool
  pub closes : Bool
  pub sends : Bool

-- The paths that a Sync went before, those of the responses, and the end.
pub record Committed : Type 0 where
  pub synced : List String
  pub sent : List (List String)
  pub end : CommitEnd

abbrev pub stop : List String → CommitEnd → Committed
stop synced e = record { synced = synced; sent = []; end = e }

-- The loop over the entries of a request: the paths whose Sync went well, and whether all did.
pub record Synced : Type 0 where
  pub paths : List String
  pub ok : Bool

unfoldable pub sync_all : (ℕ → Bool) → ℕ → List String → Synced
sync_all syncs n [] = record { paths = []; ok = true }
sync_all syncs n (p ∷ ps) =
    let rest = sync_all syncs (n + 1) ps in
    if syncs n then record rest { paths = p ∷ rest.paths } else record { paths = []; ok = false }

-- What follows the Syncs of a request; `more` is what comes after its response.
unfoldable pub respond : CommitAnswers → Synced → Committed → Committed
respond a s more =
    if s.ok
    then if a.closes
      then if a.sends
        then record more { synced = s.paths ++ more.synced; sent = s.paths ∷ more.sent }
        else stop s.paths send_error
      else stop s.paths close_error
    else stop s.paths sync_error

unfoldable pub commit_device : (ℕ → CommitAnswers) → ℕ → List CommitRecv → Committed
unfolding sync_all respond
commit_device answers n [] = stop [] waiting
commit_device answers n (eof ∷ rs) = stop [] finished
commit_device answers n (broken ∷ rs) = stop [] recv_error
commit_device answers n (entries ps ∷ rs) =
    let a = answers n in
    let more = commit_device answers (n + 1) rs in
    if a.opens then respond a (sync_all a.syncs 0 ps) more else stop [] open_error

-- Delete: how many requests are answered, and whether the handler returns an error. Any error of
-- Recv ends it without one.
pub data DeleteRecv : Type 0 where
  some_request recv_ends : DeleteRecv

pub record DeleteServed : Type 0 where
  pub answered : ℕ
  pub fails : Bool

unfoldable pub delete_device : (ℕ → Bool) → ℕ → List DeleteRecv → DeleteServed
delete_device sends n [] = record { answered = 0; fails = false }
delete_device sends n (recv_ends ∷ rs) = record { answered = 0; fails = false }
delete_device sends n (some_request ∷ rs) =
    let more = delete_device sends (n + 1) rs in
    if sends n
    then record more { answered = more.answered + 1 }
    else record { answered = 0; fails = true }

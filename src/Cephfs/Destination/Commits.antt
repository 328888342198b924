-- ===== src/Cephfs/Destination/Commits.antt =====
-- CephFSCommitServer.Commit of internal/worker/cephfs/destination.go.
pub mod Releases
use Prim.Native.String.{String}
use ceph_volsync_plugin.Base.{ℕ, suc, Bool, true, false, List, [], ◌∷◌, ◌++◌, Option, if◌then◌else◌}
use ceph_volsync_plugin.Base.Int.{ℤ}
use ceph_volsync_plugin.Cephfs.FileCache.{sync_and_release}
use ceph_volsync_plugin.Cephfs.Destination.{Files, update, sync_fails}

pub data CommitRecv : Type 0 where
  entries : List String → CommitRecv
  eof broken : CommitRecv

pub data CommitEnd : Type 0 where
  finished recv_error sync_error send_error waiting : CommitEnd

-- The cache's entries, the paths that SyncAndRelease was called for, and those of the responses.
pub record Commits : Type 0 where
  pub cache : String → Option ℤ
  pub called : List String
  pub sent : List (List String)
  pub end : CommitEnd

-- The loop over the entries of a request: the paths it came to, and the flag that there is no
-- error.
pub record Synced : Type 0 where
  pub cache : String → Option ℤ
  pub paths : List String
  pub ok : Bool

abbrev pub sync_first : String → Synced → Synced
sync_first p s = record s { paths = p ∷ s.paths }

unfoldable pub sync_entries : Files → List String → (String → Option ℤ) → Synced
unfolding sync_and_release
sync_entries fs [] cache = record { cache = cache; paths = []; ok = true }
sync_entries fs (p ∷ ps) cache =
    let after = update p (sync_and_release (cache p)) cache in
    let rest = sync_entries fs ps after in
    if sync_fails (fs.kernel p) (cache p)
    then record { cache = after; paths = p ∷ []; ok = false }
    else sync_first p rest

abbrev pub stop : (String → Option ℤ) → List String → CommitEnd → Commits
stop cache called e = record { cache = cache; called = called; sent = []; end = e }

unfoldable pub commit :
    (ℕ → Files) → (ℕ → Bool) → ℕ → List CommitRecv → (String → Option ℤ) → Commits
unfolding sync_entries
commit fs sends n [] cache = stop cache [] waiting
commit fs sends n (eof ∷ rs) cache = stop cache [] finished
commit fs sends n (broken ∷ rs) cache = stop cache [] recv_error
commit fs sends n (entries ps ∷ rs) cache =
    let s = sync_entries (fs n) ps cache in
    let more = commit fs sends (suc n) rs s.cache in
    if s.ok
    then if sends n
      then record more { called = ps ++ more.called; sent = ps ∷ more.sent }
      else stop s.cache ps send_error
    else stop s.cache s.paths sync_error

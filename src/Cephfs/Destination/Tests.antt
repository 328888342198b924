-- ===== src/Cephfs/Destination/Tests.antt =====
-- The theorems on the destination of file systems at concrete inputs.
use Prim.Native.String.{String}
use text.Mathlib.Text.{◌==◌}
use ceph_volsync_plugin.Base.{
  ℕ, zero, suc, ◌≡◌, ◌≢◌, refl, true, false, List, [], ◌∷◌, if◌then◌else◌,
}
use ceph_volsync_plugin.Base.Text.{Text}
use ceph_volsync_plugin.Pipeline.Send.{ChangedBlock}
use ceph_volsync_plugin.Rbd.Destination.{Kernel, Recv, request, eof}
use ceph_volsync_plugin.Cephfs.FileCache.Readers.{entry_of}
use ceph_volsync_plugin.Cephfs.Paths.{codes, sanitize_path}
use ceph_volsync_plugin.Cephfs.Paths.Confined.{IsBelowMount, sanitize_path-IsBelowMount}
use ceph_volsync_plugin.Cephfs.Destination.{Files, Stream, write_error, waiting, write_stream}
use ceph_volsync_plugin.Cephfs.Destination.Balance.{write_stream-Balances}
use ceph_volsync_plugin.Cephfs.Destination.Acks.{FilesServed, write_stream-FilesServed}
use ceph_volsync_plugin.Cephfs.Destination.Deletes.{Removal, removed, failed}
use ceph_volsync_plugin.Cephfs.Destination.Deletes
use ceph_volsync_plugin.Cephfs.Destination.Deletes.Removes.{Removes}
use ceph_volsync_plugin.Cephfs.Destination.Commits.{entries, commit}
use ceph_volsync_plugin.Cephfs.Destination.Commits
use ceph_volsync_plugin.Cephfs.Destination.Commits.Releases.{ReleasesAll, commit-ReleasesAll}

sanitize_path-IsBelowMount_example : IsBelowMount (codes "/data/b/f")
unfolding sanitize_path
sanitize_path-IsBelowMount_example = sanitize_path-IsBelowMount (codes "a/../b//f") refl

abbrev kernel : Kernel
kernel = record {
  zero_out = λ o n. false;
  zeroed = λ o n. 0;
  write_ok = λ o n. true;
  written = λ o n. 0;
  open_ok = true;
  sync_ok = true;
  close_ok = true;
}

-- A file system on which one file cannot be opened.
abbrev files : Files
files = record { opens = λ p. if p == "locked" then false else true; kernel = λ p. kernel }

abbrev block : ℕ → String → ChangedBlock
block id p = record {
  request_id = id;
  file_path = p;
  total_size = 2;
  offset = 0;
  len = 2;
  is_zero = false;
  bytes = 1 ∷ 2 ∷ [];
}

abbrev counts : String → ℕ
counts p = if p == "shared" then 2 else 0

abbrev stream : Stream
stream = record { cache = λ p. entry_of (counts p); store = λ p x. 0; files = [] }

abbrev received : List Recv
received =
    request (block 0 "shared" ∷ block 1 "new" ∷ [])
    ∷ request (block 2 "new" ∷ block 3 "locked" ∷ [])
    ∷ eof
    ∷ []

not_waiting : write_error ≢ waiting
not_waiting e = cc

write_stream-Balances_example :
    (write_stream files (λ ids. true) received stream).stream.cache "shared" ≡ stream.cache "shared"
unfolding write_stream
write_stream-Balances_example =
    write_stream-Balances counts files (λ ids. true) received stream refl (λ p. refl) not_waiting
      "shared"

write_stream-FilesServed_example :
    FilesServed
      (λ ids. true)
      received
      stream.store
      (write_stream files (λ ids. true) received stream)
write_stream-FilesServed_example = write_stream-FilesServed files (λ ids. true) received stream

acked : (write_stream files (λ ids. true) received stream).acked ≡ (0 ∷ 1 ∷ []) ∷ []
unfolding write_stream
acked = refl

abbrev second_fails : ℕ → Text → Removal
second_fails zero p = removed
second_fails (suc n) p = failed

abbrev deletions : List Deletes.DeleteRecv
deletions =
    Deletes.request (codes "/a" ∷ codes "/b" ∷ [])
    ∷ Deletes.request (codes "/c" ∷ [])
    ∷ Deletes.eof
    ∷ []

abbrev commits : List Commits.CommitRecv
commits = entries ("shared" ∷ "new" ∷ []) ∷ Commits.eof ∷ []

commit-ReleasesAll_example :
    ReleasesAll
      (λ n. files)
      (λ n. true)
      counts
      commits
      (commit (λ n. files) (λ n. true) 0 commits stream.cache)
commit-ReleasesAll_example =
    commit-ReleasesAll (λ n. files) (λ n. true) 0 commits counts stream.cache (λ q. refl)

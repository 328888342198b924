-- ===== src/Cephfs/Destination.antt =====
-- DataServer.Write of internal/worker/cephfs/destination.go with zero.go, over the file cache of
-- cephfs_reader.go. A file is a function from offsets to bytes; what the file system answers is an
-- input, by path.
pub mod Balance
pub mod Blocks
pub mod Acks
pub mod Deletes
pub mod Commits
mod Tests
use Prim.Native.String.{String}
use text.Mathlib.Text.{◌==◌}
use ceph_volsync_plugin.Base.{
  ℕ, ◌+◌, Bool, true, false, not, ◌&&◌, ◌||◌, List, [], ◌∷◌, ◌++◌, Option, none, some, Result, ok,
  err, length, leb, if◌then◌else◌,
}
use ceph_volsync_plugin.Base.Int.{ℤ, pos, ◌+ℤ◌}
use ceph_volsync_plugin.Pipeline.Send.{ChangedBlock}
use ceph_volsync_plugin.Rbd.Destination.{
  Device, Kernel, write_block, collect_request_ids, Recv, request, eof, failed,
}
use ceph_volsync_plugin.Cephfs.Paths.{codes, clean, contains_dots}
use ceph_volsync_plugin.Cephfs.FileCache.{acquire, release, sync_and_release}

-- `opens` says that the file and its directories can be made, looked at and extended; `kernel`
-- answers for the open file, to Fallocate, WriteAt, Sync and Close.
pub record Files : Type 0 where
  pub opens : String → Bool
  pub kernel : String → Kernel

-- The cache's entries, the files, and the paths that the stream's own map holds.
pub record Stream : Type 0 where
  pub cache : String → Option ℤ
  pub store : String → Device
  pub files : List String

abbrev pub update {ℓ} : {A : Type ℓ} → String → A → (String → A) → String → A
update path a f q = if q == path then a else f q

-- `path` is a key of the map.
abbrev pub is_open : String → List String → Bool
is_open path [] = false
is_open path (f ∷ fs) = path == f || is_open path fs

unfoldable pub is_valid : String → Bool
unfolding clean contains_dots
is_valid path = not (contains_dots (clean (codes path)))

-- Acquire gave an entry and whether there is a file.
abbrev pub keep_file : String → Option ℤ × Bool → Stream → Stream × Bool
keep_file path (entry, true) s =
    (record s { cache = update path entry s.cache; files = path ∷ s.files }, true)
keep_file path (entry, false) s = (record s { cache = update path entry s.cache }, false)

unfoldable pub look_up : Files → String → Stream → Stream × Bool
unfolding acquire is_valid
look_up fs path s =
    if is_open path s.files
    then (s, true)
    else keep_file path (acquire (is_valid path) (fs.opens path) (s.cache path)) s

-- A failed write leaves in the file what it has written.
abbrev pub keep_data : String → Result Device Device → Stream → Stream × Bool
keep_data path (err dev) s = (record s { store = update path dev s.store }, false)
keep_data path (ok dev) s = (record s { store = update path dev s.store }, true)

abbrev pub write_opened : Files → ChangedBlock → Stream × Bool → Stream × Bool
write_opened fs b (s, false) = (s, false)
write_opened fs b (s, true) =
    keep_data b.file_path (write_block (fs.kernel b.file_path) b (s.store b.file_path)) s

-- One round of writeBlocks; the flag says that there is no error.
unfoldable pub write_file_block : Files → ChangedBlock → Stream → Stream × Bool
unfolding look_up write_block
write_file_block fs b s = write_opened fs b (look_up fs b.file_path s)

unfoldable pub write_file_blocks : Files → List ChangedBlock → Stream → Stream × Bool
unfolding write_file_block
write_file_blocks fs [] s = (s, true)
write_file_blocks fs (b ∷ bs) s =
    let r = write_file_block fs b s in
    let rest = write_file_blocks fs bs r.0 in if r.1 then rest else r

pub data StreamEnd : Type 0 where
  finished recv_error write_error send_error sync_error waiting : StreamEnd

pub record Written : Type 0 where
  pub stream : Stream
  pub acked : List (List ℕ)
  pub end : StreamEnd

abbrev pub stop : Stream → StreamEnd → Written
stop s e = record { stream = s; acked = []; end = e }

abbrev pub ack_first : List ℕ → Written → Written
ack_first ids w = record w { acked = ids ∷ w.acked }

-- The loop of Write.
unfoldable pub serve : Files → (List ℕ → Bool) → List Recv → Stream → Written
unfolding write_file_blocks collect_request_ids
serve fs send_ok [] s = stop s waiting
serve fs send_ok (eof ∷ rs) s = stop s finished
serve fs send_ok (failed ∷ rs) s = stop s recv_error
serve fs send_ok (request bs ∷ rs) s =
    let r = write_file_blocks fs bs s in
    let more = serve fs send_ok rs r.0 in
    let ids = collect_request_ids bs in
    if r.1
    then if leb (length ids) 0
      then more
      else if send_ok ids
      then ack_first ids more
      else stop r.0 send_error
    else stop r.0 write_error

-- The deferred calls of SyncAndRelease, on the entries.
unfoldable pub release_files : List String → (String → Option ℤ) → String → Option ℤ
unfolding sync_and_release
release_files [] cache = cache
release_files (f ∷ fs) cache = release_files fs (update f (sync_and_release (cache f)) cache)

-- SyncAndRelease returns an error: of Sync, or of the Close that the last release makes.
abbrev pub sync_fails : Kernel → Option ℤ → Bool
sync_fails k none = false
sync_fails k (some n) =
    not k.sync_ok || ((release (release (some (n +ℤ pos 1))).0).1 && not k.close_ok)

abbrev pub any_sync_fails : Files → List String → (String → Option ℤ) → Bool
any_sync_fails fs [] cache = false
any_sync_fails fs (f ∷ files) cache =
    sync_fails (fs.kernel f) (cache f) || any_sync_fails fs files cache

-- An error of the deferred calls is returned only if there is no other.
abbrev pub end_with : Bool → StreamEnd → StreamEnd
end_with true finished = sync_error
end_with _ e = e

-- What follows the loop; a stream that waits has not come so far.
abbrev pub clean_up : Files → StreamEnd → Written → Written
clean_up fs waiting w = w
clean_up fs e w = record w {
  stream = record w.stream { cache = release_files w.stream.files w.stream.cache };
  end = end_with (any_sync_fails fs w.stream.files w.stream.cache) e;
}

unfoldable pub write_stream : Files → (List ℕ → Bool) → List Recv → Stream → Written
unfolding serve release_files release ◌+ℤ◌
write_stream fs send_ok rs s = let w = serve fs send_ok rs s in clean_up fs w.end w

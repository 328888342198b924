-- ===== src/Cephfs/FileCache.antt =====
-- FileCache and CephFSReader of internal/worker/cephfs/cephfs_reader.go. Every operation is about
-- one path and touches only the entry of that path, in the shard of that path: what is modelled is
-- the entry of one path, its refCount or none.
pub mod Readers
use ceph_volsync_plugin.Base.{
  ℕ, zero, suc, ◌+◌, ◌-◌, Bool, true, false, ◌&&◌, Option, none, some, leb, if◌then◌else◌,
}
use ceph_volsync_plugin.Base.Int.{ℤ, pos, negsuc, ◌+ℤ◌, ◌-ℤ◌, leb_ℤ}

-- Acquire: `valid` says that the path passes its check, `opens` that the directory can be made and
-- the file opened, looked at and truncated. The flag says that a file is returned.
unfoldable pub acquire : Bool → Bool → Option ℤ → Option ℤ × Bool
unfolding ◌+ℤ◌
acquire false opens entry = (entry, false)
acquire true opens (some n) = (some (n +ℤ pos 1), true)
acquire true true none = (some (pos 1), true)
acquire true false none = (none, false)

-- Release; the flag says that the file is closed.
unfoldable pub release : Option ℤ → Option ℤ × Bool
unfolding ◌-ℤ◌
release none = (none, false)
release (some n) = if leb_ℤ (n -ℤ pos 1) (pos 0) then (none, true) else (some (n -ℤ pos 1), false)

-- SyncAndRelease, when nobody else uses the path meanwhile: a guard, and two releases.
unfoldable pub sync_and_release : Option ℤ → Option ℤ
unfolding release ◌+ℤ◌
sync_and_release none = none
sync_and_release (some n) = (release (release (some (n +ℤ pos 1))).0).0

-- The state of a CephFSReader for one path: the entry, whether the path is in `acquired`, how many
-- calls of ReadAt are between Acquire and LoadOrStore, and how many of CloseFile between Delete and
-- Release.
pub record Reader : Type 0 where
  pub entry : Option ℤ
  pub acquired : Bool
  pub reading : ℕ
  pub closing : ℕ

-- ReadAt up to Acquire.
abbrev pub after_acquire : Option ℤ × Bool → Reader → Reader
after_acquire (entry, true) r = record r { entry = entry; reading = r.reading + 1 }
after_acquire (entry, false) r = record r { entry = entry }

unfoldable pub start_read : Bool → Bool → Reader → Reader
unfolding acquire
start_read valid opens r = after_acquire (acquire valid opens r.entry) r

-- ReadAt with LoadOrStore: the first reader of a path leaves its reference to the marker.
abbrev pub keep_first : Bool → Reader → Reader
keep_first true r = record r { entry = (release r.entry).0; reading = r.reading - 1 }
keep_first false r = record r { acquired = true; reading = r.reading - 1 }

pub load_or_store : Reader → Reader
unfolding release
load_or_store r = keep_first r.acquired r

-- CloseFile, at its two steps.
pub delete_acquired : Reader → Reader
delete_acquired r = record r { acquired = false; closing = r.closing + 1 }

pub close_file : Reader → Reader
unfolding release
close_file r = record r { entry = (release r.entry).0; closing = r.closing - 1 }

-- ===== src/Cephfs/Destination/Deletes.antt =====
-- DataServer.Delete of internal/worker/cephfs/destination.go. Removals run in parallel: each of
-- them ends well, fails, or is skipped since another failed or the context ended.
pub mod Removes
use ceph_volsync_plugin.Base.{
  ℕ, suc, Bool, true, false, ◌&&◌, List, [], ◌∷◌, ◌++◌, Result, ok, err, if◌then◌else◌,
}
use ceph_volsync_plugin.Cephfs.Paths.{Text, PathError, sanitize_path}

pub data Removal : Type 0 where
  removed failed skipped : Removal

pub data DeleteRecv : Type 0 where
  request : List Text → DeleteRecv
  eof broken : DeleteRecv

pub data DeleteEnd : Type 0 where
  finished recv_error path_error remove_error send_error waiting : DeleteEnd

-- What was removed, and the paths of the requests that were answered.
pub record Deleted : Type 0 where
  pub removals : List Text
  pub answered : List (List Text)
  pub end : DeleteEnd

abbrev pub stop : List Text → DeleteEnd → Deleted
stop paths e = record { removals = paths; answered = []; end = e }

abbrev pub prepend :
    Result PathError Text → Result PathError (List Text) → Result PathError (List Text)
prepend (err e) rest = err e
prepend (ok p) (err e) = err e
prepend (ok p) (ok ps) = ok (p ∷ ps)

-- The first loop over the paths of a request: all are checked before one is removed.
unfoldable pub sanitize_all : List Text → Result PathError (List Text)
unfolding sanitize_path
sanitize_all [] = ok []
sanitize_all (p ∷ ps) = prepend (sanitize_path p) (sanitize_all ps)

abbrev pub is_removed : Removal → Bool
is_removed removed = true
is_removed _ = false

-- The paths that the group of removals has removed.
unfoldable pub remove_each : (Text → Removal) → List Text → List Text
remove_each remove [] = []
remove_each remove (p ∷ ps) =
    let rest = remove_each remove ps in if is_removed (remove p) then p ∷ rest else rest

-- g.Wait() returns nil.
unfoldable pub all_removed : (Text → Removal) → List Text → Bool
all_removed remove [] = true
all_removed remove (p ∷ ps) = is_removed (remove p) && all_removed remove ps

abbrev pub answer : List Text → Deleted → Deleted
answer paths d = record d { removals = paths ++ d.removals; answered = paths ∷ d.answered }

-- What follows the check of a request: `rest` is what comes after its answer.
unfoldable pub delete_paths :
    (Text → Removal) → Bool → Result PathError (List Text) → Deleted → Deleted
unfolding remove_each all_removed
delete_paths remove sends (err e) rest = stop [] path_error
delete_paths remove sends (ok paths) rest =
    if all_removed remove paths
    then if sends then answer paths rest else stop paths send_error
    else stop (remove_each remove paths) remove_error

-- The loop of Delete; `n` counts the requests before.
unfoldable pub delete : (ℕ → Text → Removal) → (ℕ → Bool) → ℕ → List DeleteRecv → Deleted
unfolding delete_paths sanitize_all
delete remove sends n [] = stop [] waiting
delete remove sends n (eof ∷ rs) = stop [] finished
delete remove sends n (broken ∷ rs) = stop [] recv_error
delete remove sends n (request ps ∷ rs) =
    delete_paths (remove n) (sends n) (sanitize_all ps) (delete remove sends (suc n) rs)

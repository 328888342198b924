-- ===== src/Cephfs/Source/Walk.antt =====
-- walkAndStreamDirectories of internal/worker/cephfs/source.go: the directories that WalkDir finds
-- below the mount path, in its order.
use ceph_volsync_plugin.Base.{Bool, true, false, ◌&&◌, List, [], ◌∷◌, ◌++◌, if◌then◌else◌}
use ceph_volsync_plugin.Cephfs.Paths.{Text, slash}

-- The entries of a directory, sorted; a directory among them can be listed or not.
pub data Entries : Type 0 where
  none : Entries
  file_then : Text → Entries → Entries
  folder_then : Text → Entries → Entries → Entries
  unlisted_then : Text → Entries → Entries

-- The mount path: its Lstat fails, its listing fails, or it has entries.
pub data Root : Type 0 where
  unseen unlisted : Root
  listed : Entries → Root

-- What goes through the channel, and whether the walk ends without an error.
pub record Walked : Type 0 where
  pub dirs : List Text
  pub ok : Bool

-- The path of an entry relative to the mount path, with the slash that the walk puts before it.
abbrev pub child : Text → Text → Text
child dir name = dir ++ slash ∷ name

abbrev pub then_walk : Text → Walked → Walked → Walked
then_walk dir inside after = record {
  dirs = dir ∷ inside.dirs ++ (if inside.ok then after.dirs else []);
  ok = inside.ok && after.ok;
}

unfoldable pub walk_entries : Text → Entries → Walked
walk_entries dir none = record { dirs = []; ok = true }
walk_entries dir (file_then name rest) = walk_entries dir rest
walk_entries dir (folder_then name inside rest) =
    then_walk (child dir name) (walk_entries (child dir name) inside) (walk_entries dir rest)
walk_entries dir (unlisted_then name rest) = record { dirs = child dir name ∷ []; ok = false }

unfoldable pub walk_and_stream_directories : Root → Walked
unfolding walk_entries
walk_and_stream_directories unseen = record { dirs = []; ok = false }
walk_and_stream_directories unlisted = record { dirs = (slash ∷ []) ∷ []; ok = false }
walk_and_stream_directories (listed es) =
    let w = walk_entries [] es in record w { dirs = (slash ∷ []) ∷ w.dirs }

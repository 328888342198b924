-- ===== src/Cephfs/Source/Routes.antt =====
-- categorizeDir and produceEntries of internal/worker/cephfs/source.go: each entry that a snapshot
-- diff reports goes to one of three channels. What the iterators and Lstat answer is an input.
pub mod Reports
pub mod Rounds
pub mod Channels
use ceph_volsync_plugin.Base.{
  zero, suc, Bool, true, false, ◌||◌, List, [], ◌∷◌, ◌++◌, if◌then◌else◌,
}
use ceph_volsync_plugin.Base.Int.{ℤ, pos, negsuc}
use ceph_volsync_plugin.Cephfs.Paths.{Text, join}

pub data DType : Type 0 where
  regular directory other : DType

-- Lstat: no such file, another error, or the size.
pub data Stat : Type 0 where
  missing unreadable : Stat
  found : ℤ → Stat

-- An entry with the answer of Lstat for it; `sends` says that the send to a channel comes before
-- the end of the context.
pub record Entry : Type 0 where
  pub name : Text
  pub dtype : DType
  pub stat : Stat
  pub sends : Bool

-- What a Read of a SnapDiffIterator gives.
pub data DirRead : Type 0 where
  entry : Entry → DirRead
  no_more read_error : DirRead

-- Where an entry goes.
pub data Route : Type 0 where
  large : Text → ℤ → Route
  special deleted : Text → Route

-- One round of the loop: an entry is sent, the directory flag is set, or Lstat's error is returned.
pub data Step : Type 0 where
  send : Route → Step
  changed fail : Step

unfoldable pub route_entry : Text → DType → Stat → Step
route_entry path regular missing = send (deleted path)
route_entry path regular unreadable = fail
route_entry path regular (found (pos zero)) = send (special path)
route_entry path regular (found (pos (suc n))) = send (large path (pos (suc n)))
route_entry path regular (found (negsuc n)) = send (large path (negsuc n))
route_entry path directory missing = send (deleted path)
route_entry path directory _ = changed
route_entry path other missing = send (deleted path)
route_entry path other _ = send (special path)

pub data ProduceEnd : Type 0 where
  produced waiting read_failed stat_failed cancelled no_iterator walk_failed : ProduceEnd

-- What was sent, in order over all channels, state.dirChanged, and the end.
pub record Produced : Type 0 where
  pub routed : List Route
  pub dir_changed : Bool
  pub end : ProduceEnd

abbrev pub stop : ProduceEnd → Produced
stop e = record { routed = []; dir_changed = false; end = e }

abbrev pub take_step : Bool → Step → Produced → Produced
take_step true (send r) rest = record rest { routed = r ∷ rest.routed }
take_step false (send r) rest = stop cancelled
take_step _ changed rest = record rest { dir_changed = true }
take_step _ fail rest = stop stat_failed

unfoldable pub categorize_dir : Text → List DirRead → Produced
unfolding route_entry join
categorize_dir dir [] = stop waiting
categorize_dir dir (no_more ∷ rs) = stop produced
categorize_dir dir (read_error ∷ rs) = stop read_failed
categorize_dir dir (entry e ∷ rs) =
    take_step e.sends (route_entry (join dir e.name) e.dtype e.stat) (categorize_dir dir rs)

-- What a directory meets: whether the context has ended, whether its iterator opens, what it gives.
pub record DirAnswers : Type 0 where
  pub done : Bool
  pub opens : Bool
  pub reads : List DirRead

-- The loop goes on with the next directory if this one ended well.
abbrev pub follow : ProduceEnd → Produced → Produced → Produced
follow produced now rest = record {
  routed = now.routed ++ rest.routed;
  dir_changed = now.dir_changed || rest.dir_changed;
  end = rest.end;
}
follow _ now rest = now

-- produceEntries over the directories that the walk sends and the walk's error.
unfoldable pub produce_entries : (Text → DirAnswers) → Bool → List Text → Produced
unfolding categorize_dir
produce_entries answers walk_ok [] = stop (if walk_ok then produced else walk_failed)
produce_entries answers walk_ok (dir ∷ dirs) =
    let a = answers dir in
    let now = categorize_dir dir a.reads in
    let rest = produce_entries answers walk_ok dirs in
    if a.done then stop cancelled else if a.opens then follow now.end now rest else stop no_iterator

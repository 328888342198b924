-- ===== src/Cephfs/Source/Routes/Reports.antt =====
-- What the snapshot diffs report, and which of it belongs where.
use ceph_volsync_plugin.Base.{
  zero, ◌≡◌, refl, ap, inl, inr, Bool, true, false, not, ◌&&◌, ◌||◌, List, [], ◌∷◌, ◌++◌,
  if◌then◌else◌, Bool-cases,
}
use ceph_volsync_plugin.Base.Int.{pos}
use ceph_volsync_plugin.Cephfs.Paths.{Text, join}
use ceph_volsync_plugin.Cephfs.Source.Routes.{
  DType, regular, directory, other, Stat, missing, found, Entry, DirRead, entry, Route, large,
  special, deleted, DirAnswers,
}

-- An entry with its path.
pub record Report : Type 0 where
  pub path : Text
  pub entry : Entry

-- What a diff reports of one directory, and of all.
unfoldable pub reports : Text → List DirRead → List Report
reports dir (entry e ∷ rs) = record { path = join dir e.name; entry = e } ∷ reports dir rs
reports dir _ = []

unfoldable pub all_reports : (Text → DirAnswers) → List Text → List Report
unfolding reports
all_reports answers [] = []
all_reports answers (dir ∷ dirs) = reports dir (answers dir).reads ++ all_reports answers dirs

-- The paths of the reports that pass a test.
unfoldable pub select : (Report → Bool) → List Report → List Text
select test [] = []
select test (r ∷ rs) = let rest = select test rs in if test r then r.path ∷ rest else rest

-- The paths that the target snapshot no longer has.
abbrev pub is_missing : Stat → Bool
is_missing missing = true
is_missing _ = false

unfoldable pub gone : List Report → List Text
unfolding select
gone = select (λ r. is_missing r.entry.stat)

-- The entries that are there and are no regular file with data, but for directories.
abbrev pub is_special : DType → Stat → Bool
is_special regular (found (pos zero)) = true
is_special other s = not (is_missing s)
is_special _ _ = false

unfoldable pub specials : List Report → List Text
unfolding select
specials = select (λ r. is_special r.entry.dtype r.entry.stat)

-- The regular files with data.
abbrev pub has_data : DType → Stat → Bool
has_data regular (found (pos zero)) = false
has_data regular (found s) = true
has_data _ _ = false

unfoldable pub data_files : List Report → List Text
unfolding select
data_files = select (λ r. has_data r.entry.dtype r.entry.stat)

abbrev pub is_directory : DType → Bool
is_directory directory = true
is_directory _ = false

-- Some directory is still there.
unfoldable pub has_directory : List Report → Bool
has_directory [] = false
has_directory (r ∷ rs) =
    is_directory r.entry.dtype && not (is_missing r.entry.stat) || has_directory rs

-- What went into each channel.
unfoldable pub deleted_ch : List Route → List Text
deleted_ch [] = []
deleted_ch (deleted p ∷ rs) = p ∷ deleted_ch rs
deleted_ch (_ ∷ rs) = deleted_ch rs

unfoldable pub special_ch : List Route → List Text
special_ch [] = []
special_ch (special p ∷ rs) = p ∷ special_ch rs
special_ch (_ ∷ rs) = special_ch rs

unfoldable pub large_ch : List Route → List Text
large_ch [] = []
large_ch (large p n ∷ rs) = p ∷ large_ch rs
large_ch (_ ∷ rs) = large_ch rs

pub select-append :
    (test : Report → Bool) (rs qs : List Report)
    → select test (rs ++ qs) ≡ select test rs ++ select test qs
unfolding select
select-append test [] qs = refl
select-append test (r ∷ rs) qs = elim (Bool-cases (test r)) [
  | inl e ↦ simp e (ap (◌∷◌ r.path) (select-append test rs qs))
  | inr e ↦ simp e (select-append test rs qs)
]

pub has_directory-append :
    (rs qs : List Report) → has_directory (rs ++ qs) ≡ has_directory rs || has_directory qs
unfolding has_directory
has_directory-append [] qs = refl
has_directory-append (r ∷ rs) qs =
    either (is_directory r.entry.dtype && not (is_missing r.entry.stat)) (has_directory rs)
      (has_directory qs) (has_directory-append rs qs)
  where
    either : (a : Bool) {b : Bool} (c d : Bool) → b ≡ c || d → a || b ≡ (a || c) || d
    either true c d h = refl
    either false c d h = h

pub deleted_ch-append :
    (rs qs : List Route) → deleted_ch (rs ++ qs) ≡ deleted_ch rs ++ deleted_ch qs
unfolding deleted_ch
deleted_ch-append [] qs = refl
deleted_ch-append (deleted p ∷ rs) qs = ap (◌∷◌ p) (deleted_ch-append rs qs)
deleted_ch-append (special p ∷ rs) qs = deleted_ch-append rs qs
deleted_ch-append (large p n ∷ rs) qs = deleted_ch-append rs qs

pub special_ch-append :
    (rs qs : List Route) → special_ch (rs ++ qs) ≡ special_ch rs ++ special_ch qs
unfolding special_ch
special_ch-append [] qs = refl
special_ch-append (deleted p ∷ rs) qs = special_ch-append rs qs
special_ch-append (special p ∷ rs) qs = ap (◌∷◌ p) (special_ch-append rs qs)
special_ch-append (large p n ∷ rs) qs = special_ch-append rs qs

pub large_ch-append : (rs qs : List Route) → large_ch (rs ++ qs) ≡ large_ch rs ++ large_ch qs
unfolding large_ch
large_ch-append [] qs = refl
large_ch-append (deleted p ∷ rs) qs = large_ch-append rs qs
large_ch-append (special p ∷ rs) qs = large_ch-append rs qs
large_ch-append (large p n ∷ rs) qs = ap (◌∷◌ p) (large_ch-append rs qs)

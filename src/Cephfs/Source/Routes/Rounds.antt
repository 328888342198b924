-- ===== src/Cephfs/Source/Routes/Rounds.antt =====
-- One directory: which of its entries go to which channel.
use ceph_volsync_plugin.Base.{
  zero, suc, ◌≡◌, ◌≢◌, refl, sym, ap, ◌∙◌, Bool, true, false, List, [], ◌∷◌, ◌++◌,
}
use ceph_volsync_plugin.Base.Int.{ℤ, pos, negsuc}
use ceph_volsync_plugin.Cephfs.Paths.{Text, join}
use ceph_volsync_plugin.Cephfs.Source.Routes.{
  DType, regular, directory, other, Stat, missing, unreadable, found, DirRead, entry, no_more,
  read_error, large, special, deleted, send, route_entry, ProduceEnd, produced, waiting,
  read_failed, stat_failed, cancelled, Produced, stop, take_step, categorize_dir,
}
use ceph_volsync_plugin.Cephfs.Source.Routes.Reports.{
  Report, reports, is_missing, gone, is_special, specials, data_files, has_directory, deleted_ch,
  special_ch, large_ch,
}

-- The entries that were looked at, a first part of those reported, each went where it belongs.
pub record Channels (all : List Report) (p : Produced) : Type 0 where
  pub seen : List Report
  pub rest : List Report
  pub seen_is : seen ++ rest ≡ all
  pub deleted_is : deleted_ch p.routed ≡ gone seen
  pub special_is : special_ch p.routed ≡ specials seen
  pub large_is : large_ch p.routed ≡ data_files seen
  pub dir_is : p.dir_changed ≡ has_directory seen
  pub complete : p.end ≡ produced → rest ≡ []

pub stopped :
    (all : List Report) (e : ProduceEnd) → (e ≡ produced → all ≡ []) → Channels all (stop e)
unfolding gone specials data_files has_directory deleted_ch special_ch large_ch
stopped all e h = record {
  seen = [];
  rest = all;
  seen_is = refl;
  deleted_is = refl;
  special_is = refl;
  large_is = refl;
  dir_is = refl;
  complete = h;
}

-- What a round adds to the channels.
seen_one :
    (r : Report) {all : List Report} {p : Produced} (q : Produced) (c : Channels all p)
    → deleted_ch q.routed ≡ gone (r ∷ c.seen)
    → special_ch q.routed ≡ specials (r ∷ c.seen)
    → large_ch q.routed ≡ data_files (r ∷ c.seen)
    → q.dir_changed ≡ has_directory (r ∷ c.seen)
    → q.end ≡ p.end
    → Channels (r ∷ all) q
seen_one r q c d s l f e = record {
  seen = r ∷ c.seen;
  rest = c.rest;
  seen_is = ap (◌∷◌ r) c.seen_is;
  deleted_is = d;
  special_is = s;
  large_is = l;
  dir_is = f;
  complete = λ k. c.complete (sym e ∙ k);
}

abbrev report : Text → Text → DType → Stat → Bool → Report
report path name t s sends = record {
  path = path;
  entry = record { name = name; dtype = t; stat = s; sends = sends };
}

to_deleted :
    (path name : Text) (t : DType) {all : List Report} {p : Produced}
    → Channels all p
    → Channels (report path name t missing true ∷ all) (take_step true (send (deleted path)) p)
unfolding gone specials data_files has_directory deleted_ch special_ch large_ch
to_deleted path name regular c =
    seen_one _ _ c (ap (◌∷◌ path) c.deleted_is) c.special_is c.large_is c.dir_is refl
to_deleted path name directory c =
    seen_one _ _ c (ap (◌∷◌ path) c.deleted_is) c.special_is c.large_is c.dir_is refl
to_deleted path name other c =
    seen_one _ _ c (ap (◌∷◌ path) c.deleted_is) c.special_is c.large_is c.dir_is refl

to_special :
    (path name : Text) (t : DType) (s : Stat) {all : List Report} {p : Produced}
    → is_special t s ≡ true
    → Channels all p
    → Channels (report path name t s true ∷ all) (take_step true (send (special path)) p)
unfolding gone specials data_files has_directory deleted_ch special_ch large_ch
to_special path name regular (found (pos zero)) h c =
    seen_one _ _ c c.deleted_is (ap (◌∷◌ path) c.special_is) c.large_is c.dir_is refl
to_special path name other unreadable h c =
    seen_one _ _ c c.deleted_is (ap (◌∷◌ path) c.special_is) c.large_is c.dir_is refl
to_special path name other (found n) h c =
    seen_one _ _ c c.deleted_is (ap (◌∷◌ path) c.special_is) c.large_is c.dir_is refl
to_special path name _ _ h c = absurd (cc)

to_large :
    (path name : Text) (n : ℤ) {all : List Report} {p : Produced}
    → n ≢ pos zero
    → Channels all p
    → Channels
        (report path name regular (found n) true ∷ all)
        (take_step true (send (large path n)) p)
unfolding gone specials data_files has_directory deleted_ch special_ch large_ch
to_large path name (pos zero) h c = absurd (h refl)
to_large path name (pos (suc n)) h c =
    seen_one _ _ c c.deleted_is c.special_is (ap (◌∷◌ path) c.large_is) c.dir_is refl
to_large path name (negsuc n) h c =
    seen_one _ _ c c.deleted_is c.special_is (ap (◌∷◌ path) c.large_is) c.dir_is refl

to_flag :
    (path name : Text) (s : Stat) (sends : Bool) {all : List Report} {p : Produced}
    → is_missing s ≡ false
    → Channels all p
    → Channels (report path name directory s sends ∷ all) (record p { dir_changed = true })
unfolding gone specials data_files has_directory deleted_ch special_ch large_ch
to_flag path name missing sends h c = absurd (cc)
to_flag path name unreadable sends h c =
    seen_one _ _ c c.deleted_is c.special_is c.large_is refl refl
to_flag path name (found n) sends h c =
    seen_one _ _ c c.deleted_is c.special_is c.large_is refl refl

take_step-Channels :
    (path name : Text) (t : DType) (s : Stat) (sends : Bool) {all : List Report} {p : Produced}
    → Channels all p
    → Channels (report path name t s sends ∷ all) (take_step sends (route_entry path t s) p)
unfolding route_entry
take_step-Channels path name regular unreadable true c = stopped _ stat_failed (λ k. cc)
take_step-Channels path name regular unreadable false c = stopped _ stat_failed (λ k. cc)
take_step-Channels path name directory unreadable true c = to_flag path name unreadable true refl c
take_step-Channels path name directory unreadable false c =
    to_flag path name unreadable false refl c
take_step-Channels path name directory (found n) true c = to_flag path name (found n) true refl c
take_step-Channels path name directory (found n) false c = to_flag path name (found n) false refl c
take_step-Channels path name regular missing true c = to_deleted path name regular c
take_step-Channels path name directory missing true c = to_deleted path name directory c
take_step-Channels path name other missing true c = to_deleted path name other c
take_step-Channels path name regular (found (pos zero)) true c =
    to_special path name regular (found (pos zero)) refl c
take_step-Channels path name regular (found (pos (suc n))) true c =
    to_large path name (pos (suc n)) (λ k. cc) c
take_step-Channels path name regular (found (negsuc n)) true c =
    to_large path name (negsuc n) (λ k. cc) c
take_step-Channels path name other unreadable true c = to_special path name other unreadable refl c
take_step-Channels path name other (found n) true c = to_special path name other (found n) refl c
take_step-Channels path name regular missing false c = stopped _ cancelled (λ k. cc)
take_step-Channels path name directory missing false c = stopped _ cancelled (λ k. cc)
take_step-Channels path name other missing false c = stopped _ cancelled (λ k. cc)
take_step-Channels path name regular (found (pos zero)) false c = stopped _ cancelled (λ k. cc)
take_step-Channels path name regular (found (pos (suc n))) false c = stopped _ cancelled (λ k. cc)
take_step-Channels path name regular (found (negsuc n)) false c = stopped _ cancelled (λ k. cc)
take_step-Channels path name other unreadable false c = stopped _ cancelled (λ k. cc)
take_step-Channels path name other (found n) false c = stopped _ cancelled (λ k. cc)

pub categorize_dir-Channels :
    (dir : Text) (rs : List DirRead) → Channels (reports dir rs) (categorize_dir dir rs)
unfolding categorize_dir reports
categorize_dir-Channels dir [] = stopped _ waiting (λ k. refl)
categorize_dir-Channels dir (no_more ∷ rs) = stopped _ produced (λ k. refl)
categorize_dir-Channels dir (read_error ∷ rs) = stopped _ read_failed (λ k. refl)
categorize_dir-Channels dir (entry e ∷ rs) =
    take_step-Channels (join dir e.name) e.name e.dtype e.stat e.sends
      (categorize_dir-Channels dir rs)

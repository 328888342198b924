-- ===== src/Mover/Catalog/Claims.antt =====
-- A mover is found exactly if one builder claims the resource.
use ceph_volsync_plugin.Base.{◌≡◌, refl, List, [], ◌∷◌, Option, none, some, Result, ok, err}
use ceph_volsync_plugin.Mover.Catalog.{
  Candidate, failed, nothing, claims, CatalogError, no_mover_found, multiple_movers_found,
  catalog_loop, get_mover_from_catalog,
}

module _ {M : Type 0} where
  -- The movers of the builders that claim the resource without an error.
  unfoldable pub claimants : List (Candidate M) → List M
  claimants [] = []
  claimants (claims m ∷ cs) = m ∷ claimants cs
  claimants (_ ∷ cs) = claimants cs

  -- The answer that goes with a list of claimants.
  abbrev pub answer : List M → Result CatalogError M
  answer [] = err no_mover_found
  answer (m ∷ []) = ok m
  answer (m ∷ n ∷ ms) = err multiple_movers_found

  abbrev before : Option M → List M → List M
  before none ms = ms
  before (some m) ms = m ∷ ms

  catalog_loop-answer :
      (cs : List (Candidate M)) (found : Option M)
      → catalog_loop cs found ≡ answer (before found (claimants cs))
  unfolding catalog_loop claimants
  catalog_loop-answer [] none = refl
  catalog_loop-answer [] (some m) = refl
  catalog_loop-answer (failed ∷ cs) found = catalog_loop-answer cs found
  catalog_loop-answer (nothing ∷ cs) found = catalog_loop-answer cs found
  catalog_loop-answer (claims m ∷ cs) none = catalog_loop-answer cs (some m)
  catalog_loop-answer (claims m ∷ cs) (some n) = refl

  -- Whatever the builders answer: the catalog gives the mover of the one builder that claims the
  -- resource; if none does, or more than one, it gives the error for that; a builder that fails is
  -- passed over.
  pub get_mover_from_catalog-answer :
      (cs : List (Candidate M)) → get_mover_from_catalog cs ≡ answer (claimants cs)
  unfolding get_mover_from_catalog
  get_mover_from_catalog-answer cs = catalog_loop-answer cs none

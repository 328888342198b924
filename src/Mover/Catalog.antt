-- ===== src/Mover/Catalog.antt =====
-- The catalog of internal/mover/builder.go: which builder makes the mover of a resource.
pub mod Claims
mod Tests
use ceph_volsync_plugin.Base.{ℕ, List, [], ◌∷◌, ◌++◌, Option, none, some, Result, ok, err}

-- What a builder answers: an error, no mover, or a mover (which may come with an error, and then
-- does not count).
pub data Candidate (M : Type 0) : Type 0 where
  failed nothing : Candidate M
  claims : M → Candidate M

pub data CatalogError : Type 0 where
  no_mover_found multiple_movers_found : CatalogError

module _ {M : Type 0} where
  -- The end of the loop.
  abbrev pub chosen : Option M → Result CatalogError M
  chosen none = err no_mover_found
  chosen (some m) = ok m

  -- A candidate where `data_mover` is what was found before; `rest` goes on with the given one.
  abbrev pub consider :
      Candidate M → Option M → (Option M → Result CatalogError M) → Result CatalogError M
  consider failed data_mover rest = rest data_mover
  consider nothing data_mover rest = rest data_mover
  consider (claims m) none rest = rest (some m)
  consider (claims m) (some _) rest = err multiple_movers_found

  -- The loop of GetSourceMoverFromCatalog and GetDestinationMoverFromCatalog.
  unfoldable pub catalog_loop : List (Candidate M) → Option M → Result CatalogError M
  catalog_loop [] data_mover = chosen data_mover
  catalog_loop (c ∷ cs) data_mover = consider c data_mover (catalog_loop cs)

  unfoldable pub get_mover_from_catalog : List (Candidate M) → Result CatalogError M
  unfolding catalog_loop
  get_mover_from_catalog cs = catalog_loop cs none

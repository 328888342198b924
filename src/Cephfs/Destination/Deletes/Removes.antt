-- ===== src/Cephfs/Destination/Deletes/Removes.antt =====
-- What the deletions of the destination remove.
use ceph_volsync_plugin.Base.{ℕ, ◌≡◌, Bool, List, [], ◌∷◌, ◌++◌, All, Any, false, concat, ok, err}
use ceph_volsync_plugin.Cephfs.Paths.{Text, PathError}
use ceph_volsync_plugin.Cephfs.Paths.Confined.{IsBelowMount}
use ceph_volsync_plugin.Cephfs.Destination.Deletes.{
  Removal, DeleteRecv, request, DeleteEnd, path_error, remove_error, send_error, Deleted,
  sanitize_all, is_removed,
}

-- The requests up to the end of the stream.
pub requests : List DeleteRecv → List (List Text)
requests [] = []
requests (request ps ∷ rs) = ps ∷ requests rs
requests (_ ∷ rs) = []

-- Each answer has all paths of its request.
abbrev pub Answers : List (List Text) → List (List Text) → Type 0
Answers [] [] = Unit
Answers (ps ∷ asked) (a ∷ answered) = (sanitize_all ps ≡ ok a) × Answers asked answered
Answers _ _ = ⊥

-- A list with some elements left out.
pub data Part : List Text → List Text → Type 0 where
  nothing : Part [] []
  keeps : {xs ys : List Text} (x : Text) → Part xs ys → Part (x ∷ xs) (x ∷ ys)
  skips : {xs ys : List Text} (y : Text) → Part xs ys → Part xs (y ∷ ys)

-- How a stream ends, by its end: `others` are the requests that were not answered, and `rest` what
-- was removed for the first of them.
abbrev pub Ending :
    (ℕ → Text → Removal) → (ℕ → Bool) → List (List Text) → List Text → DeleteEnd → Type 0
Ending remove sends others rest path_error =
    (ps : List Text) × ((more : List (List Text)) × ((others ≡ ps ∷ more)
        × ((rest ≡ []) × ((e : PathError) × (sanitize_all ps ≡ err e)))))
Ending remove sends others rest remove_error =
    (ps : List Text) × ((more : List (List Text)) × ((others ≡ ps ∷ more)
        × ((qs : List Text) × ((sanitize_all ps ≡ ok qs)
              × (Part rest qs × ((m : ℕ) × Any (λ q. is_removed (remove m q) ≡ false) qs))))))
Ending remove sends others rest send_error =
    (ps : List Text) × ((more : List (List Text)) × ((others ≡ ps ∷ more)
        × ((sanitize_all ps ≡ ok rest) × ((m : ℕ) × (sends m ≡ false)))))
Ending remove sends others rest _ = (others ≡ []) × (rest ≡ [])

pub record Removes (remove : ℕ → Text → Removal) (sends : ℕ → Bool) (rs : List DeleteRecv)
    (d : Deleted) : Type 0 where
  pub asked : List (List Text)
  pub others : List (List Text)
  pub rest : List Text
  pub in_order : asked ++ others ≡ requests rs
  pub answers : Answers asked d.answered
  pub removed_is : d.removals ≡ concat d.answered ++ rest
  pub below : All IsBelowMount d.removals
  pub ending : Ending remove sends others rest d.end

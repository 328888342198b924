-- ===== src/Mover/Catalog/Tests.antt =====
-- The catalog at concrete answers.
use ceph_volsync_plugin.Base.{ℕ, ◌≡◌, refl, List, [], ◌∷◌, ok}
use ceph_volsync_plugin.Mover.Catalog.{Candidate, failed, nothing, claims, get_mover_from_catalog}
use ceph_volsync_plugin.Mover.Catalog.Claims.{claimants, answer, get_mover_from_catalog-answer}

abbrev candidates : List (Candidate ℕ)
candidates = failed ∷ claims 3 ∷ nothing ∷ []

one_claimant_answers : get_mover_from_catalog candidates ≡ answer (claimants candidates)
one_claimant_answers = get_mover_from_catalog-answer candidates

one_claims : get_mover_from_catalog candidates ≡ ok 3
unfolding get_mover_from_catalog
one_claims = refl

-- ===== src/Mover/Snapshots/Tests.antt =====
-- The rotation of snapshots at concrete times.
use ceph_volsync_plugin.Base.{◌≡◌, refl, true, none, [], ◌∷◌, some, ok, arith}
use ceph_volsync_plugin.Mover.Snapshots.{current, previous, ensure_snapshot}
use ceph_volsync_plugin.Mover.Handles.{
  Api, with_snapshots, snapshots, csi_volume, unbound, get_volume_env_vars,
}
use ceph_volsync_plugin.Mover.Snapshots.Cycles.{
  IsUtils, plain, unmarked, unmarked-IsCleanup, taken, cycles, cycles_keep_two, base_before_last,
}

plain-IsUtils : IsUtils plain
plain-IsUtils = record { marks = λ s. refl; removes = λ s. refl; adds = λ s. refl }

cycles_keep_two_example :
    cycles plain unmarked (1 ∷ 2 ∷ 3 ∷ []) [] ≡ taken previous 2 ∷ taken previous 3 ∷ []
cycles_keep_two_example =
    cycles_keep_two plain unmarked 1 2 (3 ∷ []) plain-IsUtils unmarked-IsCleanup (omega arith)
      (omega arith, tt)

abbrev api : Api
api = record {
  contents = λ n. some (some (n ∷ []));
  source_found = true;
  source_volume = csi_volume (0 ∷ []);
  data_volume = unbound;
  named_volume = none;
}

base_before_last_example :
    get_volume_env_vars snapshots api
      (ensure_snapshot (taken current 4) (cycles plain unmarked (1 ∷ 2 ∷ 3 ∷ []) [])).0
    ≡ ok (with_snapshots (0 ∷ []) (2 ∷ []) (4 ∷ []))
base_before_last_example =
    base_before_last plain unmarked api (λ n. n ∷ []) (0 ∷ []) 1 2 4 (3 ∷ []) plain-IsUtils
      unmarked-IsCleanup (λ n. refl) refl refl (omega arith) (omega arith, tt) (omega arith)

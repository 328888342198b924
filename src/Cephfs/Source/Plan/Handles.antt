-- ===== src/Cephfs/Source/Plan/Handles.antt =====
-- What is compared, for handles that were composed from identifiers.
use ceph_volsync_plugin.Base.{◌^◌, ◌<◌, ◌≡◌, ok}
use ceph_volsync_plugin.Base.Text.{Text}
use ceph_volsync_plugin.Ceph.Volid.{CsiIdentifier, u16, compose_csi_id}

-- `s` was composed from `ci`, with fields in their ranges.
pub record IsHandle (ci : CsiIdentifier) (s : Text) : Type 0 where
  pub location : ci.location_id < 2 ^ 64
  pub version : ci.encoding_version < u16
  pub composed : compose_csi_id ci ≡ ok s

-- ===== src/Ceph/Volid/Tests.antt =====
-- The theorems on identifiers at concrete inputs.
use ceph_volsync_plugin.Base.{ℕ, ◌%◌, ◌≡◌, refl, List, [], ◌∷◌, ◌++◌, length, replicate, arith}
use ceph_volsync_plugin.Ceph.Volid.{
  u16, CsiIdentifier, encode_hex, decode_hex, version_of, join_fields, compose_csi_id, decomposed,
  panicked, decompose_csi_id,
}
use ceph_volsync_plugin.Ceph.Volid.RoundTrip.{compose-decompose, decompose_panics}

abbrev volume : CsiIdentifier
volume = record {
  location_id = 3000;
  encoding_version = 0;
  cluster_id = 99 ∷ 101 ∷ [];
  object_uuid = replicate 36 48;
}

abbrev composed : List ℕ
composed =
    join_fields (encode_hex 4 (version_of volume)) (encode_hex 4 (length volume.cluster_id % u16))
      volume.cluster_id (encode_hex 16 volume.location_id) volume.object_uuid

compose-decompose_example :
    decompose_csi_id composed ≡ decomposed (record volume { encoding_version = 1 })
unfolding compose_csi_id
compose-decompose_example = compose-decompose volume composed (omega arith) (omega arith) refl

abbrev wrong_length : List ℕ
wrong_length = replicate 4 48 ++ 45 ∷ (replicate 4 102 ++ replicate 60 45)

wrong_length_panics : decompose_csi_id wrong_length ≡ panicked
unfolding decode_hex
wrong_length_panics =
    decompose_panics wrong_length (replicate 4 48) (replicate 4 102) 0 (omega arith) (omega arith)
      refl refl refl refl

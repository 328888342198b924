-- ===== src/Ceph/Volid.antt =====
-- CSIIdentifier of internal/ceph/volid/volid.go. Texts are lists of bytes; uint16 arithmetic keeps
-- its wrap-around, and a slice out of range is a panic.
pub mod Hex
pub mod Slices
pub mod RoundTrip
mod Tests
use ceph_volsync_plugin.Base.{
  ℕ, zero, suc, ◌+◌, ◌-◌, ◌*◌, ◌/◌, ◌%◌, ◌^◌, Bool, true, false, ◌&&◌, List, [], ◌∷◌, ◌++◌, Option,
  none, some, Result, ok, err, length, take, drop, ltb, leb, ◌==◌, not, if◌then◌else◌,
}

abbrev pub u16 : ℕ
u16 = 2 ^ 16

abbrev pub sub16 : ℕ → ℕ → ℕ
sub16 a b = (a + u16 - b) % u16

-- `location_id` is the int64 as its 64 bits.
pub record CsiIdentifier : Type 0 where
  pub location_id : ℕ
  pub encoding_version : ℕ
  pub cluster_id : List ℕ
  pub object_uuid : List ℕ

-- A hexadecimal digit as hex.EncodeToString writes it.
abbrev pub hex_digit : ℕ → ℕ
hex_digit d = if ltb d 10 then 48 + d else 87 + d

-- The lowest `k` hexadecimal digits of a number, the highest first: PutUint16 or PutUint64, and
-- EncodeToString.
unfoldable pub encode_hex : ℕ → ℕ → List ℕ
encode_hex zero v = []
encode_hex (suc k) v = encode_hex k (v / 16) ++ hex_digit (v % 16) ∷ []

-- A digit as hex.DecodeString reads it.
abbrev pub digit_value : ℕ → Option ℕ
digit_value c =
    if leb 48 c && leb c 57
    then some (c - 48)
    else if leb 97 c && leb c 102
    then some (c - 87)
    else if leb 65 c && leb c 70
    then some (c - 55)
    else none

abbrev pub add_digit : Option ℕ → Option ℕ → Option ℕ
add_digit (some acc) (some d) = some (acc * 16 + d)
add_digit _ _ = none

-- DecodeString and Uint16 or Uint64, on from the number read so far; none is an invalid digit.
unfoldable pub decode_hex : Option ℕ → List ℕ → Option ℕ
decode_hex acc [] = acc
decode_hex acc (c ∷ cs) = decode_hex (add_digit acc (digit_value c)) cs

abbrev pub known_field_size : ℕ
known_field_size = 64

abbrev pub max_vol_id_len : ℕ
max_vol_id_len = 128

abbrev pub uuid_size : ℕ
uuid_size = 36

pub data VolidError : Type 0 where
  length_overflow invalid_uuid underflow size_mismatch invalid_hex : VolidError

abbrev pub version_of : CsiIdentifier → ℕ
version_of ci = if ci.encoding_version == 0 then 1 else ci.encoding_version

-- The five fields between dashes.
abbrev pub join_fields : List ℕ → List ℕ → List ℕ → List ℕ → List ℕ → List ℕ
join_fields a b c d e = a ++ 45 ∷ (b ++ 45 ∷ (c ++ 45 ∷ (d ++ 45 ∷ e)))

unfoldable pub compose_csi_id : CsiIdentifier → Result VolidError (List ℕ)
compose_csi_id ci =
    if ltb max_vol_id_len (known_field_size + length ci.cluster_id)
    then err length_overflow
    else if length ci.object_uuid == uuid_size
    then ok (
        join_fields (encode_hex 4 (version_of ci)) (encode_hex 4 (length ci.cluster_id % u16))
          ci.cluster_id (encode_hex 16 ci.location_id) ci.object_uuid)
    else err invalid_uuid

-- s[lo:hi]; none is a panic.
abbrev pub slice : List ℕ → ℕ → ℕ → Option (List ℕ)
slice s lo hi = if leb lo hi && leb hi (length s) then some (take (hi - lo) (drop lo s)) else none

-- What DecomposeCSIID comes to.
pub data Decomposed : Type 0 where
  decomposed : CsiIdentifier → Decomposed
  refused : VolidError → Decomposed
  panicked : Decomposed

-- A slice, and what follows it.
abbrev pub with_slice : Option (List ℕ) → (List ℕ → Decomposed) → Decomposed
with_slice none f = panicked
with_slice (some s) f = f s

-- A decoding, and what follows it.
abbrev pub with_hex : Option ℕ → (ℕ → Decomposed) → Decomposed
with_hex none f = refused invalid_hex
with_hex (some v) f = f v

-- From the location on; `bytes` is bytesToProcess and `start` nextFieldStartIdx.
unfoldable pub decompose_tail : List ℕ → ℕ → ℕ → ℕ → List ℕ → Decomposed
decompose_tail s version bytes start cluster_id =
    if ltb bytes 17
    then refused underflow
    else with_slice (slice s start ((start + 16) % u16)) (λ location_hex.
      with_hex (decode_hex (some 0) location_hex) (λ location_id.
        if sub16 bytes 17 == uuid_size
        then with_slice (slice s ((start + 17) % u16) (((start + 17) % u16 + uuid_size) % u16))
            (λ uuid. decomposed (record {
              location_id = location_id;
              encoding_version = version;
              cluster_id = cluster_id;
              object_uuid = uuid;
            }))
        else refused size_mismatch))

-- From the cluster on, whose length is `n`.
unfoldable pub decompose_cluster : List ℕ → ℕ → ℕ → ℕ → Decomposed
unfolding decompose_tail
decompose_cluster s version bytes n =
    if ltb bytes ((n + 1) % u16)
    then refused underflow
    else with_slice (slice s 10 ((10 + n) % u16)) (λ cluster_id.
      decompose_tail s version (sub16 bytes ((n + 1) % u16)) (((10 + n) % u16 + 1) % u16)
        cluster_id)

unfoldable pub decompose_csi_id : List ℕ → Decomposed
unfolding decompose_cluster decode_hex
decompose_csi_id s =
    let bytes = length s % u16 in
    if ltb bytes known_field_size
    then refused underflow
    else with_slice (slice s 0 4) (λ version_hex.
      with_hex (decode_hex (some 0) version_hex) (λ version. with_slice (slice s 5 9) (λ length_hex.
        with_hex (decode_hex (some 0) length_hex)
          (λ n. decompose_cluster s version (sub16 (sub16 bytes 5) 5) n))))

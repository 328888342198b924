-- ===== src/Ceph/Volid/RoundTrip.antt =====
-- What is composed is decomposed to what it was, and what a wrong length does.
use ceph_volsync_plugin.Base.{
  ℕ, ◌+◌, ◌%◌, ◌^◌, ◌≤◌, ◌<◌, ◌≡◌, refl, sym, ap, ◌∙◌, inl, inr, false, List, some, Result, ok, err,
  length, Bool-cases, ltb, ◌==◌, arith,
}
use ceph_volsync_plugin.Ceph.Volid.{
  u16, sub16, CsiIdentifier, encode_hex, decode_hex, version_of, join_fields, compose_csi_id, slice,
  decomposed, panicked, decompose_tail, decompose_cluster, decompose_csi_id, max_vol_id_len,
  known_field_size, uuid_size, VolidError,
}
use ceph_volsync_plugin.Ceph.Volid.Hex.{length-encode_hex, decode_hex-encode_hex}
use ceph_volsync_plugin.Ceph.Volid.Slices.{Layout, join_fields-Layout}

not_less : (a b : ℕ) → b ≤ a → ltb a b ≡ false
not_less a b h = ground arith

abbrev identifier : ℕ → ℕ → List ℕ → List ℕ → CsiIdentifier
identifier location version cluster uuid = record {
  location_id = location;
  encoding_version = version;
  cluster_id = cluster;
  object_uuid = uuid;
}

decompose_tail-ok :
    (s c d e : List ℕ) (version location n : ℕ)
    → n ≤ 64
    → slice s (11 + n) (27 + n) ≡ some d
    → decode_hex (some 0) d ≡ some location
    → slice s (28 + n) (64 + n) ≡ some e
    → decompose_tail s version 53 (11 + n) c ≡ decomposed (identifier location version c e)
unfolding decompose_tail
decompose_tail-ok s c d e version location n small f4 v f5 =
    let m1 : (11 + n + 16) % u16 ≡ 27 + n = omega arith in
    let m2 : (11 + n + 17) % u16 ≡ 28 + n = omega arith in
    let m3 : (28 + n + uuid_size) % u16 ≡ 64 + n = omega arith in rw (m1, f4, v, m2, m3, f5) refl

decompose_cluster-ok :
    (s a b c d e : List ℕ) (version location n : ℕ)
    → n ≤ 64
    → Layout s a b c d e n
    → decode_hex (some 0) d ≡ some location
    → decompose_cluster s version (54 + n) n ≡ decomposed (identifier location version c e)
unfolding decompose_cluster
decompose_cluster-ok s a b c d e version location n small lay v =
    let m0 : (n + 1) % u16 ≡ n + 1 = omega arith in
    let m1 : (10 + n) % u16 ≡ 10 + n = omega arith in
    let m2 : (10 + n + 1) % u16 ≡ 11 + n = omega arith in
    let m3 : sub16 (54 + n) (n + 1) ≡ 53 = omega arith in
    let room : ltb (54 + n) (n + 1) ≡ false = ground arith in
    rw (m0, room, m1, m2, m3, lay.third)
      (decompose_tail-ok s c d e version location n small lay.fourth v lay.fifth)

decompose-ok :
    (s a b c d e : List ℕ) (version location n : ℕ)
    → n ≤ 64
    → Layout s a b c d e n
    → decode_hex (some 0) a ≡ some version
    → decode_hex (some 0) b ≡ some n
    → decode_hex (some 0) d ≡ some location
    → decompose_csi_id s ≡ decomposed (identifier location version c e)
unfolding decompose_csi_id
decompose-ok s a b c d e version location n small lay va vb vd =
    let m0 : length s % u16 ≡ 64 + n = omega (arith, lay.total) in
    let m1 : sub16 (sub16 (64 + n) 5) 5 ≡ 54 + n = omega arith in
    let room : ltb (64 + n) known_field_size ≡ false = ground arith in
    rw (m0, room, lay.first, va, lay.second, vb, m1)
      (decompose_cluster-ok s a b c d e version location n small lay vd)

-- What an identifier that is composed satisfies.
record Composed (ci : CsiIdentifier) (s : List ℕ) : Type 0 where
  cluster : length ci.cluster_id ≤ 64
  uuid : length ci.object_uuid ≡ 36
  fields :
      join_fields
        (encode_hex 4 (version_of ci))
        (encode_hex 4 (length ci.cluster_id % u16))
        ci.cluster_id
        (encode_hex 16 ci.location_id)
        ci.object_uuid
      ≡ s

ok_value : {a b : List ℕ} → ◌≡◌ {A = Result VolidError (List ℕ)} (ok a) (ok b) → a ≡ b
ok_value {a} {b} e = ap value e
  where
    value : Result VolidError (List ℕ) → List ℕ
    value (ok x) = x
    value (err x) = a

compose-Composed : (ci : CsiIdentifier) (s : List ℕ) → compose_csi_id ci ≡ ok s → Composed ci s
unfolding compose_csi_id
compose-Composed ci s h =
    elim (Bool-cases (ltb max_vol_id_len (known_field_size + length ci.cluster_id))) [
      | inl o ↦ absurd (cc (simp o at h))
      | inr o ↦ elim (Bool-cases (length ci.object_uuid == uuid_size)) [
        | inl u ↦ record {
          cluster = ground (arith, o);
          uuid = ground (arith, u);
          fields = ok_value (simp (o, u) at h);
        }
        | inr u ↦ absurd (cc (simp (o, u) at h))
      ]
    ]

version_of-small : (ci : CsiIdentifier) → ci.encoding_version < u16 → version_of ci < 16 ^ 4
version_of-small ci h = ground arith

-- DecomposeCSIID gives back every field of an identifier that ComposeCSIID has accepted, with a
-- location of 64 bits and a version of 16; a version that was not set is version 1.
pub compose-decompose :
    (ci : CsiIdentifier) (s : List ℕ)
    → ci.location_id < 2 ^ 64
    → ci.encoding_version < u16
    → compose_csi_id ci ≡ ok s
    → decompose_csi_id s ≡ decomposed (record ci { encoding_version = version_of ci })
compose-decompose ci s location version h =
    let c = compose-Composed ci s h in
    let n = length ci.cluster_id in
    let m : n % u16 ≡ n = omega (arith, c.cluster) in
    let a = encode_hex 4 (version_of ci) in
    let b = encode_hex 4 (n % u16) in
    let d = encode_hex 16 ci.location_id in
    rw (sym c.fields) (
      decompose-ok (join_fields a b ci.cluster_id d ci.object_uuid) a b ci.cluster_id d
        ci.object_uuid (version_of ci) ci.location_id n c.cluster
        (join_fields-Layout a b ci.cluster_id d ci.object_uuid n
          (length-encode_hex 4 (version_of ci)) (length-encode_hex 4 (n % u16)) refl
          (length-encode_hex 16 ci.location_id) c.uuid)
        (decode_hex-encode_hex 4 (version_of ci) (version_of-small ci version))
        (decode_hex-encode_hex 4 (n % u16) (omega (arith, m, c.cluster)) ∙ ap some m)
        (decode_hex-encode_hex 16 ci.location_id location))

-- A text of 64 bytes or more whose length field is ffff makes DecomposeCSIID panic: the check of
-- the length adds 1 to it in uint16, and so does the end of the slice wrap.
pub decompose_panics :
    (s a b : List ℕ) (version : ℕ)
    → 64 ≤ length s
    → length s < u16
    → slice s 0 4 ≡ some a
    → decode_hex (some 0) a ≡ some version
    → slice s 5 9 ≡ some b
    → decode_hex (some 0) b ≡ some 65535
    → decompose_csi_id s ≡ panicked
unfolding decompose_csi_id decompose_cluster
decompose_panics s a b version long small f va g vb =
    let m0 : length s % u16 ≡ length s = omega arith in
    let room : ltb (length s) known_field_size ≡ false = not_less (length s) 64 long in
    let any : ltb (sub16 (sub16 (length s) 5) 5) 0 ≡ false =
      not_less (sub16 (sub16 (length s) 5) 5) 0 (omega arith) in
    rw (m0, room, f, va, g, vb, any) refl

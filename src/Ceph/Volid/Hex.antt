-- ===== src/Ceph/Volid/Hex.antt =====
-- Hexadecimal numbers are read as they were written.
use native.Mathlib.Nat
use ceph_volsync_plugin.Base.{
  ℕ, zero, suc, ◌*◌, ◌/◌, ◌%◌, ◌^◌, ◌<◌, ◌≡◌, refl, ap, ◌∙◌, List, [], ◌∷◌, ◌++◌, Option, some,
  length, length-append, arith,
}
use ceph_volsync_plugin.Ceph.Volid.{hex_digit, encode_hex, digit_value, add_digit, decode_hex}

digit_value-hex_digit : (d : ℕ) → d < 16 → digit_value (hex_digit d) ≡ some d
digit_value-hex_digit d h = ground arith

pub length-encode_hex : (k v : ℕ) → length (encode_hex k v) ≡ k
unfolding encode_hex
length-encode_hex zero v = refl
length-encode_hex (suc k) v =
    length-append (encode_hex k (v / 16)) _ ∙ omega (arith, length-encode_hex k (v / 16))

decode_hex-snoc :
    (cs : List ℕ) (acc : Option ℕ) (c : ℕ)
    → decode_hex acc (cs ++ c ∷ []) ≡ add_digit (decode_hex acc cs) (digit_value c)
unfolding decode_hex
decode_hex-snoc [] acc c = refl
decode_hex-snoc (x ∷ cs) acc c = decode_hex-snoc cs (add_digit acc (digit_value x)) c

higher_digits : (k v : ℕ) → v < 16 ^ suc k → v / 16 < 16 ^ k
higher_digits k v h = let e : 16 ^ suc k ≡ 16 ^ k * 16 = Nat.pow-suc 16 k in omega (arith, e)

add_lowest : (v : ℕ) → add_digit (some (v / 16)) (digit_value (hex_digit (v % 16))) ≡ some v
add_lowest v =
    ap (add_digit (some (v / 16))) (digit_value-hex_digit (v % 16) (omega arith))
    ∙ ap some (omega arith)

pub decode_hex-encode_hex : (k v : ℕ) → v < 16 ^ k → decode_hex (some 0) (encode_hex k v) ≡ some v
unfolding encode_hex decode_hex
decode_hex-encode_hex zero v h = ap some (omega arith)
decode_hex-encode_hex (suc k) v h =
    decode_hex-snoc (encode_hex k (v / 16)) (some 0) (hex_digit (v % 16))
    ∙ ap (λ z. add_digit z (digit_value (hex_digit (v % 16))))
        (decode_hex-encode_hex k (v / 16) (higher_digits k v h))
    ∙ add_lowest v

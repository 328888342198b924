-- ===== src/Ceph/Volid/Slices.antt =====
-- Where the fields of a composed identifier lie.
use ceph_volsync_plugin.Base.{
  ℕ, ◌+◌, ◌-◌, ◌≡◌, refl, sym, ap, ◌∙◌, true, ◌&&◌, List, [], ◌∷◌, ◌++◌, some, append_assoc,
  append-nil, length, length-append, take, drop, take-length, drop-length, leb, arith,
}
use ceph_volsync_plugin.Ceph.Volid.{slice, join_fields}

-- A part of a text lies between the length of what precedes it and its own end.
pub slice-part :
    (s pre part post : List ℕ) (lo hi : ℕ)
    → s ≡ pre ++ (part ++ post)
    → length pre ≡ lo
    → lo + length part ≡ hi
    → slice s lo hi ≡ some part
slice-part s pre part post lo hi e l h = rw (e, sym h, sym l) (simp inside (ap some cut))
  where
    all : length (pre ++ (part ++ post)) ≡ length pre + (length part + length post)
    all = length-append pre (part ++ post) ∙ ap (λ z. length pre + z) (length-append part post)

    inside :
        leb (length pre) (length pre + length part)
          && leb (length pre + length part) (length (pre ++ (part ++ post)))
        ≡ true
    inside = ground (arith, all)

    width : length pre + length part - length pre ≡ length part
    width = omega arith

    cut :
        take (length pre + length part - length pre) (drop (length pre) (pre ++ (part ++ post)))
        ≡ part
    cut = rw (width, drop-length pre (part ++ post)) (take-length part post)

-- One more field and its dash are passed over.
skip_field :
    (s pre part rest : List ℕ)
    → s ≡ pre ++ (part ++ 45 ∷ rest)
    → s ≡ (pre ++ (part ++ 45 ∷ [])) ++ rest
skip_field s pre part rest e =
    e
    ∙ ap (λ z. pre ++ z) (sym (append_assoc part (45 ∷ []) rest))
    ∙ sym (append_assoc pre (part ++ 45 ∷ []) rest)

length-skip : (pre part : List ℕ) → length (pre ++ (part ++ 45 ∷ [])) ≡ length pre + length part + 1
length-skip pre part =
    length-append pre (part ++ 45 ∷ []) ∙ omega (arith, length-append part (45 ∷ []))

-- The places of the five fields, where the third has `n` bytes.
pub record Layout (s a b c d e : List ℕ) (n : ℕ) : Type 0 where
  pub total : length s ≡ 64 + n
  pub first : slice s 0 4 ≡ some a
  pub second : slice s 5 9 ≡ some b
  pub third : slice s 10 (10 + n) ≡ some c
  pub fourth : slice s (11 + n) (27 + n) ≡ some d
  pub fifth : slice s (28 + n) (64 + n) ≡ some e

pub join_fields-Layout :
    (a b c d e : List ℕ) (n : ℕ)
    → length a ≡ 4
    → length b ≡ 4
    → length c ≡ n
    → length d ≡ 16
    → length e ≡ 36
    → Layout (join_fields a b c d e) a b c d e n
join_fields-Layout a b c d e n la lb lc ld le =
    let s = join_fields a b c d e in
    let p1 = [] ++ (a ++ 45 ∷ []) in
    let p2 = p1 ++ (b ++ 45 ∷ []) in
    let p3 = p2 ++ (c ++ 45 ∷ []) in
    let p4 = p3 ++ (d ++ 45 ∷ []) in
    let r3 = d ++ 45 ∷ e in
    let r2 = c ++ 45 ∷ r3 in
    let r1 = b ++ 45 ∷ r2 in
    let e1 : s ≡ p1 ++ r1 = skip_field s [] a r1 refl in
    let e2 : s ≡ p2 ++ r2 = skip_field s p1 b r2 e1 in
    let e3 : s ≡ p3 ++ r3 = skip_field s p2 c r3 e2 in
    let e4 : s ≡ p4 ++ (e ++ []) =
      skip_field s p3 d e e3 ∙ ap (λ z. p4 ++ z) (sym (append-nil e)) in
    let l1 : length p1 ≡ 5 = length-skip [] a ∙ omega (arith, la) in
    let l2 : length p2 ≡ 10 = length-skip p1 b ∙ omega (arith, l1, lb) in
    let l3 : length p3 ≡ 11 + n = length-skip p2 c ∙ omega (arith, l2, lc) in
    let l4 : length p4 ≡ 28 + n = length-skip p3 d ∙ omega (arith, l3, ld) in
    record {
      total =
          ap length e4
          ∙ length-append p4 (e ++ [])
          ∙ omega (arith, l4, le, ap length (append-nil e));
      first = slice-part s [] a (45 ∷ r1) 0 4 refl refl (omega (arith, la));
      second = slice-part s p1 b (45 ∷ r2) 5 9 e1 l1 (omega (arith, lb));
      third = slice-part s p2 c (45 ∷ r3) 10 (10 + n) e2 l2 (omega (arith, lc));
      fourth = slice-part s p3 d (45 ∷ e) (11 + n) (27 + n) e3 l3 (omega (arith, ld));
      fifth = slice-part s p4 e [] (28 + n) (64 + n) e4 l4 (omega (arith, le));
    }

-- ===== src/Cephfs/Split/Aliasing.antt =====
-- What the shared backing array does to the result.
use ceph_volsync_plugin.Base.{
  ℕ, zero, suc, ◌+◌, ◌-◌, ◌≤◌, ◌<◌, ◌≡◌, refl, sym, ap, ◌∙◌, inl, inr, true, false, ◌&&◌, List, [],
  ◌∷◌, ◌++◌, All, append_assoc, length, length-append, set, get_or, Bool-cases, leb→le, ltb, leb,
  arith, if◌then◌else◌,
}
use ceph_volsync_plugin.Cephfs.Split.{
  ChangedBlock, Out, append, piece_len, split_block, split_loop, needs_split, split_large_blocks,
  no_block,
}
use ceph_volsync_plugin.Cephfs.Split.Pieces.{Spans, pieces_of, pieces_of-Spans, split_block-out}

-- What the documentation says of one block.
abbrev pub expand : ℕ → ChangedBlock → List ChangedBlock
expand max_len b = if leb b.len max_len then b ∷ [] else pieces_of max_len b

get_or-middle :
    (xs ys : List ChangedBlock) (b d : ChangedBlock) → get_or (xs ++ b ∷ ys) (length xs) d ≡ b
get_or-middle [] ys b d = refl
get_or-middle (x ∷ xs) ys b d = get_or-middle xs ys b d

set-middle :
    (xs ys : List ChangedBlock) (b : ChangedBlock) → set (xs ++ b ∷ ys) (length xs) b ≡ xs ++ b ∷ ys
set-middle [] ys b = refl
set-middle (x ∷ xs) ys b = ap (◌∷◌ x) (set-middle xs ys b)

-- A block that fits is written where it was read.
append-array :
    (cap : ℕ) (s : Out) (b : ChangedBlock) (rest : List ChangedBlock)
    → s.array ≡ s.out ++ b ∷ rest
    → (append cap s b).array ≡ (append cap s b).out ++ rest
unfolding append
append-array cap s b rest e = elim (Bool-cases (s.shared && ltb (length s.out) cap)) [
  | inl f ↦ simp f (
      ap (λ z. set z (length s.out) b) e
      ∙ set-middle s.out rest b
      ∙ sym (append_assoc s.out (b ∷ []) rest))
  | inr f ↦ simp f (e ∙ sym (append_assoc s.out (b ∷ []) rest))
]

read_block :
    (s : Out) (b : ChangedBlock) (rest : List ChangedBlock)
    → s.array ≡ s.out ++ b ∷ rest
    → get_or s.array (length s.out) no_block ≡ b
read_block s b rest e =
    ap (λ z. get_or z (length s.out) no_block) e ∙ get_or-middle s.out rest b no_block

append-length :
    (cap : ℕ) (s : Out) (b : ChangedBlock) → length (append cap s b).out ≡ length s.out + 1
unfolding append
append-length cap s b = length-append s.out (b ∷ [])

append-out : (cap : ℕ) (s : Out) (b : ChangedBlock) → (append cap s b).out ≡ s.out ++ b ∷ []
unfolding append
append-out cap s b = refl

split_loop-small :
    (count i cap max_len : ℕ) (s : Out) (b : ChangedBlock)
    → get_or s.array i no_block ≡ b
    → leb b.len max_len ≡ true
    → split_loop (suc count) i cap max_len s ≡ split_loop count (i + 1) cap max_len (append cap s b)
unfolding split_loop
split_loop-small count i cap max_len s b r f = simp (r, f) refl

split_loop-out :
    (cap max_len i : ℕ) (smalls : List ChangedBlock) (last : ChangedBlock) (s : Out)
    → All (λ b. b.len ≤ max_len) smalls
    → length s.out ≡ i
    → s.array ≡ s.out ++ (smalls ++ last ∷ [])
    → (split_loop (length (smalls ++ last ∷ [])) i cap max_len s).out
      ≡ s.out ++ (smalls ++ expand max_len last)
unfolding split_loop
split_loop-out cap max_len i [] last s a n e =
    let r : get_or s.array i no_block ≡ last =
      ap (λ j. get_or s.array j no_block) (sym n) ∙ read_block s last [] e in
    elim (Bool-cases (leb last.len max_len)) [
      | inl f ↦ simp (r, f) (append-out cap s last)
      | inr f ↦ simp (r, f) (split_block-out last.len cap max_len last.offset last.len s)
    ]
split_loop-out cap max_len i (b ∷ smalls) last s a n e =
    let r : get_or s.array i no_block ≡ b =
      ap (λ j. get_or s.array j no_block) (sym n) ∙ read_block s b (smalls ++ last ∷ []) e in
    let f : leb b.len max_len ≡ true = ground (arith, a.0) in
    ap (λ o. o.out) (split_loop-small (length (smalls ++ last ∷ [])) i cap max_len s b r f)
    ∙ split_loop-out cap max_len (i + 1) smalls last (append cap s b) a.1
        (append-length cap s b ∙ ap (λ j. j + 1) n) (append-array cap s b (smalls ++ last ∷ []) e)
    ∙ ap (λ z. z ++ (smalls ++ expand max_len last)) (append-out cap s b)
    ∙ append_assoc s.out (b ∷ []) (smalls ++ expand max_len last)

small_list :
    (max_len : ℕ) (smalls : List ChangedBlock) (last : ChangedBlock)
    → needs_split max_len (smalls ++ last ∷ []) ≡ false
    → leb last.len max_len ≡ true
unfolding needs_split
small_list max_len [] last h = ground arith
small_list max_len (b ∷ smalls) last h = elim (Bool-cases (ltb max_len b.len)) [
  | inl e ↦ absurd (cc (simp e at h))
  | inr e ↦ small_list max_len smalls last (simp e at h)
]

-- If only the last block may exceed the limit, each block is replaced by what the documentation
-- says, whatever the capacity of the argument.
pub split_large_blocks_last :
    (cap max_len : ℕ) (smalls : List ChangedBlock) (last : ChangedBlock)
    → All (λ b. b.len ≤ max_len) smalls
    → split_large_blocks cap max_len (smalls ++ last ∷ []) ≡ smalls ++ expand max_len last
unfolding split_large_blocks
split_large_blocks_last cap max_len smalls last a =
    elim (Bool-cases (needs_split max_len (smalls ++ last ∷ []))) [
      | inl n ↦ simp n (
          split_loop-out cap max_len 0 smalls last
            (record { array = smalls ++ last ∷ []; out = []; shared = true }) a refl refl)
      | inr n ↦ simp (n, small_list max_len smalls last n) refl
    ]

-- Two pieces fill an array of two blocks, whatever stood at its end.
two_pieces :
    (fuel cap max_len off remaining : ℕ) (b c : ChangedBlock)
    → 1 < cap
    → 0 < max_len
    → max_len < remaining
    → let l = remaining - max_len in
      let p : ChangedBlock = record { offset = off; len = max_len } in
      let q : ChangedBlock = record { offset = off + max_len; len = piece_len max_len l } in
      split_block
        (suc (suc fuel))
        cap
        max_len
        off
        remaining
        (record { array = b ∷ c ∷ []; out = []; shared = true })
      ≡ split_block fuel cap max_len
          (off + max_len + piece_len max_len l)
          (l - piece_len max_len l)
          (record { array = p ∷ q ∷ []; out = p ∷ q ∷ []; shared = true })
unfolding split_block append
two_pieces fuel cap max_len off remaining b c h m lt = simp (first, some, more, room0, room1) refl
  where
    first : ltb max_len remaining ≡ true
    first = ground arith

    some : ltb 0 remaining ≡ true
    some = ground arith

    more : ltb 0 (remaining - max_len) ≡ true
    more = ground arith

    room0 : ltb 0 cap ≡ true
    room0 = ground arith

    room1 : ltb 1 cap ≡ true
    room1 = ground arith

first_block :
    (n cap max_len off : ℕ) (b c d : ChangedBlock)
    → 1 < cap
    → 0 < max_len
    → max_len < n
    → split_block n cap max_len off n (record { array = b ∷ c ∷ []; out = []; shared = true })
      ≡ split_block n cap max_len off n (record { array = b ∷ d ∷ []; out = []; shared = true })
first_block zero cap max_len off b c d h m lt = absurd (omega arith)
first_block (suc zero) cap max_len off b c d h m lt = absurd (omega arith)
first_block (suc (suc f)) cap max_len off b c d h m lt =
    two_pieces f cap max_len off (suc (suc f)) b c h m lt
    ∙ sym (two_pieces f cap max_len off (suc (suc f)) b d h m lt)

-- If the first of two blocks exceeds the limit, its pieces overwrite the second block before it is
-- read: the result is the same whatever the second block is.
pub split_large_blocks_loses :
    (cap max_len : ℕ) (b c d : ChangedBlock)
    → 1 < cap
    → 0 < max_len
    → max_len < b.len
    → split_large_blocks cap max_len (b ∷ c ∷ []) ≡ split_large_blocks cap max_len (b ∷ d ∷ [])
unfolding split_large_blocks needs_split split_loop
split_large_blocks_loses cap max_len b c d h m lt =
    simp (big, large) (ap rest (first_block b.len cap max_len b.offset b c d h m lt))
  where
    big : ltb max_len b.len ≡ true
    big = ground arith

    large : leb b.len max_len ≡ false
    large = ground arith

    rest : Out → List ChangedBlock
    rest s = (split_loop 1 1 cap max_len s).out

-- The synthetic block of a small file is cut into blocks that lie end to end over the file, none
-- empty and none above the limit.
pub split_large_blocks-Spans :
    (cap max_len : ℕ) (b : ChangedBlock)
    → 0 < max_len
    → 0 < b.len
    → Spans max_len b.offset (b.offset + b.len) (split_large_blocks cap max_len (b ∷ []))
split_large_blocks-Spans cap max_len b m h =
    rw (split_large_blocks_last cap max_len [] b tt) (elim (Bool-cases (leb b.len max_len)) [
      | inl e ↦ simp e (refl, h, leb→le b.len max_len e, refl)
      | inr e ↦ simp e (pieces_of-Spans max_len b m)
    ])

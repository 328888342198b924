-- ===== src/Cephfs/Split.antt =====
-- splitLargeBlocks of internal/worker/cephfs/block_iterator.go. Its result reuses the backing
-- array of its argument, so the array is part of the state of the loop. Offsets and lengths are
-- uint64 values whose sums stay below 2^64.
pub mod Pieces
pub mod Aliasing
use ceph_volsync_plugin.Base.{
  ℕ, zero, suc, ◌+◌, ◌-◌, Bool, true, false, ◌&&◌, List, [], ◌∷◌, ◌++◌, length, set, get_or, ltb,
  leb, if◌then◌else◌,
}

-- changedBlock.
pub record ChangedBlock : Type 0 where
  pub offset : ℕ
  pub len : ℕ

abbrev pub no_block : ChangedBlock
no_block = record { offset = 0; len = 0 }

-- The backing array that the range loop reads, the result, and whether the result is still a part
-- of that array.
pub record Out : Type 0 where
  pub array : List ChangedBlock
  pub out : List ChangedBlock
  pub shared : Bool

-- append: it writes into the array as long as its capacity lasts, and moves the result to a new
-- one after that.
pub append : ℕ → Out → ChangedBlock → Out
append cap s b =
    let fits = s.shared && ltb (length s.out) cap in
    record {
      array = if fits then set s.array (length s.out) b else s.array;
      out = s.out ++ b ∷ [];
      shared = fits;
    }

abbrev pub piece_len : ℕ → ℕ → ℕ
piece_len max_len remaining = if ltb max_len remaining then max_len else remaining

-- The loop over one block that is too large; its fuel is the length.
pub split_block : ℕ → ℕ → ℕ → ℕ → ℕ → Out → Out
unfolding append
split_block zero cap max_len off remaining s = s
split_block (suc fuel) cap max_len off remaining s =
    let l = piece_len max_len remaining in
    let rest =
      split_block fuel cap max_len (off + l) (remaining - l)
        (append cap s (record { offset = off; len = l })) in
    if ltb 0 remaining then rest else s

-- The range loop: `count` blocks are left, from index `i` on, each read when its turn comes.
pub split_loop : ℕ → ℕ → ℕ → ℕ → Out → Out
unfolding append split_block
split_loop zero i cap max_len s = s
split_loop (suc count) i cap max_len s =
    let b = get_or s.array i no_block in
    split_loop count (i + 1) cap max_len
      (if leb b.len max_len then append cap s b else split_block b.len cap max_len b.offset b.len s)

unfoldable pub needs_split : ℕ → List ChangedBlock → Bool
needs_split max_len [] = false
needs_split max_len (b ∷ bs) = if ltb max_len b.len then true else needs_split max_len bs

-- `cap` is the capacity of the argument.
unfoldable pub split_large_blocks : ℕ → ℕ → List ChangedBlock → List ChangedBlock
unfolding split_loop needs_split
split_large_blocks cap max_len blocks =
    if needs_split max_len blocks
    then (split_loop (length blocks) 0 cap max_len
        (record { array = blocks; out = []; shared = true })).out
    else blocks

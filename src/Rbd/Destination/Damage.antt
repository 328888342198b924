-- ===== src/Rbd/Destination/Damage.antt =====
-- What a write that fails leaves on the device.
use ceph_volsync_plugin.Base.{
  ℕ, zero, suc, ◌+◌, ◌-◌, ◌≤◌, ◌≡◌, refl, sym, ap, ◌∙◌, inl, inr, false, List, [], ◌∷◌, ◌++◌, take,
  err, ok_or_err, err-injective, length, Bool-cases, ltb, leb, arith, if◌then◌else◌,
}
use ceph_volsync_plugin.Pipeline.Send.{ChangedBlock}
use ceph_volsync_plugin.Rbd.Destination.{
  Device, Kernel, in_range, fill_zero, write_at, zero_buf_size, at_most, write_zeros, zero_range,
  write_block, write_blocks,
}
use ceph_volsync_plugin.Rbd.Destination.Writes.{apply, apply_all, write_block-apply}
use mathlib.Core.Path.{fun_ext}

-- `x` is not in the range.
abbrev pub Outside : ℕ → ℕ → ℕ → Type 0
Outside offset len x = in_range offset len x ≡ false

abbrev pub block_len : ChangedBlock → ℕ
block_len b = if b.is_zero then b.len else length b.bytes

fill_zero-Outside :
    (offset n len x : ℕ) (dev : Device)
    → n ≤ len
    → Outside offset len x
    → fill_zero offset n dev x ≡ dev x
unfolding fill_zero
fill_zero-Outside offset n len x dev le out = ground arith

write_at-Outside :
    (offset : ℕ) (bytes : List ℕ) (len x : ℕ) (dev : Device)
    → length bytes ≤ len
    → Outside offset len x
    → write_at offset bytes dev x ≡ dev x
unfolding write_at
write_at-Outside offset bytes len x dev le out = ground arith

length-take_le : (n : ℕ) (bytes : List ℕ) → length (take n bytes) ≤ length bytes
length-take_le zero bytes = omega arith
length-take_le (suc n) [] = omega arith
length-take_le (suc n) (b ∷ bytes) = omega (arith, length-take_le n bytes)

write_zeros-damage :
    (fuel : ℕ) (k : Kernel) (offset len : ℕ) (dev : Device) {d : Device} (x : ℕ)
    → write_zeros fuel k offset len dev ≡ err d
    → Outside offset len x
    → d x ≡ dev x
unfolding write_zeros
write_zeros-damage zero k offset len dev x h out = absurd (cc h)
write_zeros-damage (suc fuel) k offset len dev {d} x h out =
    let n = if leb zero_buf_size len then zero_buf_size else len in
    let m = at_most n (k.written offset n) in
    elim (Bool-cases (ltb 0 len)) [
      | inr e ↦ absurd (cc (simp e at h))
      | inl e ↦ elim (Bool-cases (k.write_ok offset n)) [
        | inl o ↦
            write_zeros-damage fuel k (offset + n) (len - n) (fill_zero offset n dev) x
              (simp (e, o) at h) (ground (arith, out))
            ∙ fill_zero-Outside offset n len x dev (ground arith) out
        | inr o ↦
            ap (λ f. f x) (sym (err-injective (fill_zero offset m dev) d (simp (e, o) at h)))
            ∙ fill_zero-Outside offset m len x dev (ground arith) out
      ]
    ]

-- A block whose write fails has changed nothing outside of its own range.
pub write_block-damage :
    (k : Kernel) (b : ChangedBlock) (dev : Device) {d : Device} (x : ℕ)
    → write_block k b dev ≡ err d
    → Outside b.offset (block_len b) x
    → d x ≡ dev x
unfolding write_block zero_range
write_block-damage k b dev {d} x h out = elim (Bool-cases b.is_zero) [
  | inl z ↦ elim (Bool-cases (k.zero_out b.offset b.len)) [
    | inl o ↦ absurd (cc (simp (z, o) at h))
    | inr o ↦
        let n = at_most b.len (k.zeroed b.offset b.len) in
        let out' : Outside b.offset b.len x = simp z at out in
        write_zeros-damage b.len k b.offset b.len (fill_zero b.offset n dev) x (simp (z, o) at h)
          out'
        ∙ fill_zero-Outside b.offset n b.len x dev (ground arith) out'
  ]
  | inr z ↦
      let n = length b.bytes in
      let part = take (k.written b.offset n) b.bytes in
      let out' : Outside b.offset n x = simp z at out in
      elim (Bool-cases (k.write_ok b.offset n)) [
        | inl o ↦ absurd (cc (simp (z, o) at h))
        | inr o ↦
            ap (λ f. f x) (sym (err-injective (write_at b.offset part dev) d (simp (z, o) at h)))
            ∙ write_at-Outside b.offset part n x dev (length-take_le (k.written b.offset n) b.bytes)
                out'
      ]
]

-- The blocks of a request that fails: the first of them have their effect, the next one fails, and
-- nothing outside of its range has changed since.
pub record Breaks (k : Kernel) (bs : List ChangedBlock) (dev d : Device) : Type 0 where
  pub before : List ChangedBlock
  pub block : ChangedBlock
  pub after : List ChangedBlock
  pub request_is : before ++ block ∷ after ≡ bs
  pub fails : write_block k block (apply_all before dev) ≡ err d
  pub outside : (x : ℕ) → Outside block.offset (block_len block) x → d x ≡ apply_all before dev x

pub write_blocks-Breaks :
    (k : Kernel) (bs : List ChangedBlock) (dev : Device) {d : Device}
    → write_blocks k bs dev ≡ err d
    → Breaks k bs dev d
unfolding write_blocks
write_blocks-Breaks k [] dev h = absurd (cc h)
write_blocks-Breaks k (b ∷ bs) dev {d} h = elim (ok_or_err (write_block k b dev)) [
  | inl (broken, e) ↦
      let same : broken ≡ d = err-injective broken d (rw (e, write_blocks) at h) in
      let fails : write_block k b dev ≡ err d = e ∙ ap err same in
      record {
        before = [];
        block = b;
        after = bs;
        request_is = refl;
        fails = fails;
        outside = λ x out. write_block-damage k b dev x fails out;
      }
  | inr (dev', e) ↦
      let first : dev' ≡ apply b dev = fun_ext (λ x. write_block-apply k b dev x e) in
      let rest =
        write_blocks-Breaks k bs (apply b dev) (rw (← first) (rw (e, write_blocks) at h)) in
      record {
        before = b ∷ rest.before;
        block = rest.block;
        after = rest.after;
        request_is = ap (◌∷◌ b) rest.request_is;
        fails = rest.fails;
        outside = rest.outside;
      }
]

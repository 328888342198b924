-- ===== src/Rbd/Destination/Writes.antt =====
-- What the writes of the destination do to the device, and what is acknowledged.
use ceph_volsync_plugin.Base.{
  ℕ, zero, suc, ◌+◌, ◌-◌, ◌≤◌, ◌<◌, ◌≡◌, refl, sym, ap, ◌∙◌, inl, inr, true, List, [], ◌∷◌, ◌++◌,
  ok, Result, ok_or_err, ok-injective, length, Bool-cases, ltb, leb, arith, if◌then◌else◌,
}
use mathlib.Core.Path.{fun_ext}
use ceph_volsync_plugin.Base.Arith.{lt_or_ge}
use ceph_volsync_plugin.Pipeline.Send.{ChangedBlock}
use ceph_volsync_plugin.Rbd.Destination.{
  Device, Kernel, fill_zero, write_at, zero_buf_size, at_most, write_zeros, zero_range, write_block,
  write_blocks, collect_request_ids,
}

fill_zero-join :
    (offset n len x : ℕ) (dev : Device)
    → n ≤ len
    → fill_zero (offset + n) (len - n) (fill_zero offset n dev) x ≡ fill_zero offset len dev x
unfolding fill_zero
fill_zero-join offset n len x dev h = ground arith

same_device :
    {dev d : Device} (x : ℕ) → ◌≡◌ {A = Result Device Device} (ok dev) (ok d) → d x ≡ dev x
same_device {dev} {d} x h = ap (λ f. f x) (sym (ok-injective dev d h))

fill_zero-empty : (offset len x : ℕ) (dev : Device) → len ≡ 0 → fill_zero offset len dev x ≡ dev x
unfolding fill_zero
fill_zero-empty offset len x dev h = ground arith

-- One round writes at least one byte and no more than is left.
abbrev round_size : ℕ → ℕ
round_size len = if leb zero_buf_size len then zero_buf_size else len

round_size_bounds : (len : ℕ) → 0 < len → (0 < round_size len) × (round_size len ≤ len)
round_size_bounds len h = ground arith

write_zeros-step :
    (fuel : ℕ) (k : Kernel) (offset len : ℕ) (dev : Device) {d : Device}
    → 0 < len
    → write_zeros (suc fuel) k offset len dev ≡ ok d
    → write_zeros fuel k
        (offset + round_size len)
        (len - round_size len)
        (fill_zero offset (round_size len) dev)
      ≡ ok d
unfolding write_zeros
write_zeros-step fuel k offset len dev pos h = ground arith

write_zeros-stop :
    (fuel : ℕ) (k : Kernel) (offset len : ℕ) (dev : Device) {d : Device}
    → len ≤ 0
    → write_zeros (suc fuel) k offset len dev ≡ ok d
    → ◌≡◌ {A = Result Device Device} (ok dev) (ok d)
unfolding write_zeros
write_zeros-stop fuel k offset len dev none_left h = ground arith

write_zeros-spent :
    (k : Kernel) (offset len : ℕ) (dev : Device) {d : Device}
    → write_zeros zero k offset len dev ≡ ok d
    → ◌≡◌ {A = Result Device Device} (ok dev) (ok d)
unfolding write_zeros
write_zeros-spent k offset len dev h = h

write_zeros-fills :
    (fuel : ℕ) (k : Kernel) (offset len : ℕ) (dev : Device) {d : Device} (x : ℕ)
    → len ≤ fuel
    → write_zeros fuel k offset len dev ≡ ok d
    → d x ≡ fill_zero offset len dev x
write_zeros-fills zero k offset len dev x le h =
    same_device x (write_zeros-spent k offset len dev h)
    ∙ sym (fill_zero-empty offset len x dev (omega arith))
write_zeros-fills (suc fuel) k offset len dev x le h = elim (lt_or_ge 0 len) [
  | inl pos ↦
      write_zeros-fills fuel k (offset + round_size len) (len - round_size len)
        (fill_zero offset (round_size len) dev) x (omega (arith, round_size_bounds len pos))
        (write_zeros-step fuel k offset len dev pos h)
      ∙ fill_zero-join offset (round_size len) len x dev (round_size_bounds len pos).1
  | inr none_left ↦
      same_device x (write_zeros-stop fuel k offset len dev none_left h)
      ∙ sym (fill_zero-empty offset len x dev (omega arith))
]

at_most-le : (len n : ℕ) → at_most len n ≤ len
at_most-le len n = ground arith

fill_zero-twice :
    (offset len n x : ℕ) (dev : Device)
    → n ≤ len
    → fill_zero offset len (fill_zero offset n dev) x ≡ fill_zero offset len dev x
unfolding fill_zero
fill_zero-twice offset len n x dev h = ground arith

-- What a block stands for on the device.
abbrev pub apply : ChangedBlock → Device → Device
apply b dev = if b.is_zero then fill_zero b.offset b.len dev else write_at b.offset b.bytes dev

-- A block that is written without an error has its effect, whether its zeros come from the ioctl
-- or from the loop of writes.
pub write_block-apply :
    (k : Kernel) (b : ChangedBlock) (dev : Device) {d : Device} (x : ℕ)
    → write_block k b dev ≡ ok d
    → d x ≡ apply b dev x
unfolding write_block zero_range
write_block-apply k b dev x h = elim (Bool-cases b.is_zero) [
  | inl z ↦ elim (Bool-cases (k.zero_out b.offset b.len)) [
    | inl o ↦ simp z (same_device x (simp (z, o) at h))
    | inr o ↦
        let n = at_most b.len (k.zeroed b.offset b.len) in
        simp z (
          write_zeros-fills b.len k b.offset b.len (fill_zero b.offset n dev) x (omega arith)
            (simp (z, o) at h)
          ∙ fill_zero-twice b.offset b.len n x dev (at_most-le b.len (k.zeroed b.offset b.len)))
  ]
  | inr data_block ↦ elim (Bool-cases (k.write_ok b.offset (length b.bytes))) [
    | inl o ↦ simp data_block (same_device x (simp (data_block, o) at h))
    | inr o ↦ absurd (cc (simp (data_block, o) at h))
  ]
]

abbrev pub apply_all : List ChangedBlock → Device → Device
apply_all [] dev = dev
apply_all (b ∷ bs) dev = apply_all bs (apply b dev)

pub apply_all-append :
    (bs cs : List ChangedBlock) (dev : Device)
    → apply_all (bs ++ cs) dev ≡ apply_all cs (apply_all bs dev)
apply_all-append [] cs dev = refl
apply_all-append (b ∷ bs) cs dev = apply_all-append bs cs (apply b dev)

-- A request that is written without an error has the effect of its blocks, in their order.
pub write_blocks-apply_all :
    (k : Kernel) (bs : List ChangedBlock) (dev : Device) {d : Device}
    → write_blocks k bs dev ≡ ok d
    → d ≡ apply_all bs dev
unfolding write_blocks
write_blocks-apply_all k [] dev {d} h = sym (ok-injective dev d h)
write_blocks-apply_all k (b ∷ bs) dev {d} h = elim (ok_or_err (write_block k b dev)) [
  | inl (_, e) ↦ absurd (cc (rw (e, write_blocks) at h))
  | inr (d', e) ↦
      let first : d' ≡ apply b dev = fun_ext (λ x. write_block-apply k b dev x e) in
      rw (← first) (write_blocks-apply_all k bs d' (rw (e, write_blocks) at h))
]

pub collect_request_ids-append :
    (bs cs : List ChangedBlock)
    → collect_request_ids (bs ++ cs) ≡ collect_request_ids bs ++ collect_request_ids cs
unfolding collect_request_ids
collect_request_ids-append [] cs = refl
collect_request_ids-append (b ∷ bs) cs = ap (◌∷◌ b.request_id) (collect_request_ids-append bs cs)

write_zeros-returns :
    (fuel : ℕ) (k : Kernel) (offset len : ℕ) (dev : Device)
    → ((o n : ℕ) → k.write_ok o n ≡ true)
    → (d : Device) × (write_zeros fuel k offset len dev ≡ ok d)
unfolding write_zeros
write_zeros-returns zero k offset len dev writes = (dev, refl)
write_zeros-returns (suc fuel) k offset len dev writes = elim (Bool-cases (ltb 0 len)) [
  | inr e ↦ (dev, simp e refl)
  | inl e ↦
      let (d, h) =
        write_zeros-returns fuel k (offset + round_size len) (len - round_size len)
          (fill_zero offset (round_size len) dev) writes in
      (d, simp (e, writes offset (round_size len)) h)
]

write_block-some :
    (k : Kernel) (b : ChangedBlock) (dev : Device)
    → ((o n : ℕ) → k.write_ok o n ≡ true)
    → (d : Device) × (write_block k b dev ≡ ok d)
unfolding write_block zero_range
write_block-some k b dev writes = elim (Bool-cases b.is_zero) [
  | inr e ↦ (write_at b.offset b.bytes dev, simp (e, writes b.offset (length b.bytes)) refl)
  | inl e ↦ elim (Bool-cases (k.zero_out b.offset b.len)) [
    | inl o ↦ (fill_zero b.offset b.len dev, simp (e, o) refl)
    | inr o ↦
        let n = at_most b.len (k.zeroed b.offset b.len) in
        let (d, h) = write_zeros-returns b.len k b.offset b.len (fill_zero b.offset n dev) writes in
        (d, simp (e, o) h)
  ]
]

-- If the device takes every write, a block is written whatever the ioctl answers, and the device
-- then has the effect of the block.
pub write_block_returns :
    (k : Kernel) (b : ChangedBlock) (dev : Device)
    → ((o n : ℕ) → k.write_ok o n ≡ true)
    → (d : Device) × (write_block k b dev ≡ ok d) × ((x : ℕ) → d x ≡ apply b dev x)
write_block_returns k b dev writes =
    let (d, h) = write_block-some k b dev writes in (d, h, λ x. write_block-apply k b dev x h)

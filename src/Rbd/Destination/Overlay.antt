-- ===== src/Rbd/Destination/Overlay.antt =====
-- Parts of a device, and what a block makes of them.
use ceph_volsync_plugin.Base.{
  ℕ, zero, suc, ◌+◌, ◌-◌, ◌≤◌, ◌<◌, ◌≡◌, refl, sym, ap, ◌∙◌, inl, inr, true, ◌&&◌, List, [], ◌∷◌,
  length, get_or, Bool-cases, ltb, leb, ◌==◌, arith, if◌then◌else◌,
}
use ceph_volsync_plugin.Base.Arith.{lt_or_ge}
use ceph_volsync_plugin.Pipeline.Read.{is_all_zero}
use ceph_volsync_plugin.Rbd.Adapter.Step.{ZeroIn}
use ceph_volsync_plugin.Rbd.Destination.{Device, fill_zero, write_at}

-- The `n` bytes of the device at `offset`.
abbrev pub slice : Device → ℕ → ℕ → List ℕ
slice src offset zero = []
slice src offset (suc n) = src offset ∷ slice src (offset + 1) n

pub length-slice : (src : Device) (offset n : ℕ) → length (slice src offset n) ≡ n
length-slice src offset zero = refl
length-slice src offset (suc n) = ap suc (length-slice src (offset + 1) n)

pub get_or-slice :
    (src : Device) (offset n i d : ℕ) → i < n → get_or (slice src offset n) i d ≡ src (offset + i)
get_or-slice src offset zero i d h = absurd (omega arith)
get_or-slice src offset (suc n) zero d h = ap src (omega arith)
get_or-slice src offset (suc n) (suc i) d h =
    get_or-slice src (offset + 1) n i d (omega arith) ∙ ap src (omega arith)

at_start : (src : Device) (x offset : ℕ) → x ≡ offset → src x ≡ src offset
at_start src x offset e = ap src e

is_zero-of : (v : ℕ) → (v == 0) ≡ true → v ≡ 0
is_zero-of v h = ground arith

pub all_zero-slice :
    (src : Device) (offset n x : ℕ)
    → is_all_zero (slice src offset n) ≡ true
    → offset ≤ x
    → x < offset + n
    → src x ≡ 0
unfolding is_all_zero
all_zero-slice src offset zero x z lo hi = absurd (omega arith)
all_zero-slice src offset (suc n) x z lo hi = elim (Bool-cases (src offset == 0)) [
  | inl e ↦ elim (lt_or_ge offset x) [
    | inl l ↦ all_zero-slice src (offset + 1) n x (simp e at z) (omega arith) (omega arith)
    | inr g ↦ at_start src x offset (omega arith) ∙ is_zero-of (src offset) e
  ]
  | inr e ↦ absurd (cc (simp e at z))
]

-- The device `dev` where [lo, hi) is that of `src`.
abbrev pub overlay : Device → ℕ → ℕ → Device → Device
overlay src lo hi dev x = if leb lo x && ltb x hi then src x else dev x

pub fill-overlay :
    (src dev : Device) (offset len x : ℕ)
    → ZeroIn src offset (offset + len)
    → fill_zero offset len dev x ≡ overlay src offset (offset + len) dev x
unfolding fill_zero
fill-overlay src dev offset len x z = elim (Bool-cases (leb offset x && ltb x (offset + len))) [
  | inl i ↦ simp i (sym (z x (ground arith) (ground arith)))
  | inr o ↦ simp o refl
]

pub write-overlay :
    (src dev : Device) (offset len x : ℕ)
    → write_at offset (slice src offset len) dev x ≡ overlay src offset (offset + len) dev x
unfolding write_at
write-overlay src dev offset len x =
    rw (length-slice src offset len) (elim (Bool-cases (leb offset x && ltb x (offset + len))) [
      | inl i ↦
          simp i (get_or-slice src offset len (x - offset) 0 (ground arith) ∙ ap src (ground arith))
      | inr o ↦ simp o refl
    ])

pub overlay-join :
    (src : Device) (lo mid hi x : ℕ) (dev d : Device)
    → lo ≤ mid
    → mid ≤ hi
    → d x ≡ overlay src lo mid dev x
    → overlay src mid hi d x ≡ overlay src lo hi dev x
overlay-join src lo mid hi x dev d a b h = ground arith

pub empty-overlay :
    (src dev : Device) (pos total x : ℕ) → pos ≡ total → dev x ≡ overlay src pos total dev x
empty-overlay src dev pos total x e = ground arith

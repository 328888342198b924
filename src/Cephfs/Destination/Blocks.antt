-- ===== src/Cephfs/Destination/Blocks.antt =====
-- What the blocks of one request leave in the files, where one of them may break.
use Prim.Native.String.{String}
use text.Mathlib.Text.{◌==◌}
use text.Mathlib.TextEquality.{eq_iff}
use mathlib.Core.Path.{fun_ext}
use ceph_volsync_plugin.Base.{
  ℕ, ◌≡◌, refl, sym, ap, ◌∙◌, inl, inr, Bool, true, false, List, [], ◌∷◌, ◌++◌, append_assoc,
  append-nil, Option, err, ok_or_err, ◌≤◌, length, Bool-cases, if◌then◌else◌, arith,
}
use ceph_volsync_plugin.Base.Int.{ℤ}
use ceph_volsync_plugin.Pipeline.Send.{ChangedBlock}
use ceph_volsync_plugin.Rbd.Destination.{Device, write_block, Recv, request}
use ceph_volsync_plugin.Rbd.Destination.Writes.{apply, apply_all, write_block-apply}
use ceph_volsync_plugin.Rbd.Destination.Damage.{Outside, block_len, write_block-damage}
use ceph_volsync_plugin.Cephfs.Destination.{
  Files, Stream, update, is_open, keep_file, look_up, write_opened, write_file_block,
  write_file_blocks,
}

-- The blocks of one file.
pub of_path : String → List ChangedBlock → List ChangedBlock
of_path p [] = []
of_path p (b ∷ bs) = let rest = of_path p bs in if p == b.file_path then b ∷ rest else rest

abbrev pub apply_files : List ChangedBlock → (String → Device) → String → Device
apply_files [] store = store
apply_files (b ∷ bs) store = apply_files bs (update b.file_path (apply b (store b.file_path)) store)

pub apply_files-append :
    (bs cs : List ChangedBlock) (store : String → Device)
    → apply_files (bs ++ cs) store ≡ apply_files cs (apply_files bs store)
apply_files-append [] cs store = refl
apply_files-append (b ∷ bs) cs store = apply_files-append bs cs _

pub apply_files-of_path :
    (bs : List ChangedBlock) (store : String → Device) (p : String)
    → apply_files bs store p ≡ apply_all (of_path p bs) (store p)
unfolding of_path
apply_files-of_path [] store p = refl
apply_files-of_path (b ∷ bs) store p =
    let rest = apply_files-of_path bs (update b.file_path (apply b (store b.file_path)) store) p in
    elim (Bool-cases (p == b.file_path)) [
      | inl e ↦
          rest
          ∙ simp e (
              ap (λ q. apply_all (of_path p bs) (apply b (store q)))
                (sym ((eq_iff p b.file_path).0 e)))
      | inr e ↦ rest ∙ simp e refl
    ]

-- The blocks of the requests that come before the stream ends.
unfoldable pub blocks_of : List Recv → List ChangedBlock
blocks_of [] = []
blocks_of (request bs ∷ rs) = bs ++ blocks_of rs
blocks_of (_ ∷ rs) = []

look_up-store : (fs : Files) (p : String) (s : Stream) → (look_up fs p s).0.store ≡ s.store
unfolding look_up
look_up-store fs p s = looked (is_open p s.files) _
  where
    kept : (r : Option ℤ × Bool) → (keep_file p r s).0.store ≡ s.store
    kept (entry, true) = refl
    kept (entry, false) = refl

    looked :
        (b : Bool) (r : Option ℤ × Bool)
        → (if b then (s, true) else keep_file p r s).0.store ≡ s.store
    looked true r = refl
    looked false r = kept r

-- Byte `x` of the file `p` is not in the range of a block that broke.
abbrev pub Spares : String → ℕ → List ChangedBlock → Type 0
Spares p x [] = Unit
Spares p x (b ∷ bs) = p ≡ b.file_path → Outside b.offset (block_len b) x

pub longer : (xs ys zs ws : List ChangedBlock) → xs ++ (ys ++ (zs ++ ws)) ≡ (xs ++ (ys ++ zs)) ++ ws
longer xs ys zs ws =
    ap (λ z. xs ++ z) (sym (append_assoc ys zs ws)) ∙ sym (append_assoc xs (ys ++ zs) ws)

-- A first part of the blocks is written, all of them if there is no error; then a block may have
-- broken, and the others are left.
pub record WritesPart (bs : List ChangedBlock) (store : String → Device) (r : Stream × Bool)
    : Type 0 where
  pub written : List ChangedBlock
  pub broken : List ChangedBlock
  pub left : List ChangedBlock
  pub in_order : written ++ (broken ++ left) ≡ bs
  pub same :
      (p : String) (x : ℕ) → Spares p x broken → r.0.store p x ≡ apply_files written store p x
  pub few : length broken ≤ 1
  pub all : r.1 ≡ true → (broken ≡ []) × (left ≡ [])

pub whole_part :
    {bs : List ChangedBlock} {store : String → Device} {r : Stream × Bool}
    → WritesPart bs store r
    → r.1 ≡ true
    → r.0.store ≡ apply_files bs store
whole_part {bs} {store} {r} w e =
    let (no_broken, no_left) = w.all e in
    let written_is : w.written ≡ bs =
      sym (append-nil w.written)
      ∙ ap (λ z. w.written ++ (z ++ [])) (sym no_broken)
      ∙ ap (λ z. w.written ++ (w.broken ++ z)) (sym no_left)
      ∙ w.in_order in
    fun_ext (λ p. fun_ext (λ x. w.same p x (spared p x w.broken no_broken)))
    ∙ ap (λ z. apply_files z store) written_is
  where
    spared : (p : String) (x : ℕ) (b : List ChangedBlock) → b ≡ [] → Spares p x b
    spared p x [] e = tt
    spared p x (b ∷ bs) e = absurd (cc e)

-- A block whose write fails, in its file.
broken_file :
    (fs : Files) (b : ChangedBlock) (store : String → Device) {dev : Device} (p : String) (x : ℕ)
    → write_block (fs.kernel b.file_path) b (store b.file_path) ≡ err dev
    → (p ≡ b.file_path → Outside b.offset (block_len b) x)
    → update b.file_path dev store p x ≡ store p x
broken_file fs b store p x e out = elim (Bool-cases (p == b.file_path)) [
  | inr n ↦ simp n refl
  | inl k ↦
      let here = (eq_iff p b.file_path).0 k in
      simp k (
        write_block-damage (fs.kernel b.file_path) b (store b.file_path) x e (out here)
        ∙ ap (λ q. store q x) (sym here))
]

write_opened-WritesPart :
    (fs : Files) (b : ChangedBlock) (r : Stream × Bool)
    → WritesPart (b ∷ []) r.0.store (write_opened fs b r)
write_opened-WritesPart fs b (s, false) = record {
  written = [];
  broken = [];
  left = b ∷ [];
  in_order = refl;
  same = λ p x k. refl;
  few = omega arith;
  all = λ e. cc;
}
write_opened-WritesPart fs b (s, true) =
    elim (ok_or_err (write_block (fs.kernel b.file_path) b (s.store b.file_path))) [
      | inl (dev, e) ↦ simp e (record {
        written = [];
        broken = b ∷ [];
        left = [];
        in_order = refl;
        same = λ p x k. broken_file fs b s.store p x e k;
        few = omega arith;
        all = λ e. cc;
      })
      | inr (dev, e) ↦ simp e (record {
        written = b ∷ [];
        broken = [];
        left = [];
        in_order = refl;
        same = λ p x k.
            ap (λ d. update b.file_path d s.store p x)
              (fun_ext
                (λ y. write_block-apply (fs.kernel b.file_path) b (s.store b.file_path) y e));
        few = omega arith;
        all = λ e. (refl, refl);
      })
    ]

WritesPart-store :
    {bs : List ChangedBlock} {store other : String → Device} {r : Stream × Bool}
    → store ≡ other
    → WritesPart bs store r
    → WritesPart bs other r
WritesPart-store e w = record {
  written = w.written;
  broken = w.broken;
  left = w.left;
  in_order = w.in_order;
  same = λ p x k. w.same p x k ∙ ap (λ st. apply_files w.written st p x) e;
  few = w.few;
  all = w.all;
}

pub write_file_blocks-WritesPart :
    (fs : Files) (bs : List ChangedBlock) (s : Stream)
    → WritesPart bs s.store (write_file_blocks fs bs s)
unfolding write_file_blocks
write_file_blocks-WritesPart fs [] s = record {
  written = [];
  broken = [];
  left = [];
  in_order = refl;
  same = λ p x k. refl;
  few = omega arith;
  all = λ e. (refl, refl);
}
write_file_blocks-WritesPart fs (b ∷ bs) s =
    let r = write_file_block fs b s in
    let one : WritesPart (b ∷ []) s.store r =
      unfold write_file_block in
      WritesPart-store (look_up-store fs b.file_path s)
        (write_opened-WritesPart fs b (look_up fs b.file_path s)) in
    let more = write_file_blocks-WritesPart fs bs r.0 in
    elim (Bool-cases r.1) [
      | inl e ↦ simp e (record {
        written = b ∷ more.written;
        broken = more.broken;
        left = more.left;
        in_order = ap (◌∷◌ b) more.in_order;
        same = λ p x k.
            more.same p x k ∙ ap (λ st. apply_files more.written st p x) (whole_part one e);
        few = more.few;
        all = more.all;
      })
      | inr e ↦ simp e (record {
        written = one.written;
        broken = one.broken;
        left = one.left ++ bs;
        in_order = longer one.written one.broken one.left bs ∙ ap (λ z. z ++ bs) one.in_order;
        same = one.same;
        few = one.few;
        all = λ k. cc;
      })
    ]

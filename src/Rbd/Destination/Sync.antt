-- ===== src/Rbd/Destination/Sync.antt =====
-- A whole volume, from the source's iterator through the read workers to the writes of the
-- destination.
use ceph_volsync_plugin.Base.{
  ℕ, suc, ◌+◌, ◌≤◌, ◌<◌, ◌≡◌, refl, sym, ap, ◌∙◌, inl, inr, Bool, true, false, List, [], concat,
  ◌∷◌, ◌++◌, map, some, ok, length, Bool-cases, ok_or_err, leb, arith,
}
use mathlib.Core.Option.{some-injective}
use ceph_volsync_plugin.Pipeline.Config.{Config}
use ceph_volsync_plugin.Pipeline.Types.{Chunk, ReadChunk, ChangeBlock, Stats, to_chunk}
use ceph_volsync_plugin.Pipeline.Read.{Turn, is_all_zero, acquire_size, read_turn}
use ceph_volsync_plugin.Pipeline.Read.Content.{SameBlock, CarriesBytes, read_turn_content}
use ceph_volsync_plugin.Pipeline.Send.{ChangedBlock, to_block}
use ceph_volsync_plugin.Rbd.Adapter.{DiffBlock, new_adapter, drain}
use ceph_volsync_plugin.Pipeline.Window.{u64}
use ceph_volsync_plugin.Rbd.Adapter.Step.{ZeroIn, ZeroOutside, Ascending}
use ceph_volsync_plugin.Rbd.Adapter.Tiling.{Tiles, full_diff-Tiles}
use ceph_volsync_plugin.Rbd.Destination.{
  Device, Kernel, write_blocks, collect_request_ids, request, eof, WriteEnd, finished, open_error,
  write_error, send_error, sync_error, close_error, recv_error, waiting, opened, close_end,
  write_loop, write,
}
use ceph_volsync_plugin.Rbd.Destination.Writes.{
  apply, apply_all, apply_all-append, write_blocks-apply_all,
}
use ceph_volsync_plugin.Rbd.Destination.Overlay.{
  slice, overlay, all_zero-slice, fill-overlay, write-overlay, overlay-join, empty-overlay,
}

-- The read workers got every block of the iterator through, reading from the device.
pub data ReadAll (cfg : Config) (src : Device) : List ChangeBlock → List ReadChunk → Type 0 where
  nothing : ReadAll cfg src [] []
  reads :
      {b : ChangeBlock} {bs : List ChangeBlock} {r : ReadChunk} {rs : List ReadChunk} (t : Turn)
      (s : Stats)
      → ((offset n : ℕ) → t.read_at offset n ≡ some (slice src offset n))
      → (read_turn cfg t s (to_chunk b)).result ≡ ok r
      → ReadAll cfg src bs rs
      → ReadAll cfg src (b ∷ bs) (r ∷ rs)

-- What a chunk does to the device, by what it carries.
carried_zero :
    (src dev : Device) (r : ReadChunk) (offset len x : ℕ)
    → r.is_zero ≡ true
    → r.offset ≡ offset
    → r.len ≡ len
    → ZeroIn src offset (offset + len)
    → apply (to_block r) dev x ≡ overlay src offset (offset + len) dev x
unfolding to_block
carried_zero src dev r offset len x z o l zeros =
    simp (z, o, l) (fill-overlay src dev offset len x zeros)

carried_bytes :
    (src dev : Device) (r : ReadChunk) (offset len x : ℕ)
    → r.is_zero ≡ false
    → r.offset ≡ offset
    → r.bytes ≡ slice src offset len
    → apply (to_block r) dev x ≡ overlay src offset (offset + len) dev x
unfolding to_block
carried_bytes src dev r offset len x z o b = simp (z, o, b) (write-overlay src dev offset len x)

carried :
    (src dev : Device) (c : Chunk) (r : ReadChunk) (x : ℕ)
    → SameBlock c r
    → CarriesBytes c (slice src c.offset c.len) r
    → apply (to_block r) dev x ≡ overlay src c.offset (c.offset + c.len) dev x
carried src dev c r x same carries = elim (Bool-cases (is_all_zero (slice src c.offset c.len))) [
  | inl z ↦
      carried_zero src dev r c.offset c.len x (carries.is_zero ∙ z) same.offset
        (carries.len ∙ simp z refl) (λ y lo hi. all_zero-slice src c.offset c.len y z lo hi)
  | inr z ↦
      carried_bytes src dev r c.offset c.len x (carries.is_zero ∙ z) same.offset
        (carries.bytes ∙ simp z refl)
]

whole_block : (cfg : Config) (c : Chunk) → c.len ≤ cfg.chunk_size → acquire_size cfg c ≡ c.len
unfolding acquire_size
whole_block cfg c h = ground arith

turn-overlay :
    (cfg : Config) (src dev : Device) (t : Turn) (s : Stats) (c : Chunk) (r : ReadChunk) (x : ℕ)
    → ((offset n : ℕ) → t.read_at offset n ≡ some (slice src offset n))
    → (read_turn cfg t s c).result ≡ ok r
    → c.len ≤ cfg.chunk_size
    → (c.is_zero ≡ true → ZeroIn src c.offset (c.offset + c.len))
    → apply (to_block r) dev x ≡ overlay src c.offset (c.offset + c.len) dev x
turn-overlay cfg src dev t s c r x from_src h small zeros =
    elim (read_turn_content cfg t s c r h).1 [
      | inl z ↦ carried_zero src dev r c.offset c.len x z.is_zero same.offset z.len (zeros z.known)
      | inr (b, _, e, carries) ↦
          let got : slice src c.offset c.len ≡ b =
            some-injective _ _
              (sym (from_src c.offset c.len) ∙ rw (whole_block cfg c small) at e) in
          carried src dev c r x same (rw (sym got) at carries)
    ]
  where
    same : SameBlock c r
    same = (read_turn_content cfg t s c r h).0

Tiles-le :
    (src : Device) (chunk total pos id : ℕ) (bs : List ChangeBlock)
    → Tiles src chunk total pos id bs
    → pos ≤ total
Tiles-le src chunk total pos id [] e = omega arith
Tiles-le src chunk total pos id (b ∷ bs) (o, _, _, _, _, rest) =
    omega (arith, Tiles-le src chunk total (b.offset + b.len) (id + 1) bs rest)

Tiles-overlay :
    (cfg : Config) (src : Device) (total pos id : ℕ) {bs : List ChangeBlock} {rs : List ReadChunk}
    (dev : Device) (x : ℕ)
    → ReadAll cfg src bs rs
    → Tiles src cfg.chunk_size total pos id bs
    → apply_all (map to_block rs) dev x ≡ overlay src pos total dev x
unfolding to_chunk
Tiles-overlay cfg src total pos id dev x nothing e = empty-overlay src dev pos total x e
Tiles-overlay cfg src total pos id dev x (reads {b} {bs} {r} t s from_src h more)
      (o, _, _, small, zeros, rest) =
    Tiles-overlay cfg src total (b.offset + b.len) (id + 1) (apply (to_block r) dev) x more rest
    ∙ overlay-join src b.offset (b.offset + b.len) total x dev (apply (to_block r) dev)
        (omega arith) (Tiles-le src cfg.chunk_size total (b.offset + b.len) (id + 1) bs rest)
        (turn-overlay cfg src dev t s (to_chunk b) r x from_src h small zeros)
    ∙ ap (λ p. overlay src p total dev x) o

write_loop-finished :
    (k : Kernel) (send_ok : List ℕ → Bool) (qs : List (List ChangedBlock)) (dev : Device)
    → (write_loop k send_ok (map request qs ++ eof ∷ []) dev).end ≡ finished
    → (write_loop k send_ok (map request qs ++ eof ∷ []) dev).device ≡ apply_all (concat qs) dev
unfolding write_loop
write_loop-finished k send_ok [] dev h = refl
write_loop-finished k send_ok (bs ∷ qs) dev h = elim (Bool-cases k.open_ok) [
  | inr o ↦ absurd (cc (simp o at h))
  | inl o ↦ elim (ok_or_err (write_blocks k bs dev)) [
    | inl (broken, e) ↦ absurd (cc (simp (o, e) at h))
    | inr (dev', e) ↦
        let joined : apply_all (concat qs) dev' ≡ apply_all (bs ++ concat qs) dev =
          ap (apply_all (concat qs)) (write_blocks-apply_all k bs dev e)
          ∙ sym (apply_all-append bs (concat qs) dev) in
        elim (Bool-cases (leb (length bs) 0)) [
          | inl z ↦
              simp (o, e, z) (write_loop-finished k send_ok qs dev' (simp (o, e, z) at h) ∙ joined)
          | inr n ↦ elim (Bool-cases (send_ok (collect_request_ids bs))) [
            | inl s ↦
                simp (o, e, n, s)
                  (write_loop-finished k send_ok qs dev' (simp (o, e, n, s) at h) ∙ joined)
            | inr s ↦ absurd (cc (simp (o, e, n, s) at h))
          ]
        ]
  ]
]

close_end-finished :
    (k : Kernel) (o : Bool) (e : WriteEnd) → close_end k o e ≡ finished → e ≡ finished
close_end-finished k true finished h = refl
close_end-finished k true recv_error h = h
close_end-finished k true open_error h = h
close_end-finished k true write_error h = h
close_end-finished k true send_error h = h
close_end-finished k true sync_error h = h
close_end-finished k true close_error h = h
close_end-finished k true waiting h = h
close_end-finished k false e h = h

write-finished :
    (k : Kernel) (send_ok : List ℕ → Bool) (qs : List (List ChangedBlock)) (dev : Device)
    → (write k send_ok (map request qs ++ eof ∷ []) dev).end ≡ finished
    → (write k send_ok (map request qs ++ eof ∷ []) dev).device ≡ apply_all (concat qs) dev
unfolding write
write-finished k send_ok qs dev h = write_loop-finished k send_ok qs dev (
    close_end-finished k (opened (map request qs ++ eof ∷ []))
      (write_loop k send_ok (map request qs ++ eof ∷ []) dev).end h)

-- A full diff of a device `src` of `total` bytes with ascending extents, outside of which it is
-- zero: if the workers read every block of the iterator from `src`, the chunks are sent in any
-- division into requests, and the write stream finishes, then the destination device holds the
-- bytes of `src` up to `total` and what it held before beyond.
pub full_diff_copies :
    (cfg : Config) (src dest : Device) (extents : List DiffBlock) (total : ℕ) (rs : List ReadChunk)
    (qs : List (List ChangedBlock)) (k : Kernel) (send_ok : List ℕ → Bool)
    → 0 < cfg.chunk_size
    → total < u64
    → Ascending 0 total extents
    → ZeroOutside src 0 total extents
    → {bs : List ChangeBlock}
    → drain (suc total) (new_adapter extents total cfg.chunk_size true) ≡ some bs
    → ReadAll cfg src bs rs
    → concat qs ≡ map to_block rs
    → (write k send_ok (map request qs ++ eof ∷ []) dest).end ≡ finished
    → (x : ℕ)
    → (write k send_ok (map request qs ++ eof ∷ []) dest).device x ≡ overlay src 0 total dest x
full_diff_copies cfg src dest extents total rs qs k send_ok pos small ascending gaps {bs} drained
      all_read parts done x =
    let (cs, drained', tiles) =
      full_diff-Tiles src extents total cfg.chunk_size pos small ascending gaps in
    let same : cs ≡ bs = some-injective _ _ (sym drained' ∙ drained) in
    ap (λ d. d x) (write-finished k send_ok qs dest done)
    ∙ ap (λ ws. apply_all ws dest x) parts
    ∙ Tiles-overlay cfg src total 0 0 dest x all_read (rw same at tiles)

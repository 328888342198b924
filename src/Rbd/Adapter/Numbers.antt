-- ===== src/Rbd/Adapter/Numbers.antt =====
-- The request numbers of the adapter.
use ceph_volsync_plugin.Base.{
  ℕ, ◌+◌, ◌%◌, ◌≡◌, refl, Bool, true, false, List, [], ◌∷◌, Option, none, some, arith,
}
use ceph_volsync_plugin.Pipeline.Window.{u64}
use ceph_volsync_plugin.Pipeline.Types.{ChangeBlock}
use ceph_volsync_plugin.Rbd.Adapter.{
  DiffBlock, Adapter, new_adapter, end_of_diff, gap_before, load_loop, take_pending, load_next,
  emit_from_remainder, emit, after_load, choose, next,
}

load_loop-req_id : (es : List DiffBlock) (a : Adapter) → (load_loop es a).0.req_id ≡ a.req_id
unfolding load_loop end_of_diff gap_before
load_loop-req_id [] a = ground arith
load_loop-req_id (cb ∷ rest) a = ground (arith, load_loop-req_id rest a)

load_next-req_id : (a : Adapter) → (load_next a).0.req_id ≡ a.req_id
unfolding load_next take_pending
load_next-req_id a = ground (arith, load_loop-req_id a.extents a)

-- A block has the number of the adapter, which then goes on to the next; without one it stays.
abbrev pub Numbered : ℕ → Adapter × Option ChangeBlock → Type 0
Numbered id (a, none) = a.req_id ≡ id
Numbered id (a, some b) = (b.req_id ≡ id) × (a.req_id ≡ (id + 1) % u64)

emit-Numbered : (a : Adapter) (id : ℕ) → a.req_id ≡ id → Numbered id (emit a)
unfolding emit_from_remainder
emit-Numbered a id e = (e, rw e refl)

after_load-Numbered : (l : Adapter × Bool) (id : ℕ) → l.0.req_id ≡ id → Numbered id (after_load l)
after_load-Numbered (b, true) id e = emit-Numbered b id e
after_load-Numbered (b, false) id e = e

choose-Numbered : (h : Bool) (a : Adapter) → Numbered a.req_id (choose h a)
choose-Numbered true a = emit-Numbered a a.req_id refl
choose-Numbered false a = after_load-Numbered (load_next a) a.req_id (load_next-req_id a)

pub next-Numbered : (a : Adapter) → Numbered a.req_id (next a)
unfolding next
next-Numbered a = choose-Numbered a.has_rem a

pub new_adapter-req_id :
    (extents : List DiffBlock) (total chunk : ℕ) (full : Bool)
    → (new_adapter extents total chunk full).req_id ≡ 0
unfolding new_adapter
new_adapter-req_id extents total chunk full = refl

-- ===== src/Rbd/Source/Sync/Blocks.antt =====
-- The blocks that the feeder takes from the adapter.
use ceph_volsync_plugin.Base.{
  ℕ, zero, suc, ◌+◌, ◌≤◌, ◌<◌, ◌≡◌, refl, sym, ◌∙◌, true, List, [], ◌∷◌, All, Option, none, some,
  length, arith,
}
use mathlib.Core.Option
use native.Mathlib.Nat.{mod-eq_of_lt}
use ceph_volsync_plugin.Pipeline.Window.{u64}
use ceph_volsync_plugin.Pipeline.Types.{ChangeBlock}
use ceph_volsync_plugin.Rbd.Adapter.{Adapter, drain}
use ceph_volsync_plugin.Rbd.Adapter
use ceph_volsync_plugin.Rbd.Adapter.Numbers.{Numbered, next-Numbered}
use ceph_volsync_plugin.Rbd.Source.Sync.{Fed, taken_by, feed_adapter}

-- The numbers go up from `id` to the number that the adapter has afterwards.
pub record Counts (id : ℕ) (f : Fed) : Type 0 where
  pub reached : f.adapter.req_id ≡ id + length f.given
  pub below : All (λ b. b.req_id < f.adapter.req_id) f.given

taken_by-Counts :
    (id : ℕ) (n : Adapter × Option ChangeBlock) (more : Adapter → Fed)
    → id + length (taken_by n more).given + 1 < u64
    → Numbered id n
    → ((a : Adapter)
        → a.req_id ≡ id + 1
        → id + 1 + length (more a).given + 1 < u64
        → Counts (id + 1) (more a))
    → Counts id (taken_by n more)
taken_by-Counts id (a, none) more small e later = record { reached = omega (arith, e); below = tt }
taken_by-Counts id (a, some b) more small e later =
    let up : a.req_id ≡ id + 1 = e.1 ∙ mod-eq_of_lt {n = id + 1} {m = u64} (omega arith) in
    let c = later a up (omega arith) in
    record { reached = omega (arith, c.reached); below = (omega (arith, c.reached, e.0), c.below) }

pub feed_adapter-Counts :
    (calls : ℕ) (a : Adapter) (id : ℕ)
    → a.req_id ≡ id
    → id + length (feed_adapter calls a).given + 1 < u64
    → Counts id (feed_adapter calls a)
unfolding feed_adapter
feed_adapter-Counts zero a id e small = record { reached = omega (arith, e); below = tt }
feed_adapter-Counts (suc calls) a id e small =
    taken_by-Counts id (Adapter.next a) (feed_adapter calls) small (numbered id e)
      (λ b up s. feed_adapter-Counts calls b (id + 1) up s)
  where
    numbered : (n : ℕ) → a.req_id ≡ n → Numbered n (Adapter.next a)
    numbered n q = rw (sym q) (next-Numbered a)

-- A feeder that has come to the end has taken all blocks of the adapter.
drained_by :
    (calls : ℕ) (n : Adapter × Option ChangeBlock)
    → (taken_by n (feed_adapter calls)).ended ≡ true
    → ((feed_adapter calls n.0).ended ≡ true
        → drain calls n.0 ≡ some (feed_adapter calls n.0).given)
    → (elim n.1 as (λ _. Option (List ChangeBlock)) [
      | none ↦ some []
      | some block ↦ Option.map (◌∷◌ block) (drain calls n.0)
    ])
      ≡ some (taken_by n (feed_adapter calls)).given
drained_by calls (a, none) e later = refl
drained_by calls (a, some b) e later = rw (later e) refl

pub feed_adapter-drain :
    (calls : ℕ) (a : Adapter)
    → (feed_adapter calls a).ended ≡ true
    → drain calls a ≡ some (feed_adapter calls a).given
unfolding feed_adapter drain
feed_adapter-drain zero a e = absurd (cc e)
feed_adapter-drain (suc calls) a e =
    drained_by calls (Adapter.next a) e (feed_adapter-drain calls (Adapter.next a).0)

taken_by-le :
    (calls : ℕ) (n : Adapter × Option ChangeBlock) (more : Adapter → Fed)
    → ((a : Adapter) → length (more a).given ≤ calls)
    → length (taken_by n more).given ≤ suc calls
taken_by-le calls (a, none) more h = omega arith
taken_by-le calls (a, some b) more h = omega (arith, h a)

pub feed_adapter-le : (calls : ℕ) (a : Adapter) → length (feed_adapter calls a).given ≤ calls
unfolding feed_adapter
feed_adapter-le zero a = omega arith
feed_adapter-le (suc calls) a =
    taken_by-le calls (Adapter.next a) (feed_adapter calls) (feed_adapter-le calls)

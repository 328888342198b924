-- ===== src/Cephfs/Source/BlockPipeline/Feeding.antt =====
-- The blocks of the feeder and the boundaries that Close leaves.
use ceph_volsync_plugin.Base.{
  ℕ, zero, suc, ◌+◌, ◌<◌, ◌≡◌, ap, Bool, true, List, [], ◌∷◌, ◌++◌, append-nil, append_assoc,
  Option, none, some, length, length-append, arith,
}
use ceph_volsync_plugin.Pipeline.Window.{u64}
use ceph_volsync_plugin.Cephfs.Iterator.{FileBlock, Options, BlockIterator, next}
use ceph_volsync_plugin.Cephfs.Iterator.Rounds.{rounds_left}
use ceph_volsync_plugin.Cephfs.Iterator.Failing.{NextFailed, next-failed}
use ceph_volsync_plugin.Cephfs.Iterator.Complete.{Keeps, KeepsNext, next-Keeps}
use ceph_volsync_plugin.Cephfs.Source.BlockPipeline.{Fed, stopped, fed_by, feed}

abbrev pub KeepsFed : List FileBlock → Fed → Type 0
KeepsFed h f = Keeps (h ++ f.given) f.iterator

history_along : {h h' : List FileBlock} (it : BlockIterator) → h ≡ h' → Keeps h it → Keeps h' it
history_along {h} {h'} it e k = rw e at k

stopped-Keeps : (h : List FileBlock) (it : BlockIterator) → Keeps h it → KeepsFed h (stopped it)
stopped-Keeps h it k = rw (append-nil h) k

fed_by-Keeps :
    (h : List FileBlock) (it : BlockIterator) (r : Option (BlockIterator × Option FileBlock))
    (more : BlockIterator → Fed)
    → length (h ++ (fed_by it r more).given) + 1 < u64
    → Keeps h it
    → (length h + 1 < u64 → KeepsNext h r)
    → ((b : FileBlock) (it' : BlockIterator)
        → length ((h ++ b ∷ []) ++ (more it').given) + 1 < u64
        → Keeps (h ++ b ∷ []) it'
        → KeepsFed (h ++ b ∷ []) (more it'))
    → KeepsFed h (fed_by it r more)
fed_by-Keeps h it none more small k next later = stopped-Keeps h it k
fed_by-Keeps h it (some (it', none)) more small k next later =
    rw (append-nil h) (next (omega (arith, length-append h [])))
fed_by-Keeps h it (some (it', some b)) more small k next later =
    let e = append_assoc h (b ∷ []) (more it').given in
    history_along (more it').iterator e (
      later b it' (omega (arith, ap length e))
        (next (omega (arith, length-append h (b ∷ (more it').given)))))

pub feed-Keeps :
    (calls : ℕ) (o : Options) (it : BlockIterator) (h : List FileBlock)
    → o.has_boundary_ch ≡ true
    → length (h ++ (feed calls o it).given) + 1 < u64
    → Keeps h it
    → KeepsFed h (feed calls o it)
unfolding feed
feed-Keeps zero o it h c small k = stopped-Keeps h it k
feed-Keeps (suc calls) o it h c small k =
    fed_by-Keeps h it (next (suc (rounds_left it)) o it) (feed calls o) small k
      (λ s. next-Keeps (suc (rounds_left it)) h o it s c k)
      (λ b it'. feed-Keeps calls o it' (h ++ b ∷ []) c)

fed_by-failed :
    (it : BlockIterator) (r : Option (BlockIterator × Option FileBlock))
    (more : BlockIterator → Fed) (f : Bool)
    → it.failed ≡ f
    → NextFailed f r
    → ((it' : BlockIterator) → it'.failed ≡ f → (more it').iterator.failed ≡ f)
    → (fed_by it r more).iterator.failed ≡ f
fed_by-failed it none more f h n later = h
fed_by-failed it (some (it', none)) more f h n later = n
fed_by-failed it (some (it', some b)) more f h n later = later it' n

pub feed-failed :
    (calls : ℕ) (o : Options) (it : BlockIterator) (f : Bool)
    → it.failed ≡ f
    → (feed calls o it).iterator.failed ≡ f
unfolding feed
feed-failed zero o it f h = h
feed-failed (suc calls) o it f h =
    fed_by-failed it (next (suc (rounds_left it)) o it) (feed calls o) f h
      (next-failed (suc (rounds_left it)) o it f h) (λ it'. feed-failed calls o it' f)

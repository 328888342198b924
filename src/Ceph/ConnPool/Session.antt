-- ===== src/Ceph/ConnPool/Session.antt =====
-- Interleavings of the methods of one pool, and what holds after any of them.
use Prim.Native.String.{String}
use ceph_volsync_plugin.Base.{ℕ, ◌<◌, ◌≡◌, refl, ap, ◌∙◌, false, List, [], ◌∷◌, ◌++◌, All, arith}
use ceph_volsync_plugin.Base.Int.{pos}
use ceph_volsync_plugin.Ceph.ConnPool.{
  ConnEntry, ConnPool, new_conn_pool, get_shared, get_new, copy_conn, put_conn, no_users, collect,
  gc, destroy,
}
use ceph_volsync_plugin.Ceph.ConnPool.Users.{Absent, Counted, more, less, Counts}
use ceph_volsync_plugin.Ceph.ConnPool.Methods.{
  with_found, put-Counts, get-Counts, get_shared-Counts, get_new-Counts, collect-Counts,
}

-- In a pool that counts the references held, gc shuts down only connections to which nobody holds
-- one, and the pool still counts them.
pub gc_spares_users :
    (refs : ℕ → ℕ) (now expiry : ℕ) (p : ConnPool)
    → Counts refs p
    → Counts refs (gc now expiry p)
      × ((dropped : List ℕ) × ((gc now expiry p).shut_down ≡ dropped ++ p.shut_down)
          × All (λ c. refs c ≡ 0) dropped)
unfolding gc
gc_spares_users refs now expiry p k =
    let (counted, distinct, present, none_used) =
      collect-Counts refs now expiry p.conns k.counted k.distinct in
    (
      record {
        counted = counted;
        distinct = distinct;
        present = λ c l. present c l (k.present c l);
      },
      ((collect now expiry p.conns).1, refl, none_used),
    )

destroy_all :
    (refs : ℕ → ℕ) (es : List ConnEntry) (down : List ℕ)
    → ((c : ℕ) → refs c ≡ 0)
    → Counted refs es
    → ((destroy es down).1 ≡ false) × ((destroy es down).0.conns ≡ [])
unfolding destroy
destroy_all refs [] down z k = (refl, refl)
destroy_all refs (e ∷ es) down z k =
    let none_left : e.users ≡ pos 0 = k.0 ∙ ap pos (z e.conn) in
    rw (ap no_users none_left) (destroy_all refs es (e.conn ∷ down) z k.1)

-- Destroy of a pool that counts the references held does not panic and empties the pool once every
-- reference has been put back.
pub destroy_unused :
    (refs : ℕ → ℕ) (p : ConnPool)
    → ((c : ℕ) → refs c ≡ 0)
    → Counts refs p
    → ((destroy p.conns p.shut_down).1 ≡ false) × ((destroy p.conns p.shut_down).0.conns ≡ [])
destroy_unused refs p z k = destroy_all refs p.conns p.shut_down z k.counted

-- A pool with the references that its clients hold.
pub record Session : Type 0 where
  pub refs : ℕ → ℕ
  pub pool : ConnPool

-- What clients and the timer do, in any order. A new connection is one that nobody has seen; a
-- reference is copied or put back only by a client that holds it.
pub data Step : Session → Session → Type 0 where
  shares :
      (s : Session) (unique : String) (now : ℕ)
      → Step s (record {
        refs = with_found (get_shared unique now s.pool).1 s.refs;
        pool = (get_shared unique now s.pool).0;
      })
  connects :
      (s : Session) (unique : String) (now conn : ℕ)
      → Absent conn s.pool.conns
      → s.refs conn ≡ 0
      → Step s (record {
        refs = more (get_new unique now conn s.pool).1 s.refs;
        pool = (get_new unique now conn s.pool).0;
      })
  copies :
      (s : Session) (now conn : ℕ)
      → 0 < s.refs conn
      → Step s (record { refs = more conn s.refs; pool = copy_conn now conn s.pool })
  puts :
      (s : Session) (conn : ℕ)
      → 0 < s.refs conn
      → Step s (record { refs = less conn s.refs; pool = put_conn conn s.pool })
  collects : (s : Session) (now expiry : ℕ) → Step s (record s { pool = gc now expiry s.pool })

pub data Reach (s : Session) : Session → Type 0 where
  here : Reach s s
  next : {t u : Session} → Reach s t → Step t u → Reach s u

unfoldable pub start : Session
start = record { refs = λ _. 0; pool = new_conn_pool }

start-Counts : Counts start.refs start.pool
unfolding start new_conn_pool
start-Counts = record { counted = tt; distinct = tt; present = λ c l. absurd (omega arith) }

Step-Counts : {s t : Session} → Step s t → Counts s.refs s.pool → Counts t.refs t.pool
Step-Counts (shares s unique now) k = get_shared-Counts s.refs unique now s.pool k
Step-Counts (connects s unique now conn a z) k = get_new-Counts s.refs unique now conn s.pool a z k
Step-Counts (copies s now conn l) k = get-Counts s.refs conn now s.pool (k.present conn l) k
Step-Counts (puts s conn l) k = put-Counts s.refs conn s.pool l k
Step-Counts (collects s now expiry) k = (gc_spares_users s.refs now expiry s.pool k).0

-- After any interleaving of Get, Copy, Put and gc on a new pool: each entry counts exactly the
-- references that clients hold to its connection, no connection is in two entries, and every
-- connection that somebody holds is in the pool.
pub run-Counts : {s : Session} → Reach start s → Counts s.refs s.pool
run-Counts here = start-Counts
run-Counts (next r st) = Step-Counts st (run-Counts r)

-- ===== src/Ceph/ConnPool.antt =====
-- ConnPool of internal/ceph/connection/conn_pool.go: connections that are shared and counted. A
-- method is split at its lock; a connection of librados is a handle, and times do not go back. The
-- map is a list of entries, whose order Go leaves open.
pub mod Users
pub mod Methods
pub mod Session
mod Tests
use Prim.Native.String.{String, compare as compare_string}
use Prim.Native.Nat.{Ordering}
use ceph_volsync_plugin.Base.{
  ℕ, ◌+◌, ◌-◌, Bool, true, false, ◌&&◌, List, [], ◌∷◌, ◌++◌, Option, none, some, ltb, ◌==◌,
  if◌then◌else◌,
}
use ceph_volsync_plugin.Base.Int.{ℤ, pos, negsuc, ◌+ℤ◌, ◌-ℤ◌}

-- connEntry, with its key in the map.
pub record ConnEntry : Type 0 where
  pub key : String
  pub conn : ℕ
  pub last_used : ℕ
  pub users : ℤ

-- `shut_down` lists the connections that were shut down.
pub record ConnPool : Type 0 where
  pub conns : List ConnEntry
  pub shut_down : List ℕ

unfoldable pub new_conn_pool : ConnPool
new_conn_pool = record { conns = []; shut_down = [] }

abbrev pub same_key : String → String → Bool
same_key a b = elim (compare_string a b) [ Ordering.eq ↦ true | _ ↦ false ]

-- get and put of an entry.
abbrev pub get : ℕ → ConnEntry → ConnEntry
get now e = record e { last_used = now; users = e.users +ℤ pos 1 }

abbrev pub put : ConnEntry → ConnEntry
put e = record e { users = e.users -ℤ pos 1 }

-- getConn: the entries afterwards and the connection, if there is one.
unfoldable pub get_conn : String → ℕ → List ConnEntry → List ConnEntry × Option ℕ
get_conn unique now [] = ([], none)
get_conn unique now (e ∷ es) =
    let (rest, found) = get_conn unique now es in
    if same_key e.key unique then (get now e ∷ es, some e.conn) else (e ∷ rest, found)

-- The first part of Get.
unfoldable pub get_shared : String → ℕ → ConnPool → ConnPool × Option ℕ
unfolding get_conn
get_shared unique now p =
    let (conns, found) = get_conn unique now p.conns in (record p { conns = conns }, found)

-- The second part of Get, with a connection of its own: another Get may have been faster.
abbrev pub keep_or_drop : String → ℕ → ℕ → ConnPool → ConnPool × Option ℕ → ConnPool × ℕ
keep_or_drop unique now conn p (q, some old) = (record q { shut_down = conn ∷ q.shut_down }, old)
keep_or_drop unique now conn p (q, none) = (
  record p {
    conns = p.conns ++ record { key = unique; conn = conn; last_used = now; users = pos 1 } ∷ [];
  },
  conn,
)

unfoldable pub get_new : String → ℕ → ℕ → ConnPool → ConnPool × ℕ
unfolding get_shared
get_new unique now conn p = keep_or_drop unique now conn p (get_shared unique now p)

-- The first entry of a connection is changed: the loops of Copy and Put.
unfoldable pub update : (ConnEntry → ConnEntry) → ℕ → List ConnEntry → List ConnEntry
update f conn [] = []
update f conn (e ∷ es) = if e.conn == conn then f e ∷ es else e ∷ update f conn es

unfoldable pub copy_conn : ℕ → ℕ → ConnPool → ConnPool
unfolding update
copy_conn now conn p = record p { conns = update (get now) conn p.conns }

unfoldable pub put_conn : ℕ → ConnPool → ConnPool
unfolding update
put_conn conn p = record p { conns = update put conn p.conns }

abbrev pub no_users : ℤ → Bool
no_users (pos n) = n == 0
no_users (negsuc n) = false

abbrev pub expired : ℕ → ℕ → ConnEntry → Bool
expired now expiry e = no_users e.users && ltb expiry (now - e.last_used)

-- gc: what stays, and what is shut down.
unfoldable pub collect : ℕ → ℕ → List ConnEntry → List ConnEntry × List ℕ
collect now expiry [] = ([], [])
collect now expiry (e ∷ es) =
    let (kept, dropped) = collect now expiry es in
    if expired now expiry e then (kept, e.conn ∷ dropped) else (e ∷ kept, dropped)

unfoldable pub gc : ℕ → ℕ → ConnPool → ConnPool
unfolding collect
gc now expiry p =
    let (kept, dropped) = collect now expiry p.conns in
    record { conns = kept; shut_down = dropped ++ p.shut_down }

-- Destroy: the pool, and whether it panics at an entry that has users.
unfoldable pub destroy : List ConnEntry → List ℕ → ConnPool × Bool
destroy [] down = (record { conns = []; shut_down = down }, false)
destroy (e ∷ es) down =
    if no_users e.users
    then destroy es (e.conn ∷ down)
    else (record { conns = e ∷ es; shut_down = down }, true)

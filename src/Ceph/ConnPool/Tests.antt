-- ===== src/Ceph/ConnPool/Tests.antt =====
-- The theorems on the pool at concrete inputs.
use ceph_volsync_plugin.Base.{ℕ, ◌≡◌, refl, arith}
use ceph_volsync_plugin.Ceph.ConnPool.{new_conn_pool, get_conn, get_shared, get_new, put_conn}
use ceph_volsync_plugin.Ceph.ConnPool.Users.{Counts, more, less}
use ceph_volsync_plugin.Ceph.ConnPool.Session.{
  Session, connects, puts, Reach, here, next, start, run-Counts,
}

abbrev connected : Session
connected = record {
  refs = more (get_new "k" 5 7 start.pool).1 start.refs;
  pool = (get_new "k" 5 7 start.pool).0;
}

abbrev put_back : Session
put_back = record { refs = less 7 connected.refs; pool = put_conn 7 connected.pool }

one_put : Reach start put_back
unfolding start new_conn_pool get_new get_shared get_conn
one_put = next (next here (connects start "k" 5 7 tt refl)) (puts connected 7 (omega arith))

run-Counts_example : Counts put_back.refs put_back.pool
run-Counts_example = run-Counts {s = put_back} one_put

nobody_holds : (c : ℕ) → put_back.refs c ≡ 0
unfolding start new_conn_pool get_new get_shared get_conn
nobody_holds c = ground arith

-- ===== src/Cephfs/Paths/Tests.antt =====
-- Paths at concrete inputs.
use ceph_volsync_plugin.Base.{◌≡◌, refl, ok, err}
use ceph_volsync_plugin.Cephfs.Paths.{codes, clean, join, sanitize_path, traversal}

clean_parent : clean (codes "/a/./b//../c/") ≡ codes "/a/c"
unfolding clean
clean_parent = refl

clean_relative : clean (codes "a/../../b") ≡ codes "../b"
unfolding clean
clean_relative = refl

clean_above_root : clean (codes "/../x") ≡ codes "/x"
unfolding clean
clean_above_root = refl

join_root : join (codes "/") (codes "a") ≡ codes "/a"
unfolding join
join_root = refl

sanitize_path_name : sanitize_path (codes "/dir/f") ≡ ok (codes "/data/dir/f")
unfolding sanitize_path
sanitize_path_name = refl

sanitize_path_dots : sanitize_path (codes "/dir/a..b") ≡ err traversal
unfolding sanitize_path
sanitize_path_dots = refl

sanitize_path_root : sanitize_path (codes "/") ≡ ok (codes "/data")
unfolding sanitize_path
sanitize_path_root = refl

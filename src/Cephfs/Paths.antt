-- ===== src/Cephfs/Paths.antt =====
-- Paths as lists of bytes: Clean, Join and Contains of the Go library as internal/worker/cephfs
-- uses them, and sanitizePath of internal/worker/cephfs/destination.go.
pub mod Confined
mod Tests
pub use ceph_volsync_plugin.Base.Text.{Text, eq_text}
use Prim.Native.Char.{code}
use Prim.Native.String.{String}
use ceph_volsync_plugin.Base.{
  ℕ, Bool, true, false, ◌&&◌, ◌||◌, List, [], ◌∷◌, ◌++◌, Result, ok, err, ◌==◌, if◌then◌else◌,
}

-- The bytes of a text in ASCII.
abbrev pub codes : String → Text
codes String.[] = []
codes (String.◌∷◌ c s) = code c ∷ codes s

abbrev pub slash : ℕ
slash = 47

abbrev pub dot : ℕ
dot = 46

abbrev pub dot_dot : Text
dot_dot = dot ∷ dot ∷ []

abbrev pub cons_first : ℕ → List Text → List Text
cons_first b [] = (b ∷ []) ∷ []
cons_first b (x ∷ xs) = (b ∷ x) ∷ xs

-- The parts of a path between its slashes.
unfoldable pub split : Text → List Text
split [] = [] ∷ []
split (b ∷ bs) = let rest = split bs in if b == slash then [] ∷ rest else cons_first b rest

-- A `..` takes the last name back, if there is one; `stack` has the last name first.
abbrev pub up : Bool → List Text → List Text
up rooted [] = if rooted then [] else dot_dot ∷ []
up rooted (top ∷ rest) = if eq_text top dot_dot then dot_dot ∷ top ∷ rest else rest

abbrev pub push : Bool → List Text → Text → List Text
push rooted stack name =
    if eq_text name [] || eq_text name (dot ∷ [])
    then stack
    else if eq_text name dot_dot
    then up rooted stack
    else name ∷ stack

unfoldable pub reduce : Bool → List Text → List Text → List Text
reduce rooted stack [] = stack
reduce rooted stack (name ∷ names) = reduce rooted (push rooted stack name) names

-- The names of a stack, with slashes between them.
abbrev pub join_names : List Text → Text
join_names [] = []
join_names (c ∷ []) = c
join_names (c ∷ d ∷ cs) = join_names (d ∷ cs) ++ slash ∷ c

abbrev pub or_dot : Text → Text
or_dot [] = dot ∷ []
or_dot (b ∷ bs) = b ∷ bs

-- filepath.Clean.
unfoldable pub clean : Text → Text
unfolding split reduce
clean [] = dot ∷ []
clean (b ∷ bs) =
    if b == slash
    then slash ∷ join_names (reduce true [] (split (b ∷ bs)))
    else or_dot (join_names (reduce false [] (split (b ∷ bs))))

-- filepath.Join of two elements.
unfoldable pub join : Text → Text → Text
unfolding clean
join [] [] = []
join [] (c ∷ cs) = clean (c ∷ cs)
join (b ∷ bs) c = clean ((b ∷ bs) ++ slash ∷ c)

abbrev pub starts_dot : Text → Bool
starts_dot [] = false
starts_dot (b ∷ bs) = b == dot

-- strings.Contains(path, "..").
unfoldable pub contains_dots : Text → Bool
contains_dots [] = false
contains_dots (b ∷ bs) = (b == dot && starts_dot bs) || contains_dots bs

-- constant.DataMountPath, "/data".
abbrev pub data_mount_path : Text
data_mount_path = 47 ∷ 100 ∷ 97 ∷ 116 ∷ 97 ∷ []

pub data PathError : Type 0 where
  empty_path traversal : PathError

unfoldable pub sanitize_path : Text → Result PathError Text
unfolding clean contains_dots join
sanitize_path [] = err empty_path
sanitize_path (b ∷ bs) =
    let clean_path = clean (b ∷ bs) in
    if contains_dots clean_path then err traversal else ok (join data_mount_path clean_path)

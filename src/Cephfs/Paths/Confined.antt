-- ===== src/Cephfs/Paths/Confined.antt =====
-- What sanitizePath lets through stays below the mount path.
use mathlib.Core.Bool.{true≢false}
use mathlib.Core.Path.{subst}
use ceph_volsync_plugin.Base.{
  ℕ, ◌≡◌, ◌≢◌, refl, sym, ap, ◌∙◌, inl, inr, Bool, true, false, ◌&&◌, ◌||◌, List, [], ◌∷◌, ◌++◌,
  Result, ok, err, All, ◌==◌, Bool-cases, arith, ◌⊎◌,
}
use ceph_volsync_plugin.Base.Text.{eq_text-eq}
use ceph_volsync_plugin.Cephfs.Paths.{
  Text, slash, dot, dot_dot, eq_text, cons_first, starts_dot, split, push, reduce, join_names,
  clean, join, contains_dots, data_mount_path, sanitize_path, traversal, PathError,
}

-- A part of a path that stands for an entry of a directory and nothing else.
pub record IsName (n : Text) : Type 0 where
  pub not_empty : n ≢ []
  pub not_dot : n ≢ dot ∷ []
  pub no_dots : contains_dots n ≡ false
  pub no_slash : All (λ b. b ≢ slash) n

-- The path of the names, the last one first, below the mount path.
abbrev pub below : List Text → Text
below [] = data_mount_path
below (n ∷ ns) = below ns ++ slash ∷ n

join_names-below :
    (ns : List Text) → slash ∷ join_names (ns ++ (100 ∷ 97 ∷ 116 ∷ 97 ∷ []) ∷ []) ≡ below ns
join_names-below [] = refl
join_names-below (n ∷ []) = refl
join_names-below (n ∷ m ∷ ns) = ap (λ z. z ++ slash ∷ n) (join_names-below (m ∷ ns))

-- What is left of a name once it is known to have no slash and no two dots.
record IsPart (n : Text) : Type 0 where
  pub no_dots : contains_dots n ≡ false
  pub no_slash : All (λ b. b ≢ slash) n

abbrev starts_first : List Text → Bool
starts_first [] = false
starts_first (x ∷ xs) = starts_dot x

split-starts : (p : Text) → starts_first (split p) ≡ true → starts_dot p ≡ true
unfolding split
split-starts [] h = h
split-starts (b ∷ bs) h = elim (Bool-cases (b == slash)) [
  | inl e ↦ absurd (ground (arith, e))
  | inr e ↦ kept (split bs) (rw e at h)
]
  where
    kept : (xs : List Text) → starts_first (cons_first b xs) ≡ true → b == dot ≡ true
    kept [] h = h
    kept (x ∷ xs) h = h

cons_first-IsPart :
    (b : ℕ) (bs : Text) (xs : List Text)
    → b ≢ slash
    → b == dot && starts_dot bs ≡ false
    → (starts_first xs ≡ true → starts_dot bs ≡ true)
    → All IsPart xs
    → All IsPart (cons_first b xs)
unfolding contains_dots
cons_first-IsPart b bs [] n d s h = (record { no_dots = ground arith; no_slash = (n, tt) }, tt)
cons_first-IsPart b bs (x ∷ xs) n d s (h, hs) =
    (record { no_dots = ground (arith, h.no_dots, s, d); no_slash = (n, h.no_slash) }, hs)

or_left : (a b : Bool) → a || b ≡ false → a ≡ false
or_left false b h = refl
or_left true b h = h

or_right : (a b : Bool) → a || b ≡ false → b ≡ false
or_right false b h = h
or_right true b h = cc

split-IsPart : (p : Text) → contains_dots p ≡ false → All IsPart (split p)
unfolding split contains_dots
split-IsPart [] h = (record { no_dots = refl; no_slash = tt }, tt)
split-IsPart (b ∷ bs) h = elim (Bool-cases (b == slash)) [
  | inl e ↦ simp e (record { no_dots = refl; no_slash = tt }, split-IsPart bs (or_right _ _ h))
  | inr e ↦ simp e (
      cons_first-IsPart b bs (split bs) (ground (arith, e)) (or_left _ _ h) (split-starts bs)
        (split-IsPart bs (or_right _ _ h)))
]

abbrev data_name : Text
data_name = 100 ∷ 97 ∷ 116 ∷ 97 ∷ []

dots_ne : (n : Text) → contains_dots n ≡ false → eq_text n dot_dot ≡ false
unfolding contains_dots
dots_ne n h = elim (Bool-cases (eq_text n dot_dot)) [
  | inl e ↦ absurd (true≢false (ap contains_dots (sym (eq_text-eq n dot_dot e)) ∙ h))
  | inr e ↦ e
]

different : {n m : Text} → eq_text n m ≡ false → eq_text m m ≡ true → n ≢ m
different {n} {m} h r e = true≢false (sym r ∙ ap (λ z. eq_text z m) (sym e) ∙ h)

-- A part without two dots is left out, or is a name that goes on the stack.
push-IsName :
    (stack : List Text) (n : Text)
    → IsPart n
    → (push true stack n ≡ stack) ⊎ ((push true stack n ≡ n ∷ stack) × IsName n)
push-IsName stack n p = elim (Bool-cases (eq_text n [] || eq_text n (dot ∷ []))) [
  | inl e ↦ inl (simp e refl)
  | inr e ↦ inr (
    simp (e, dots_ne n p.no_dots) refl,
    record {
      not_empty = different (or_left _ _ e) refl;
      not_dot = different (or_right _ _ e) refl;
      no_dots = p.no_dots;
      no_slash = p.no_slash;
    },
  )
]

reduce-below :
    (parts new : List Text)
    → All IsPart parts
    → All IsName new
    → (names : List Text) × (reduce true (new ++ data_name ∷ []) parts ≡ names ++ data_name ∷ [])
      × All IsName names
unfolding reduce
reduce-below [] new h k = (new, refl, k)
reduce-below (n ∷ ns) new (h, hs) k = elim (push-IsName (new ++ data_name ∷ []) n h) [
  | inl e ↦ rw e (reduce-below ns new hs k)
  | inr (e, i) ↦ rw e (reduce-below ns (n ∷ new) hs (i, k))
]

-- `q` is the mount path, followed by names: no part of it is empty, `.` or has two dots.
pub record IsBelowMount (q : Text) : Type 0 where
  pub names : List Text
  pub is_below : q ≡ below names
  pub all_names : All IsName names

join-IsBelowMount : (p : Text) → contains_dots p ≡ false → IsBelowMount (join data_mount_path p)
unfolding join clean split reduce
join-IsBelowMount p h =
    let r = reduce-below (split p) [] (split-IsPart p h) tt in
    record {
      names = r.0;
      is_below = ap (λ s. slash ∷ join_names s) r.1 ∙ join_names-below r.0;
      all_names = r.2;
    }

-- A path that sanitizePath lets through names the mount path or something below it: the path is
-- "/data" followed by a slash and a name any number of times, and no name is empty, a dot, has two
-- dots in a row or a slash.
pub sanitize_path-IsBelowMount : (p : Text) {q : Text} → sanitize_path p ≡ ok q → IsBelowMount q
unfolding sanitize_path
sanitize_path-IsBelowMount [] e = absurd (cc)
sanitize_path-IsBelowMount (b ∷ bs) {q} e = elim (Bool-cases (contains_dots (clean (b ∷ bs)))) [
  | inl h ↦ absurd (refused (rw h at e))
  | inr h ↦ subst IsBelowMount (ok_injective (rw h at e)) (join-IsBelowMount (clean (b ∷ bs)) h)
]
  where
    refused : {x : Text} → ◌≢◌ {A = Result PathError Text} (err traversal) (ok x)
    refused e = cc

    ok_injective : {x y : Text} → ◌≡◌ {A = Result PathError Text} (ok x) (ok y) → x ≡ y
    ok_injective e = cc

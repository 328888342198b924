-- ===== src/Base/Text.antt =====
-- Texts as lists of bytes, and their equality.
use Prim.Native.Nat.{ℕ}
use mathlib.Core.Path.{◌≡◌, refl, ap}
use mathlib.Core.Logic.{◌≢◌}
use mathlib.Core.Bool.{Bool, true, false, ◌&&◌}
use mathlib.Core.List.{List, [], ◌∷◌}
use native.Mathlib.Omega.{arith}
use ceph_volsync_plugin.Base.Tests.{◌==◌}

abbrev pub Text : Type 0
Text = List ℕ

abbrev pub eq_text : Text → Text → Bool
eq_text [] [] = true
eq_text (b ∷ bs) (c ∷ cs) = b == c && eq_text bs cs
eq_text _ _ = false

pub eq_text-eq : (xs ys : Text) → eq_text xs ys ≡ true → xs ≡ ys
eq_text-eq [] [] h = refl
eq_text-eq [] (y ∷ ys) h = cc
eq_text-eq (x ∷ xs) [] h = cc
eq_text-eq (x ∷ xs) (y ∷ ys) h = ground (arith, eq_text-eq xs ys)

pub eq_text_refl : (xs : Text) → eq_text xs xs ≡ true
eq_text_refl [] = refl
eq_text_refl (x ∷ xs) = ground (arith, eq_text_refl xs)

pub eq_text_ne : (xs ys : Text) → eq_text xs ys ≡ false → xs ≢ ys
eq_text_ne xs ys h e = absurd (cc (eq_text_refl xs, ap (eq_text xs) e, h))

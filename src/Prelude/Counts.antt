-- ===== src/Prelude/Counts.antt =====
-- How often a text comes in a list.
use Prim.Native.Nat.{ℕ, ◌+◌}
use mathlib.Core.Path.{◌≡◌}
use mathlib.Core.Bool.{Bool, true, false}
use mathlib.Core.List.{List, [], ◌∷◌, ◌++◌}
use native.Mathlib.Omega.{arith}
use lacme.Prelude.Equality.{Str, str_eq}

abbrev pub one_if : Bool → ℕ
one_if true = 1
one_if false = 0

unfoldable pub count_of : Str → List Str → ℕ
count_of s [] = 0
count_of s (t ∷ ts) = one_if (str_eq s t) + count_of s ts

pub count_of-append :
    (s : Str) (xs ys : List Str) → count_of s (xs ++ ys) ≡ count_of s xs + count_of s ys
unfolding count_of
count_of-append s [] ys = omega arith
count_of-append s (x ∷ xs) ys = omega (arith, count_of-append s xs ys)

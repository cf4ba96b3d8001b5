-- ===== src/Prelude/Text.antt =====
-- Python's text methods, over code points.
use Prim.Native.Nat.{ℕ, ◌+◌, ◌<◌}
use Prim.Native.Char.{code}
use Prim.Native.String.{String}
use mathlib.Core.Path.{◌≡◌, refl}
use mathlib.Core.Logic.{◌↔◌, inl, inr}
use mathlib.Core.Bool.{Bool, true, false, ◌&&◌}
use mathlib.Core.Option.{Option, none, some}
use mathlib.Core.List.{List, [], ◌∷◌, ◌++◌, map}
use native.Mathlib.Omega.{arith}
use lacme.Prelude.Tests.{ltb, leb, ◌==◌, if◌then◌else◌, Option-cases}
use lacme.Prelude.Equality.{Str}
use lacme.Prelude.Lists.{any, all}

-- A literal as code points.
abbrev pub codes : String → Str
codes String.[] = []
codes (String.◌∷◌ c s) = code c ∷ codes s

-- `not s`
abbrev pub is_empty {ℓ} : {A : Type ℓ} → List A → Bool
is_empty [] = true
is_empty (x ∷ xs) = false

-- `s.removeprefix(p)` with the answer whether it was there
unfoldable pub strip_prefix : Str → Str → Option Str
strip_prefix [] s = some s
strip_prefix (a ∷ p) [] = none
strip_prefix (a ∷ p) (b ∷ s) = if a == b then strip_prefix p s else none

-- `s.startswith(p)`
unfoldable pub starts_with : Str → Str → Bool
unfolding strip_prefix
starts_with s p = elim (strip_prefix p s) [ none ↦ false | some _ ↦ true ]

pub strip_prefix-append : (p s : Str) → strip_prefix p (p ++ s) ≡ some s
unfolding strip_prefix
strip_prefix-append [] s = refl
strip_prefix-append (a ∷ p) s = ground (arith, strip_prefix-append p s)

pub append-strip_prefix : (p s r : Str) → strip_prefix p s ≡ some r → s ≡ p ++ r
unfolding strip_prefix
append-strip_prefix [] s r h = ground arith
append-strip_prefix (a ∷ p) [] r h = cc
append-strip_prefix (a ∷ p) (b ∷ s) r h = ground (arith, append-strip_prefix p s r)

-- `c in s`
abbrev pub contains : Str → ℕ → Bool
contains s c = any (λ x. x == c) s

-- `s.lower()` on ASCII text
unfoldable pub lower_char : ℕ → ℕ
lower_char c = if leb b'A' c && leb c b'Z' then c + 32 else c

unfoldable pub lower : Str → Str
unfolding lower_char
lower = map lower_char

pub lower_idem : (s : Str) → lower (lower s) ≡ lower s
unfolding lower
lower_idem [] = refl
lower_idem (c ∷ s) = ground (arith, lower_idem s)

pub lower_char-ne : (c k : ℕ) → k < b'A' → (c ≡ k) ↔ (lower_char c ≡ k)
unfolding lower_char
lower_char-ne c k h = (λ p. ground arith, λ p. ground arith)

-- `s.isascii()`
abbrev pub is_ascii : Str → Bool
is_ascii = all (λ c. ltb c 128)

-- `s.split(sep)` for a one-character separator: never empty.
unfoldable pub split_onto : ℕ → Str → Str → List Str
split_onto sep acc [] = acc ∷ []
split_onto sep acc (c ∷ s) = elim (c == sep) [
  | true ↦ acc ∷ split_onto sep [] s
  | false ↦ split_onto sep (acc ++ c ∷ []) s
]

unfoldable pub split : ℕ → Str → List Str
unfolding split_onto
split sep s = split_onto sep [] s

-- `sep.join(parts)`
unfoldable pub join : ℕ → List Str → Str
join sep [] = []
join sep (p ∷ []) = p
join sep (p ∷ q ∷ ps) = p ++ sep ∷ join sep (q ∷ ps)

-- `parts[-1]`, and `parts[-2]`
unfoldable pub last_or : Str → List Str → Str
last_or d [] = d
last_or d (p ∷ ps) = last_or p ps

-- `s.rstrip(c)`
unfoldable pub rstrip : ℕ → Str → Str
rstrip c [] = []
rstrip c (x ∷ s) = let rest = rstrip c s in if x == c && is_empty rest then [] else x ∷ rest

-- What a text that starts with a prefix is made of.
pub starts_with-eq-true : (s p : Str) → starts_with s p ≡ true → (r : Str) × (s ≡ p ++ r)
unfolding starts_with
starts_with-eq-true s p h = elim (Option-cases (strip_prefix p s)) [
  | inl other ↦ let no : starts_with s p ≡ false = rw (other, starts_with) refl in cc (no, h)
  | inr (r, found) ↦ (r, append-strip_prefix p s r found)
]

-- ===== src/Prelude/Equality.antt =====
-- Python's `==` on keys, as an interface with instances for texts and pairs.
use Prim.Native.Nat.{ℕ}
use mathlib.Core.Path.{◌≡◌, refl}
use mathlib.Core.Logic.{◌↔◌}
use mathlib.Core.Bool.{Bool, true, false, ◌&&◌}
use mathlib.Core.List.{List, [], ◌∷◌}
use native.Mathlib.Omega.{arith}
use lacme.Prelude.Tests.{◌==◌}

-- A text as its code points, and a byte string as its bytes.
abbrev pub Str : Type 0
Str = List ℕ

pub record Eq {ℓ} (A : Type ℓ) : Type ℓ where
  pub beq : A → A → Bool
  pub beq_iff : (a b : A) → (beq a b ≡ true) ↔ (a ≡ b)

unfoldable pub str_eq : Str → Str → Bool
str_eq [] [] = true
str_eq (a ∷ s) (b ∷ t) = a == b && str_eq s t
str_eq _ _ = false

str_eq-to : (s t : Str) → str_eq s t ≡ true → s ≡ t
unfolding str_eq
str_eq-to [] [] h = refl
str_eq-to (a ∷ s) (b ∷ t) h = ground (arith, str_eq-to s t)
str_eq-to [] (b ∷ t) h = cc
str_eq-to (a ∷ s) [] h = cc

pub str_eq_refl : (s : Str) → str_eq s s ≡ true
unfolding str_eq
str_eq_refl [] = refl
str_eq_refl (a ∷ s) = ground (arith, str_eq_refl s)

pub str_eq_iff : (s t : Str) → (str_eq s t ≡ true) ↔ (s ≡ t)
str_eq_iff s t = (str_eq-to s t, λ p. cc (str_eq_refl s, p))

unfoldable pub pair_eq {ℓ κ} : {A : Type ℓ} {B : Type κ} → Eq A → Eq B → A × B → A × B → Bool
pair_eq e f (a, b) (c, d) = e.beq a c && f.beq b d

pub pair_eq_iff {ℓ κ} :
    {A : Type ℓ} {B : Type κ} (e : Eq A) (f : Eq B) (p q : A × B)
    → (pair_eq e f p q ≡ true) ↔ (p ≡ q)
unfolding pair_eq
pair_eq_iff e f (a, b) (c, d) = (
  λ h. ground (arith, e.beq_iff a c, f.beq_iff b d),
  λ h. ground (arith, e.beq_iff a c, f.beq_iff b d),
)

instance abbrev pub str_Eq : Eq Str
str_Eq = record { beq = str_eq; beq_iff = str_eq_iff }

instance unfoldable pub pair_Eq {ℓ κ} : {A : Type ℓ} {B : Type κ} ⦃e : Eq A⦄ ⦃f : Eq B⦄ → Eq (A × B)
unfolding pair_eq
pair_Eq ⦃e⦄ ⦃f⦄ = record { beq = pair_eq e f; beq_iff = pair_eq_iff e f }

-- ===== src/Prelude/Errors.antt =====
-- Python's exceptions as values. The texts of the messages are not modelled; the classes are, since
-- the handlers' `except` clauses tell them apart.
use mathlib.Core.Path.{◌≡◌, refl}
use mathlib.Core.Logic.{◌⊎◌, inl, inr}
use mathlib.Core.Bool.{Bool, true, false}

pub data Error : Type 0 where
  value_error unsupported_identifier_type type_error key_error runtime_error store_error os_error :
      Error

pub data Result {ℓ} (A : Type ℓ) : Type ℓ where
  ok : A → Result A
  raise : Error → Result A

pub Result-cases {ℓ} :
    {A : Type ℓ} (r : Result A) → ((e : Error) × (r ≡ raise e)) ⊎ ((a : A) × (r ≡ ok a))
Result-cases (raise e) = inl (e, refl)
Result-cases (ok a) = inr (a, refl)

-- `if not test: raise e`
abbrev pub guard : (test : Bool) (e : Error) → Result (Unit {0})
guard true e = ok tt
guard false e = raise e

module _ {ℓ κ} {A : Type ℓ} {B : Type κ} where
  infixl 5 ◌>>=◌
  -- A raised error passes by what would come next.
  abbrev pub ◌>>=◌ : Result A → (A → Result B) → Result B
  raise e >>= next = raise e
  ok a >>= next = next a

  -- What a chain that succeeds has passed through.
  pub >>=-eq-ok :
      (r : Result A) (next : A → Result B) {b : B}
      → (r >>= next) ≡ ok b
      → (a : A) × (r ≡ ok a) × (next a ≡ ok b)
  >>=-eq-ok (raise e) next h = cc
  >>=-eq-ok (ok a) next h = (a, refl, h)

module _ {ℓ} {A : Type ℓ} where
  infixl 5 ◌>>◌
  abbrev pub ◌>>◌ : Result (Unit {0}) → Result A → Result A
  r >> next = r >>= λ _. next

  -- Inversion of a passed guard.
  pub guard-eq-ok :
      (test : Bool) (e : Error) (next : Result A) {a : A}
      → (guard test e >> next) ≡ ok a
      → (test ≡ true) × (next ≡ ok a)
  guard-eq-ok true e next h = (refl, h)
  guard-eq-ok false e next h = cc

  pub ok-injective : {a b : A} → ok a ≡ ok b → a ≡ b
  ok-injective h = cc

-- What holds of the value, if there is one.
abbrev pub OnOk {κ μ} : {B : Type κ} → (B → Type μ) → Result B → Type (κ ⊔ μ)
OnOk {B = B} P r = (b : B) → r ≡ ok b → P b

pub >>=-OnOk {ℓ κ μ} :
    {A : Type ℓ} {B : Type κ} (P : B → Type μ) (r : Result A) (next : A → Result B)
    → ((a : A) → OnOk P (next a))
    → OnOk P (r >>= next)
>>=-OnOk P (raise e) next h = λ b raised. cc raised
>>=-OnOk P (ok a) next h = h a

-- ===== src/Issuing/Monad.antt =====
-- What `issue` does in order: it may raise at any step, and what was done before stays done.
use lacme.Prelude.{Bool, true, false, List, Str, Error, Result}

-- How a step ends when it raises: an exception of a call, or one that `issue` raises itself.
pub data Raised (E : Type 0) : Type 0 where
  from_call : E → Raised E
  from_check : Error → Raised E
  rate_limit_prevented : Raised E
  acme_error : Raised E

pub data Answer {ℓ} (E : Type 0) (A : Type ℓ) : Type ℓ where
  done : A → Answer E A
  threw : Raised E → Answer E A

-- An entry of `provisioned`: the domain, the token and the handler.
pub record Provisioned (H : Type 0) : Type 0 where
  pub domain : Str
  pub token : Str
  pub handler : H

-- The outside world, the list `provisioned`, and the calls of `deprovision` and of `provision` so far, with
-- the arguments that they were made with.
pub record Progress (W H : Type 0) : Type 0 where
  pub world : W
  pub provisioned : List (Provisioned H)
  pub deprovisioned : List (Provisioned H)
  pub asked : List (Provisioned H)

module _ (W H E : Type 0) where
  abbrev pub Step {ℓ} : Type ℓ → Type ℓ
  Step A = Progress W H → Answer E A × Progress W H

module _ {W H E : Type 0} where
  abbrev pub give {ℓ} : {A : Type ℓ} → A → Step W H E A
  give a s = (done a, s)

  abbrev pub throw {ℓ} : {A : Type ℓ} → Raised E → Step W H E A
  throw e s = (threw e, s)

  -- the value of a function that raises a built-in exception
  abbrev pub check {ℓ} : {A : Type ℓ} → Result A → Step W H E A
  check (Result.ok a) s = (done a, s)
  check (Result.raise e) s = (threw (from_check e), s)

  abbrev pub require : Bool → Raised E → Step W H E (Unit {0})
  require true e s = (done tt, s)
  require false e s = (threw e, s)

  infixl 5 ◌>>=◌ ◌>>◌
  unfoldable pub ◌>>=◌ {ℓ κ} :
      {A : Type ℓ} {B : Type κ} → Step W H E A → (A → Step W H E B) → Step W H E B
  (m >>= f) s = let (r, s') = m s in elim r [ done a ↦ f a s' | threw e ↦ (threw e, s') ]

  abbrev pub ◌>>◌ {ℓ} : {B : Type ℓ} → Step W H E (Unit {0}) → Step W H E B → Step W H E B
  m >> k = m >>= λ _. k

  -- `try: body finally: cleanup`, where `cleanup` raises nothing
  unfoldable pub finally {ℓ} :
      {A : Type ℓ} → Step W H E A → (Progress W H → Progress W H) → Step W H E A
  finally body cleanup s = let (r, s') = body s in (r, cleanup s')

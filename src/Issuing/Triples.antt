-- ===== src/Issuing/Triples.antt =====
-- Conditions before and after a step, however it ends.
use lacme.Prelude.{◌≡◌, ◌⊎◌, inl, inr, refl, Bool, true, false, List, Result}
use lacme.Issuing.Monad.{
  Answer, done, threw, Raised, Provisioned, Progress, Step, check, require, ◌>>=◌,
}
use lacme.Issuing.Calls.{Reply, value, exception, call}

pub Answer-cases {ℓ} :
    {E : Type 0} {A : Type ℓ} (r : Answer E A)
    → ((a : A) × (r ≡ done a)) ⊎ ((e : Raised E) × (r ≡ threw e))
Answer-cases (done a) = inl (a, refl)
Answer-cases (threw e) = inr (e, refl)

pub Reply-cases {ℓ} :
    {E : Type 0} {A : Type ℓ} (r : Reply E A)
    → ((a : A) × (r ≡ value a)) ⊎ ((e : E) × (r ≡ exception e))
Reply-cases (value a) = inl (a, refl)
Reply-cases (exception e) = inr (e, refl)

-- What is said of the three lists only.
abbrev pub OfLists {κ} :
    {W H : Type 0}
    → (List (Provisioned H) → List (Provisioned H) → List (Provisioned H) → Type κ)
    → Progress W H
    → Type κ
OfLists P s = P s.provisioned s.deprovisioned s.asked

module _ {W H E : Type 0} where
  abbrev pub Triple {ℓ κ μ} :
      {A : Type ℓ} → (Progress W H → Type κ) → (Progress W H → Type μ) → Step W H E A → Type (κ ⊔ μ)
  Triple P Q m = (s : Progress W H) → P s → Q (m s).1

  pub >>=-Triple {ℓ κ μ ν} :
      {A : Type ℓ} {B : Type κ} {P : Progress W H → Type μ} {Q : Progress W H → Type ν}
      (m : Step W H E A) (f : A → Step W H E B)
      → ((s : Progress W H) → P s → Q s)
      → Triple P P m
      → ((a : A) → Triple P Q (f a))
      → Triple P Q (m >>= f)
  unfolding ◌>>=◌
  >>=-Triple m f weaken first next s p = elim (Answer-cases (m s).0) [
    | inl (a, ends) ↦ rw (ends, ◌>>=◌) (next a (m s).1 (first s p))
    | inr (e, ends) ↦ rw (ends, ◌>>=◌) (weaken (m s).1 (first s p))
  ]

  pub >>=-after {ℓ κ μ ν} :
      {A : Type ℓ} {B : Type κ} {P : Progress W H → Type μ} {Q : Progress W H → Type ν}
      (m : Step W H E A) (f : A → Step W H E B)
      → Triple P Q m
      → ((a : A) → Triple Q Q (f a))
      → Triple P Q (m >>= f)
  unfolding ◌>>=◌
  >>=-after m f first next s p = elim (Answer-cases (m s).0) [
    | inl (a, ends) ↦ rw (ends, ◌>>=◌) (next a (m s).1 (first s p))
    | inr (e, ends) ↦ rw (ends, ◌>>=◌) (first s p)
  ]

  module _ {κ}
      (P : List (Provisioned H) → List (Provisioned H) → List (Provisioned H) → Type κ) where
    -- A call changes the world only.
    pub call-Triple {ℓ} :
        {A : Type ℓ} (f : W → Reply E A × W)
        → Triple (OfLists P) (OfLists P) (call {W = W} {H = H} {E = E} f)
    call-Triple f s p = elim (Reply-cases (f s.world).0) [
      | inl (a, ends) ↦ rw (ends, call) p
      | inr (e, ends) ↦ rw (ends, call) p
    ]

    pub require-Triple :
        (b : Bool) (e : Raised E)
        → Triple (OfLists P) (OfLists P) (require {W = W} {H = H} {E = E} b e)
    require-Triple true e s p = p
    require-Triple false e s p = p

pub check-Triple {ℓ κ} :
    {W H : Type 0} (E : Type 0)
    (P : List (Provisioned H) → List (Provisioned H) → List (Provisioned H) → Type κ) {A : Type ℓ}
    (r : Result A)
    → Triple (OfLists P) (OfLists P) (check {W = W} {H = H} {E = E} r)
check-Triple E P (Result.ok a) s p = p
check-Triple E P (Result.raise e) s p = p

-- A step that may raise, and what its value is known to be.
pub check-then {ℓ κ μ ν} :
    {W H : Type 0} (E : Type 0) {A : Type ℓ} {B : Type κ} {P : Progress W H → Type μ}
    {Q : Progress W H → Type ν} (r : Result A) (f : A → Step W H E B)
    → ((s : Progress W H) → P s → Q s)
    → ((a : A) → r ≡ Result.ok a → Triple P Q (f a))
    → Triple P Q (check r >>= f)
unfolding ◌>>=◌
check-then E (Result.ok a) f weaken next = next a refl
check-then E (Result.raise e) f weaken next = weaken

-- ===== src/Prelude/Dict.antt =====
-- Python's `dict`: an association list in insertion order. `d[k] = v` keeps the place of a key that
-- is there, and a new key comes last.
use mathlib.Core.Path.{◌≡◌, refl, subst}
use mathlib.Core.Logic.{◌≢◌, inl, inr}
use mathlib.Core.Bool.{true}
use mathlib.Core.Option.{Option, none, some, some-injective}
use mathlib.Core.List.{List, [], ◌∷◌}
use native.Mathlib.Omega.{arith}
use lacme.Prelude.Tests.{if◌then◌else◌, Bool-cases}
use lacme.Prelude.Equality.{Eq}
use lacme.Prelude.Lists.{All}

abbrev pub Dict {ℓ κ} : Type ℓ → Type κ → Type (ℓ ⊔ κ)
Dict K V = List (K × V)

pub beq_refl {ℓ} : {K : Type ℓ} ⦃e : Eq K⦄ (k : K) → e.beq k k ≡ true
beq_refl ⦃e⦄ k = (e.beq_iff k k).1 refl

module _ {ℓ κ} {K : Type ℓ} {V : Type κ} ⦃e : Eq K⦄ where
  -- `d.get(k)`
  unfoldable pub get : Dict K V → K → Option V
  get [] k = none
  get ((j, v) ∷ d) k = if e.beq j k then some v else get d k

  -- `d[k] = v`
  unfoldable pub put : Dict K V → K → V → Dict K V
  put [] k v = (k, v) ∷ []
  put ((j, w) ∷ d) k v = if e.beq j k then (j, v) ∷ d else (j, w) ∷ put d k v

  -- `d.pop(k, None)`, without its result
  unfoldable pub pop : Dict K V → K → Dict K V
  pop [] k = []
  pop ((j, w) ∷ d) k = let rest = pop d k in if e.beq j k then rest else (j, w) ∷ rest

  -- `list(d.values())`
  unfoldable pub values : Dict K V → List V
  values [] = []
  values ((j, w) ∷ d) = w ∷ values d

  pub get-nil : (k : K) → get [] k ≡ none
  unfolding get
  get-nil k = refl

  pub get-put :
      (d : Dict K V) (k j : K) (v : V) → get (put d k v) j ≡ (if e.beq k j then some v else get d j)
  unfolding get put
  get-put [] k j v = refl
  get-put ((i, w) ∷ d) k j v =
      ground (arith, e.beq_iff i k, e.beq_iff i j, e.beq_iff k j, get-put d k j v)

  pub get-pop : (d : Dict K V) (k j : K) → get (pop d k) j ≡ (if e.beq k j then none else get d j)
  unfolding get pop
  get-pop [] k j = ground arith
  get-pop ((i, w) ∷ d) k j =
      ground (arith, e.beq_iff i k, e.beq_iff i j, e.beq_iff k j, get-pop d k j)

  pub get-put_self : (d : Dict K V) (k : K) (v : V) → get (put d k v) k ≡ some v
  get-put_self d k v = cc (get-put d k k v, beq_refl k)

  pub get-put_ne : (d : Dict K V) (k j : K) (v : V) → k ≢ j → get (put d k v) j ≡ get d j
  get-put_ne d k j v ne = ground (arith, get-put d k j v, e.beq_iff k j)

  -- No key comes twice.
  abbrev pub NodupKeys : Dict K V → Type κ
  NodupKeys [] = Unit
  NodupKeys ((k, v) ∷ d) = (get d k ≡ none) × NodupKeys d

  pub put-NodupKeys : (d : Dict K V) (k : K) (v : V) → NodupKeys d → NodupKeys (put d k v)
  unfolding put
  put-NodupKeys [] k v h = (get-nil k, tt)
  put-NodupKeys ((j, w) ∷ d) k v h = elim (Bool-cases (e.beq j k)) [
    | inl same ↦ rw same h
    | inr other ↦ rw other (
      ground (arith, get-put d k j v, e.beq_iff k j, e.beq_iff j k, h.0),
      put-NodupKeys d k v h.1,
    )
  ]

  -- `k in d`
  abbrev pub Has : Dict K V → K → Type κ
  Has d k = (v : V) × (get d k ≡ some v)

  -- What holds of every entry that can be read.
  abbrev pub Entries {μ} : (K → V → Type μ) → Dict K V → Type (ℓ ⊔ κ ⊔ μ)
  Entries P d = (k : K) (v : V) → get d k ≡ some v → P k v

  pub Entries-put {μ} :
      (P : K → V → Type μ) (d : Dict K V) (k : K) (v : V)
      → Entries P d
      → P k v
      → Entries P (put d k v)
  Entries-put P d k v h new j w g = elim (Bool-cases (e.beq k j)) [
    | inl same ↦
        let found : some v ≡ some w = ground (arith, get-put d k j v) in
        let v-w = some-injective v w found in
        let k-j = (e.beq_iff k j).0 same in subst (P j) v-w (subst (λ i. P i v) k-j new)
    | inr other ↦ h j w (ground (arith, get-put d k j v))
  ]

  -- A write under a new key hides nothing.
  pub get-put_fresh :
      (d : Dict K V) (k j : K) (v w : V)
      → get d k ≡ none
      → get d j ≡ some w
      → get (put d k v) j ≡ some w
  get-put_fresh d k j v w fresh found = ground (arith, get-put d k j v, e.beq_iff k j)

  pub Has-put : (d : Dict K V) (k j : K) (v : V) → Has d j → Has (put d k v) j
  Has-put d k j v (w, found) = elim (Bool-cases (e.beq k j)) [
    | inl same ↦ (v, ground (arith, get-put d k j v))
    | inr other ↦ (w, ground (arith, get-put d k j v))
  ]

  -- Writing what is there changes nothing.
  pub put-get : (d : Dict K V) (k : K) (v : V) → get d k ≡ some v → put d k v ≡ d
  unfolding get put
  put-get [] k v h = cc
  put-get ((j, w) ∷ d) k v h = ground (arith, put-get d k v)

  -- What holds of all entries, also of the new one under whatever key.
  pub put-All {μ} :
      (P : K × V → Type μ) (d : Dict K V) (k : K) (v : V)
      → ((j : K) → P (j, v))
      → All P d
      → All P (put d k v)
  unfolding put
  put-All P [] k v new h = (new k, tt)
  put-All P ((j, w) ∷ d) k v new h = elim (Bool-cases (e.beq j k)) [
    | inl same ↦ rw same (new j, h.1)
    | inr other ↦ rw other (h.0, put-All P d k v new h.1)
  ]

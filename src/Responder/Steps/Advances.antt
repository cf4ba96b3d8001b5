-- ===== src/Responder/Steps/Advances.antt =====
-- What the responder never takes back: its accounts, its certificates, and the progress of its orders.
pub mod Moves
use lacme.Prelude.{
  ℕ, ◌≤◌, ◌≡◌, refl, sym, subst, ◌∙◌, inl, inr, none, some, List, Str, str_Eq, arith, Bool-cases,
}
use mathlib.Core.Option.{some-injective}
use lacme.Prelude.Text.{codes}
use lacme.Prelude.Dict.{Dict, get, put, get-put, get-put_fresh, Entries}
use lacme.Identifiers.Values.{WireIdentifier}
use lacme.Responder.State.{Authorization, Order, OrderStatus, State, Config}
use lacme.Responder.Orders.{promote, record_certificate, place_order}
use lacme.Responder.Challenges.{answer_challenge}
use lacme.Responder.Steps.{
  Step, Steps, here, next, nonce, account, place, promoted, challenged, issued,
}
use lacme.Responder.Steps.Consistent.{HasCertificate, OrderOk, IsConsistent}
use lacme.Responder.Steps.Fresh.{numbered_fresh}
use lacme.Responder.Steps.Placing.{place-Adds}
use lacme.Responder.Steps.Preserves.{promote-cases, find_challenge-get, Steps-IsConsistent}

-- The order of the statuses.
abbrev pub rank : OrderStatus → ℕ
rank OrderStatus.pending = 0
rank OrderStatus.ready = 1
rank OrderStatus.valid = 2

-- The same order at a later time.
pub record Later (o o' : Order) : Type 0 where
  pub identifiers : o'.identifiers ≡ o.identifiers
  pub authz_urls : o'.authz_urls ≡ o.authz_urls
  pub finalize_url : o'.finalize_url ≡ o.finalize_url
  pub status : rank o.status ≤ rank o'.status
  pub certificate_url : (u : Str) → o.certificate_url ≡ some u → o'.certificate_url ≡ some u

-- The same authorization; its status and that of its challenges can have changed.
pub record Same (a a' : Authorization) : Type 0 where
  pub identifier_value : a'.identifier_value ≡ a.identifier_value
  pub identifier_type : a'.identifier_type ≡ a.identifier_type
  pub wildcard : a'.wildcard ≡ a.wildcard
  pub token : a'.token ≡ a.token
  pub key_authorization : a'.key_authorization ≡ a.key_authorization

-- The entries of `d` are in `d'`, each as something that `R` relates it to.
abbrev pub Kept {ℓ} : {A : Type ℓ} → (A → A → Type 0) → Dict Str A → Dict Str A → Type ℓ
Kept R d d' = Entries (λ u a. (b : _) × (get d' u ≡ some b) × R a b) d

pub record Advances (s t : State) : Type 0 where
  pub accounts : Kept (λ a a'. a' ≡ a) s.accounts t.accounts
  pub certificates : Kept (λ c c'. c' ≡ c) s.certificates t.certificates
  pub authorizations : Kept Same s.authorizations t.authorizations
  pub orders : Kept Later s.orders t.orders

pub Later-refl : (o : Order) → Later o o
Later-refl o = record {
  identifiers = refl;
  authz_urls = refl;
  finalize_url = refl;
  status = omega arith;
  certificate_url = λ u h. h;
}

Later-trans : (o p q : Order) → Later o p → Later p q → Later o q
Later-trans o p q h k = record {
  identifiers = k.identifiers ∙ h.identifiers;
  authz_urls = k.authz_urls ∙ h.authz_urls;
  finalize_url = k.finalize_url ∙ h.finalize_url;
  status = omega (arith, h.status, k.status);
  certificate_url = λ u e. k.certificate_url u (h.certificate_url u e);
}

pub Same-refl : (a : Authorization) → Same a a
Same-refl a = record {
  identifier_value = refl;
  identifier_type = refl;
  wildcard = refl;
  token = refl;
  key_authorization = refl;
}

Same-trans : (a b c : Authorization) → Same a b → Same b c → Same a c
Same-trans a b c h k = record {
  identifier_value = k.identifier_value ∙ h.identifier_value;
  identifier_type = k.identifier_type ∙ h.identifier_type;
  wildcard = k.wildcard ∙ h.wildcard;
  token = k.token ∙ h.token;
  key_authorization = k.key_authorization ∙ h.key_authorization;
}

module _ {ℓ} {V : Type ℓ} (R : V → V → Type 0) where
  pub Kept-refl : ((v : V) → R v v) → (d : Dict Str V) → Kept R d d
  Kept-refl r d u v h = (v, h, r v)

  Kept-trans :
      ((v w x : V) → R v w → R w x → R v x)
      → (d e f : Dict Str V) → Kept R d e
      → Kept R e f
      → Kept R d f
  Kept-trans trans d e f h k u v g =
      let (w, gw, vw) = h u v g in let (x, gx, wx) = k u w gw in (x, gx, trans v w x vw wx)

  pub Kept-put_fresh :
      ((v : V) → R v v) → (d : Dict Str V) (k : Str) (v : V) → get d k ≡ none → Kept R d (put d k v)
  Kept-put_fresh r d k v fresh u w g = (w, get-put_fresh d k u v w fresh g, r w)

  pub Kept-put :
      ((v : V) → R v v)
      → (d : Dict Str V) (k : Str) (v w : V) → get d k ≡ some w
      → R w v
      → Kept R d (put d k v)
  Kept-put r d k v w found wv u x g = elim (Bool-cases (str_Eq.beq k u)) [
    | inl same ↦
        let k-u = (str_Eq.beq_iff k u).0 same in
        let w-x = some-injective w x (sym found ∙ subst (λ i. get d i ≡ some x) (sym k-u) g) in
        (v, ground (arith, get-put d k u v), subst (λ y. R y v) w-x wv)
    | inr other ↦ (x, ground (arith, get-put d k u v), r x)
  ]

pub promote-Later : (s : State) (o : Order) → Later o (promote s o)
promote-Later s o = elim (promote-cases s o) [
  | inl same ↦ rw same (Later-refl o)
  | inr (pending, _, e) ↦ rw e (record {
    identifiers = refl;
    authz_urls = refl;
    finalize_url = refl;
    status = rw pending (omega arith);
    certificate_url = λ u h. h;
  })
]

pub answer_challenge-Same :
    (cfg : Config) (n : ℕ) (a : Authorization) → Same a (answer_challenge cfg n a)
unfolding answer_challenge
answer_challenge-Same cfg n a = record {
  identifier_value = ground arith;
  identifier_type = ground arith;
  wildcard = ground arith;
  token = ground arith;
  key_authorization = ground arith;
}

pub Advances-refl : (s : State) → Advances s s
Advances-refl s = record {
  accounts = Kept-refl (λ a a'. a' ≡ a) (λ a. refl) s.accounts;
  certificates = Kept-refl (λ c c'. c' ≡ c) (λ a. refl) s.certificates;
  authorizations = Kept-refl Same Same-refl s.authorizations;
  orders = Kept-refl Later Later-refl s.orders;
}

pub Advances-trans : (s t u : State) → Advances s t → Advances t u → Advances s u
Advances-trans s t u h k = record {
  accounts =
      Kept-trans (λ a a'. a' ≡ a) (λ a b c p q. q ∙ p) s.accounts t.accounts u.accounts h.accounts
        k.accounts;
  certificates =
      Kept-trans (λ a a'. a' ≡ a) (λ a b c p q. q ∙ p) s.certificates t.certificates u.certificates
        h.certificates k.certificates;
  authorizations =
      Kept-trans Same Same-trans s.authorizations t.authorizations u.authorizations h.authorizations
        k.authorizations;
  orders = Kept-trans Later Later-trans s.orders t.orders u.orders h.orders k.orders;
}

-- ===== src/Responder/Steps/Provenance.antt =====
-- Where the certificates come from: every one is for an order whose identifiers were all validated.
pub mod Grants
pub mod Keeps
use lacme.Prelude.{
  ℕ, suc, ◌≤◌, ◌≡◌, refl, sym, subst, ap, ◌∙◌, inl, inr, ◌⊎◌, Bool, true, false, not, ◌&&◌, Option,
  none, some, List, [], ◌∷◌, ◌++◌, Str, str_eq, str_Eq, drop, if◌then◌else◌, All, All-map, arith,
  Eq, Bool-cases, Option-cases, Result, ok,
}
use lacme.Prelude.Text.{codes, strip_prefix, starts_with, append-strip_prefix}
use lacme.Prelude.Dict.{Dict, get, put, get-put_self, Entries, Entries-put}
use lacme.Json.{Json}
use lacme.Identifiers.Values.{WireIdentifier, IdentifierValue, protocol_identifier_values}
use lacme.Identifiers.Csr.Binding.{Binds}
use lacme.Responder.State.{Authorization, AuthzStatus, Order, OrderStatus, State, Config, init}
use lacme.Responder.Orders.{
  new_authorization, promote, all_valid, record_certificate, place_order, read_csr,
}
use lacme.Responder.Challenges.{callback_identifier, answer_challenge}
use lacme.Responder.Request.{Scope, numbered}
use lacme.Responder.Steps.Advances.{Later, Same, Advances, Kept, rank}

abbrev pub past_pending : OrderStatus → Bool
past_pending OrderStatus.pending = false
past_pending OrderStatus.ready = true
past_pending OrderStatus.valid = true

module _ (cfg : Config) where
  -- The challenge of the authorization was answered with success: the responder approves all
  -- challenges, or the validator accepted the authorization's identifier in some request.
  pub Approved : Authorization → Type 0
  Approved a =
      (cfg.auto_approve ≡ true)
      ⊎ ((validate : ℕ → Str → Str → Str → Str → Bool) × (n : ℕ) × (cfg.challenge_validator
            ≡ some validate)
          × (validate n (callback_identifier a) a.identifier_type a.token a.key_authorization
              ≡ true))

  -- The authorization is for the identifier.
  pub record IsFor (a : Authorization) (ident : WireIdentifier) : Type 0 where
    pub value : callback_identifier a ≡ ident.value
    pub kind : a.identifier_type ≡ ident.kind

  -- URL by URL there is an authorization for the identifier, and it is approved if `needed` says so.
  abbrev pub Covers : Bool → Dict Str Authorization → List Str → List WireIdentifier → Type 0
  Covers needed auths [] [] = Unit
  Covers needed auths (url ∷ urls) (ident ∷ idents) =
      ((a : Authorization) × (get auths url ≡ some a)
        × IsFor a ident
        × (needed ≡ true → Approved a))
      × Covers needed auths urls idents
  Covers needed auths _ _ = ⊥

  -- The order that a certificate was issued for.
  pub record IssuedFor (s : State) (cert_url cert_pem : Str) : Type 0 where
    pub order_url : Str
    pub order : Order
    pub placed : get s.orders order_url ≡ some order
    pub done : order.status ≡ OrderStatus.valid
    pub linked : order.certificate_url ≡ some cert_url
    pub covered : Covers true s.authorizations order.authz_urls order.identifiers
    pub csr_b64 : Option Json
    pub csr_der : Str
    pub binds : Binds cfg.py cfg.x509 csr_b64 order.identifiers csr_der
    pub values : List (IdentifierValue cfg.py)
    pub ordered : protocol_identifier_values cfg.py order.identifiers ≡ ok values
    pub signed : cfg.issue_from_csr csr_der values ≡ some cert_pem

  pub record IsAuthorized (s : State) : Type 0 where
    pub approved : Entries (λ u a. a.status ≡ AuthzStatus.valid → Approved a) s.authorizations
    pub covered :
        Entries
          (λ u o. Covers (past_pending o.status) s.authorizations o.authz_urls o.identifiers)
          s.orders
    pub issued : Entries (IssuedFor s) s.certificates

  callback-Same :
      (a a' : Authorization) → Same a a' → callback_identifier a' ≡ callback_identifier a
  callback-Same a a' h = rw (h.wildcard, h.identifier_value) refl

  pub Approved-Same : (a a' : Authorization) → Same a a' → Approved a → Approved a'
  unfolding Approved
  Approved-Same a a' h (inl auto) = inl auto
  Approved-Same a a' h (inr (validate, n, given, accepts)) = inr (
    validate,
    n,
    given,
    rw (callback-Same a a' h, h.identifier_type, h.token, h.key_authorization) accepts,
  )

  IsFor-Same :
      (a a' : Authorization) (ident : WireIdentifier) → Same a a' → IsFor a ident → IsFor a' ident
  IsFor-Same a a' ident h r = record {
    value = callback-Same a a' h ∙ r.value;
    kind = h.identifier_type ∙ r.kind;
  }

  pub Covers-Kept :
      (needed : Bool) (auths auths' : Dict Str Authorization) (urls : List Str)
      (ids : List WireIdentifier)
      → Kept Same auths auths'
      → Covers needed auths urls ids
      → Covers needed auths' urls ids
  Covers-Kept needed auths auths' [] [] k h = h
  Covers-Kept needed auths auths' [] (ident ∷ ids) k h = absurd h
  Covers-Kept needed auths auths' (url ∷ urls) [] k h = absurd h
  Covers-Kept needed auths auths' (url ∷ urls) (ident ∷ ids) k ((a, found, is_for, fine), rest) =
      let (a', found', same) = k url a found in
      (
        (a', found', IsFor-Same a a' ident same is_for, λ e. Approved-Same a a' same (fine e)),
        Covers-Kept needed auths auths' urls ids k rest,
      )

  rank-valid : (st : OrderStatus) → rank OrderStatus.valid ≤ rank st → st ≡ OrderStatus.valid
  rank-valid OrderStatus.valid h = refl
  rank-valid OrderStatus.pending h = absurd (omega arith)
  rank-valid OrderStatus.ready h = absurd (omega arith)

  pub IssuedFor-Advances :
      (s t : State) (cert_url cert_pem : Str)
      → Advances s t
      → IssuedFor s cert_url cert_pem
      → IssuedFor t cert_url cert_pem
  IssuedFor-Advances s t cert_url cert_pem h r =
      let (order', placed, later) = h.orders r.order_url r.order r.placed in
      record {
        order_url = r.order_url;
        order = order';
        placed = placed;
        done =
            rank-valid order'.status
              (subst (λ st. rank st ≤ rank order'.status) r.done later.status);
        linked = later.certificate_url cert_url r.linked;
        covered =
            rw (later.authz_urls, later.identifiers)
              (Covers-Kept true s.authorizations t.authorizations r.order.authz_urls
                r.order.identifiers h.authorizations r.covered);
        csr_b64 = r.csr_b64;
        csr_der = r.csr_der;
        binds = rw later.identifiers r.binds;
        values = r.values;
        ordered = rw later.identifiers r.ordered;
        signed = r.signed;
      }

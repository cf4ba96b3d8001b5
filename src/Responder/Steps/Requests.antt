-- ===== src/Responder/Steps/Requests.antt =====
-- Every request is a sequence of steps.
use lacme.Prelude.{
  ℕ, suc, ◌≡◌, refl, sym, ap, ◌∙◌, Bool, true, false, Option, none, some, List, [], ◌∷◌, ◌++◌, Str,
  str_eq, str_Eq, Result, ok, raise, Bool-cases, Option-cases, inl, inr, ◌⊎◌, arith, Eq,
  if◌then◌else◌,
}
use lacme.Prelude.Text.{codes}
use lacme.Prelude.Dict
use lacme.Prelude.Dict.{Dict, get, put, get-put_self}
use lacme.Json.{Fields, find}
use lacme.Jose.{PayloadMode, object, empty}
use lacme.Identifiers.Values.{WireIdentifier}
use lacme.Responder.State.{Order, OrderStatus, State, Config, Outcome, sent, raised}
use lacme.Responder.Accounts.{
  read_account_request, register_account, handle_new_account, find_account, truthy,
}
use lacme.Responder.Orders.{
  read_order_request, handle_new_order, place_order, promote, read_csr, finalize_ready,
  add_authorizations, finalize_found, handle_finalize, order_url_of, handle_order, handle_cert,
  record_certificate, is_ready,
}
use lacme.Responder.Challenges.{find_challenge, handle_authz, handle_challenge}
use lacme.Responder.Replies.{Handler}
use lacme.Responder.Request.{
  Scope, read_valid_jws, Route, route, get_base_url, mounted_path, nonce_text,
}
use lacme.Responder.Serve.{with_jws, dispatch, respond, serve}
use lacme.Responder.Steps.{
  Step, Steps, here, next, next_nonce, account, place, promoted, challenged, issued,
}

Result-cases {ℓ} :
    {A : Type ℓ} (r : Result A)
    → ((a : A) × (r ≡ ok a)) ⊎ ((e : lacme.Prelude.Error) × (r ≡ raise e))
Result-cases (ok a) = inl (a, refl)
Result-cases (raise e) = inr (e, refl)

-- A response has the nonce; an exception that leaves a handler sends none.
abbrev pub BearsNonce : Str → Outcome → Type 0
BearsNonce nonce raised = Unit
BearsNonce nonce (sent r) = r.nonce ≡ nonce

module _ (cfg : Config) where
  single : {s t : State} → Step cfg s t → Steps cfg s t
  single st = next here st

  before : {s t u : State} → Step cfg s t → Steps cfg t u → Steps cfg s u
  before st here = single st
  before st (next r st') = next (before st r) st'

  -- A handler makes steps only, sends the nonce it was given, and draws none.
  abbrev Made : Str → State → Outcome × State → Type 0
  Made nonce s (outcome, t) =
      Steps cfg s t × BearsNonce nonce outcome × (t.nonce_counter ≡ s.nonce_counter)

  abbrev Makes : Str → Handler → Type 0
  Makes nonce h = (s : State) → Made nonce s (h s)

  after_step :
      {s t : State} (nonce : Str) (result : Outcome × State)
      → Step cfg s t
      → t.nonce_counter ≡ s.nonce_counter
      → Made nonce t result
      → Made nonce s result
  after_step nonce (outcome, u) st e (r, bears, kept) = (before st r, bears, kept ∙ e)

  add_authorizations-nonce :
      (base : Str) (ids : List WireIdentifier) (s : State)
      → (add_authorizations cfg base ids s).1.nonce_counter ≡ s.nonce_counter
  unfolding add_authorizations
  add_authorizations-nonce base [] s = refl
  add_authorizations-nonce base (ident ∷ ids) s = add_authorizations-nonce base ids _

  place-nonce :
      (base : Str) (ids : List WireIdentifier) (s : State)
      → (place_order cfg base ids s).1.nonce_counter ≡ s.nonce_counter
  unfolding place_order
  place-nonce base ids s = add_authorizations-nonce base ids _

  module _ (base nonce : Str) where
    register-Makes :
        (body : Fields) (thumbprint : Str)
        → Makes nonce (register_account base nonce body thumbprint)
    unfolding register_account
    register-Makes body thumbprint s =
        elim (Option-cases (find_account thumbprint (Dict.values s.accounts))) [
          | inr (acct, p) ↦ rw (p, register_account) (here, refl, refl)
          | inl p ↦
              rw (p, register_account)
                (elim (Bool-cases (truthy (find body (codes "onlyReturnExisting")))) [
                  | inl e ↦ rw e (here, refl, refl)
                  | inr e ↦ rw e (single (account base thumbprint _ p refl), refl, refl)
                ])
        ]

    pub register-Steps :
        (body : Fields) (thumbprint : Str) (s : State)
        → Steps cfg s (register_account base nonce body thumbprint s).1
    register-Steps body thumbprint s = (register-Makes body thumbprint s).0

    new_account-Makes : (raw : Str) → Makes nonce (handle_new_account cfg base nonce raw)
    unfolding handle_new_account
    new_account-Makes raw s = elim (Result-cases (read_account_request cfg raw)) [
      | inr (e, p) ↦ rw (p, handle_new_account) (here, refl, refl)
      | inl ((body, thumbprint), p) ↦ rw (p, handle_new_account) (register-Makes body thumbprint s)
    ]

    new_order-Makes : (raw : Str) → Makes nonce (handle_new_order cfg base nonce raw)
    unfolding handle_new_order
    new_order-Makes raw s = elim (Result-cases (read_order_request cfg raw)) [
      | inr (e, p) ↦ rw (p, handle_new_order) (here, refl, refl)
      | inl (ids, p) ↦
          rw (p, handle_new_order) (single (place base ids refl), refl, place-nonce base ids s)
    ]

    authz-Makes : (path : Str) → Makes nonce (handle_authz base nonce path)
    unfolding handle_authz
    authz-Makes path s = elim (Option-cases (get s.authorizations (base ++ path))) [
      | inl p ↦ rw (p, handle_authz) (here, refl, refl)
      | inr (authz, p) ↦ rw (p, handle_authz) (here, refl, refl)
    ]

    cert-Makes : (path : Str) → Makes nonce (handle_cert base nonce path)
    unfolding handle_cert
    cert-Makes path s = elim (Option-cases (get s.certificates (base ++ path))) [
      | inl p ↦ rw (p, handle_cert) (here, refl, refl)
      | inr (pem, p) ↦ rw (p, handle_cert) (here, refl, refl)
    ]

    order-Makes : (path : Str) → Makes nonce (handle_order base nonce path)
    unfolding handle_order
    order-Makes path s = elim (Option-cases (get s.orders (base ++ path))) [
      | inl p ↦ rw (p, handle_order) (here, refl, refl)
      | inr (order, p) ↦
          rw (p, handle_order) (single (promoted (base ++ path) order p refl), refl, refl)
    ]

    finalize_ready-Makes :
        (raw order_url : Str) (order : Order) (s : State)
        → get s.orders order_url ≡ some order
        → order.status ≡ OrderStatus.ready
        → Made nonce s (finalize_ready cfg base nonce raw order_url order s)
    unfolding finalize_ready record_certificate
    finalize_ready-Makes raw order_url order s found ready =
        elim (Result-cases (read_csr cfg raw order)) [
          | inr (e, p) ↦ rw (p, finalize_ready) (here, refl, refl)
          | inl ((der, ids), p) ↦
              rw (p, finalize_ready)
                (elim (Option-cases (cfg.issue_from_csr der ids)) [
                  | inl q ↦ rw q (here, tt, refl)
                  | inr (pem, q) ↦ rw q (
                    single (issued base order_url raw der pem order ids found ready p q refl),
                    refl,
                    refl,
                  )
                ])
        ]

    is_ready-status : (o : Order) → is_ready o ≡ true → o.status ≡ OrderStatus.ready
    is_ready-status o h = ground arith

    finalize-Makes : (path raw : Str) → Makes nonce (handle_finalize cfg base nonce path raw)
    unfolding handle_finalize finalize_found
    finalize-Makes path raw s =
        let url = order_url_of base path in
        elim (Option-cases (get s.orders url)) [
          | inl p ↦ rw (p, handle_finalize) (here, refl, refl)
          | inr (order, p) ↦
              rw (p, handle_finalize)
                (elim (Bool-cases (is_ready (promote s order))) [
                  | inr e ↦ rw (e, finalize_found) (single (promoted url order p refl), refl, refl)
                  | inl e ↦
                      rw (e, finalize_found)
                        (after_step nonce _ (promoted url order p refl) refl (
                          finalize_ready-Makes raw url (promote s order) _
                            (get-put_self s.orders url (promote s order))
                            (is_ready-status (promote s order) e)))
                ])
        ]

    challenge-Makes : (path : Str) → Makes nonce (handle_challenge cfg base nonce path)
    unfolding handle_challenge
    challenge-Makes path s = elim (Option-cases (find_challenge (base ++ path) s.authorizations)) [
      | inl p ↦ rw (p, handle_challenge) (here, refl, refl)
      | inr ((url, authz, is_dns), p) ↦
          rw (p, handle_challenge)
            (single (challenged (base ++ path) url authz is_dns p refl), refl, refl)
    ]

  with_jws-Makes :
      (mode : PayloadMode) (scope : Scope) (nonce : Str) (h : Str → Handler)
      → ((raw : Str) → Makes nonce (h raw))
      → Makes nonce (with_jws cfg mode scope nonce h)
  unfolding with_jws
  with_jws-Makes mode scope nonce h makes s = elim (Result-cases (read_valid_jws cfg mode scope)) [
    | inr (e, p) ↦ rw (p, with_jws) (here, refl, refl)
    | inl (raw, p) ↦ rw (p, with_jws) (makes raw s)
  ]

  dispatch-Makes :
      (scope : Scope) (base nonce path : Str) (r : Route)
      → Makes nonce (dispatch cfg scope base nonce path r)
  unfolding dispatch
  dispatch-Makes scope base nonce path Route.directory = λ s. (here, refl, refl)
  dispatch-Makes scope base nonce path Route.new_nonce = λ s. (here, refl, refl)
  dispatch-Makes scope base nonce path Route.new_account =
      with_jws-Makes object scope nonce _ (new_account-Makes base nonce)
  dispatch-Makes scope base nonce path Route.new_order =
      with_jws-Makes object scope nonce _ (new_order-Makes base nonce)
  dispatch-Makes scope base nonce path Route.authz =
      with_jws-Makes empty scope nonce _ (λ _. authz-Makes base nonce path)
  dispatch-Makes scope base nonce path Route.chall =
      with_jws-Makes object scope nonce _ (λ _. challenge-Makes base nonce path)
  dispatch-Makes scope base nonce path Route.finalize =
      with_jws-Makes object scope nonce _ (finalize-Makes base nonce path)
  dispatch-Makes scope base nonce path Route.order =
      with_jws-Makes empty scope nonce _ (λ _. order-Makes base nonce path)
  dispatch-Makes scope base nonce path Route.cert =
      with_jws-Makes empty scope nonce _ (λ _. cert-Makes base nonce path)
  dispatch-Makes scope base nonce path Route.ca_cert = λ s. (here, refl, refl)
  dispatch-Makes scope base nonce path Route.key_change =
      with_jws-Makes object scope nonce _ (λ _ s. (here, refl, refl))
  dispatch-Makes scope base nonce path Route.revoke =
      with_jws-Makes object scope nonce _ (λ _ s. (here, refl, refl))
  dispatch-Makes scope base nonce path Route.not_found = λ s. (here, refl, refl)

  respond-Made :
      (scope : Scope) (s : State)
      → Made (nonce_text (suc s.nonce_counter)) (next_nonce s) (respond cfg scope s)
  unfolding respond
  respond-Made scope s =
      dispatch-Makes scope (get_base_url cfg scope) (nonce_text (suc s.nonce_counter))
        (mounted_path scope) (route (mounted_path scope)) (next_nonce s)

  -- Whatever the request, the state that the responder is left in is reached by steps.
  pub serve-Steps : (scope : Scope) (s : State) → Steps cfg s (serve cfg scope s).1
  unfolding serve
  serve-Steps scope s = elim (Bool-cases (str_eq scope.kind (codes "http"))) [
    | inl p ↦ rw p (before (Step.nonce refl) (respond-Made scope s).0)
    | inr p ↦ rw p here
  ]

  -- The reply to a request has the nonce of the request's number, and takes one number.
  pub respond-nonce :
      (scope : Scope) (s : State)
      → BearsNonce (nonce_text (suc s.nonce_counter)) (respond cfg scope s).0
        × ((respond cfg scope s).1.nonce_counter ≡ suc s.nonce_counter)
  respond-nonce scope s = let (_, bears, counted) = respond-Made scope s in (bears, counted)

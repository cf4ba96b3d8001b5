-- ===== src/Issuing/Issue.antt =====
-- `Client.issue`.
use lacme.Prelude.{
  Bool, true, false, none, some, List, [], ◌∷◌, ◌++◌, map, filter, if◌then◌else◌, Str, str_eq,
  str_Eq, pair_Eq, Result, value_error, runtime_error,
}
use lacme.Prelude.Text.{codes, is_ascii}
use lacme.Prelude.Dict
use lacme.Prelude.Dict.{Dict}
use lacme.Jose.{or_value_error}
use lacme.Identifiers.Platform.{Platform}
use lacme.Identifiers.X509.{X509}
use lacme.Identifiers.Values.{WireIdentifier, IdentifierKey}
use lacme.Identifiers.Csr.{certificate_identifier_values, identifier_key_set, same_set}
use lacme.Client.Polling.{OrderStatus}
use lacme.Issuing.Monad.{
  from_call, from_check, rate_limit_prevented, acme_error, done, threw, Provisioned, Progress, Step,
  give, throw, check, require, ◌>>=◌, ◌>>◌, finally,
}
use lacme.Issuing.Calls.{Authorization, Order, IssuedBundle, value, exception, Calls, call, change}
use lacme.Issuing.Effective.{Effective, Plan, Arguments, plan, route_of}

module _ (py : Platform) (x509 : X509 py) {W H E Key : Type 0}
    (calls : Calls py x509 W H E Key) where
  -- the check of the rate limits
  abbrev pub check_limits : List Str → Step W H E (Unit {0})
  check_limits domains = elim calls.rate_limit_allows [
    | none ↦ give tt
    | some allows ↦ call (allows domains) >>= λ allowed. require allowed rate_limit_prevented
  ]

  abbrev pub ensure_account : Step W H E (Unit {0})
  ensure_account s =
      if calls.has_account_url s.world then (done tt, s) else call calls.create_account s

  -- `get_authorizations`
  unfoldable pub get_authorizations : List Str → Step W H E (List Authorization)
  get_authorizations [] = give []
  get_authorizations (url ∷ urls) = do
    authz ← call (calls.get_authorization url)
    rest ← get_authorizations urls
    give (authz ∷ rest)

  abbrev pub authorize_key : Str → Step W H E Str
  authorize_key token s = elim (calls.key_authorization token s.world) [
    | none ↦ (threw (from_check runtime_error), s)
    | some ka ↦ (done ka, s)
  ]

  -- `handler.provision(domain, token, ka)`, which may raise; its arguments are kept in `asked`
  unfoldable pub ask : H → Str → Str → Str → Step W H E (Unit {0})
  ask handler domain token ka s = call (calls.provision handler domain token ka) (record s {
    asked = s.asked ++ record { domain = domain; token = token; handler = handler } ∷ [];
  })

  -- `provisioned.append(...)`
  abbrev pub append_provisioned : Provisioned H → Step W H E (Unit {0})
  append_provisioned p s = (done tt, record s { provisioned = s.provisioned ++ p ∷ [] })

  -- one round of the first loop, which returns the authorization's entry of `authorization_routes`
  unfoldable pub solve_one :
      Dict IdentifierKey (Effective H) → Authorization → Step W H E (Effective H)
  unfolding route_of ask
  solve_one effective authz = do
    (route, chall) ← check (route_of py effective authz)
    ka ← authorize_key chall.token
    ask route.handler route.value chall.token ka
    append_provisioned
        (record { domain = route.value; token = chall.token; handler = route.handler })
    call (calls.respond_to_challenge chall)
    give route

  unfoldable pub solve_each :
      Dict IdentifierKey (Effective H)
      → List Authorization
      → Dict Str (Effective H)
      → Step W H E (Dict Str (Effective H))
  unfolding solve_one Dict.put
  solve_each effective [] routes = give routes
  solve_each effective (authz ∷ authzs) routes = do
    route ← solve_one effective authz
    solve_each effective authzs (Dict.put routes authz.url route)

  -- the event ChallengeFailed for an exception of the polling
  abbrev pub emit_failed : Dict Str (Effective H) → Str → E → W → W
  emit_failed routes url e w = elim (Dict.get routes url) [
    | none ↦ w
    | some route ↦ calls.emit_challenge_failed route.value route.challenge_type e w
  ]

  abbrev pub poll_one : Dict Str (Effective H) → Authorization → Step W H E (Unit {0})
  poll_one routes authz s =
      let (reply, w) = calls.poll_authorization authz.url s.world in
      elim reply [
        | value _ ↦ (done tt, record s { world = w })
        | exception e ↦ (threw (from_call e), record s { world = emit_failed routes authz.url e w })
      ]

  unfoldable pub poll_each : Dict Str (Effective H) → List Authorization → Step W H E (Unit {0})
  unfolding Dict.get
  poll_each routes [] = give tt
  poll_each routes (authz ∷ authzs) = do poll_one routes authz; poll_each routes authzs

  abbrev pub new_key : Step W H E Key
  new_key s = let (key, w) = calls.generate_key s.world in (done key, record s { world = w })

  abbrev pub is_ready : Order → Bool
  is_ready order = elim order.status [ OrderStatus.ready ↦ true | _ ↦ false ]

  abbrev pub is_valid : Order → Bool
  is_valid order = elim order.status [ OrderStatus.valid ↦ true | _ ↦ false ]

  abbrev pub certificate_url : Order → Step W H E Str
  certificate_url order = elim order.certificate [
    | none ↦ throw (from_check runtime_error)
    | some url ↦ give url
  ]

  -- the last steps of the `try` block, from the CSR to the certificate
  unfoldable pub collect : Plan py H → Order → Key → Step W H E (Key × Str)
  collect p ready key = do
    csr_der ← call (calls.generate_csr key p.values)
    finalized ← if is_ready ready then call (calls.finalize_order ready csr_der) else give ready
    valid ← if is_valid finalized then give finalized else call (calls.poll_order finalized.url)
    url ← certificate_url valid
    fullchain ← call (calls.download_certificate url)
    give (key, fullchain)

  -- the `try` block
  unfoldable pub solve : Plan py H → Order → List Authorization → Step W H E (Key × Str)
  unfolding solve_each poll_each collect
  solve p order authzs = do
    routes ← solve_each p.effective authzs []
    poll_each routes authzs
    ready ← call (calls.poll_order_ready order.url)
    key ← new_key
    collect p ready key

  -- the `finally` block: an exception of a handler is logged, and the loop goes on
  unfoldable pub deprovision_each : List (Provisioned H) → Progress W H → Progress W H
  deprovision_each [] s = s
  deprovision_each (p ∷ ps) s = deprovision_each ps (record s {
    world = (calls.deprovision p.handler p.domain p.token s.world).1;
    deprovisioned = s.deprovisioned ++ p ∷ [];
  })

  abbrev pub deprovision_all : Progress W H → Progress W H
  deprovision_all s = deprovision_each s.provisioned s

  abbrev pub first_of : List Str → Str
  first_of [] = []
  first_of (d ∷ ds) = d

  abbrev pub leaf_of : List x509.Certificate → Result x509.Certificate
  leaf_of [] = Result.raise runtime_error
  leaf_of (certificate ∷ chain) = Result.ok certificate

  -- `except (TypeError, ValueError)`, which are all that the function raises
  abbrev pub or_acme_error {ℓ} : {A : Type ℓ} → Result A → Step W H E A
  or_acme_error (Result.ok a) = give a
  or_acme_error (Result.raise e) = throw acme_error

  -- the checks of the certificate, and the bundle
  unfoldable pub build_bundle : Plan py H → Key → Str → Step W H E IssuedBundle
  unfolding certificate_identifier_values identifier_key_set
  build_bundle p key fullchain = do
    require (is_ascii fullchain) (from_check value_error)
    chain ← check (or_value_error (x509.load_pem_x509_certificates fullchain))
    certificate ← check (leaf_of chain)
    found ← or_acme_error (certificate_identifier_values py x509 certificate)
    found_keys ← check (identifier_key_set py x509 found)
    wanted_keys ← check (identifier_key_set py x509 p.values)
    require (same_set found_keys wanted_keys) acme_error
    require (str_eq (calls.certificate_public_key certificate) (calls.local_public_key key))
        acme_error
    λ s. (
      done (record {
        domain = first_of (map (λ i. i.value) p.identifiers);
        domains = map (λ i. i.value) p.identifiers;
        cert_pem = calls.certificate_pem certificate;
        fullchain_pem = fullchain;
        key_pem = calls.private_key_pem key;
        issued_at = calls.now s.world;
        expires_at = calls.not_valid_after certificate;
      }),
      s,
    )

  -- `_store.save_cert`, if there is a store
  abbrev pub save : IssuedBundle → Step W H E IssuedBundle
  save bundle = elim calls.save_cert [ none ↦ give bundle | some f ↦ call (f bundle) ]

  abbrev pub record_domains : List Str → Step W H E (Unit {0})
  record_domains domains = elim calls.record_issuance [ none ↦ give tt | some f ↦ call (f domains) ]

  -- the DNS names among the identifiers
  abbrev pub rate_limit_domains : List WireIdentifier → List Str
  rate_limit_domains identifiers =
      map (λ i. i.value) (filter (λ i. str_eq i.kind (codes "dns")) identifiers)

  -- from the order to the certificate, with the challenges cleaned up in any case
  abbrev pub obtain : Plan py H → Step W H E (Key × Str)
  obtain p = do
    order ← call (calls.create_order p.values)
    authzs ← get_authorizations order.authorizations
    finally (solve p order authzs) deprovision_all

  -- from the certificate to the end
  unfoldable pub conclude : Plan py H → Key × Str → Step W H E IssuedBundle
  unfolding build_bundle filter
  conclude p (key, fullchain) = do
    bundle ← build_bundle p key fullchain
    saved ← save bundle
    record_domains (rate_limit_domains p.identifiers)
    change (calls.emit_issued saved)
    give saved

  -- what follows the check of the rate limits
  unfoldable pub issue_within_limits : Plan py H → Step W H E IssuedBundle
  unfolding get_authorizations solve deprovision_each conclude filter
  issue_within_limits p = do
    call calls.ensure_account_key
    ensure_account
    got ← obtain p
    conclude p got

  unfoldable pub issue_plan : Plan py H → Step W H E IssuedBundle
  unfolding filter issue_within_limits
  issue_plan p = do check_limits (rate_limit_domains p.identifiers); issue_within_limits p

  -- `issue`
  unfoldable pub issue_certificate : Arguments py H → Step W H E IssuedBundle
  unfolding plan issue_plan
  issue_certificate args = do p ← check (plan py args); issue_plan p

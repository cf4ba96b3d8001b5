-- ===== src/Responder/Serve.antt =====
-- `ACMEResponder.__call__`: the nonce, the route and its handler. A handler takes the state to the state that it leaves and to
-- what it sends. No handler awaits anything between its reads and its writes but the challenge
-- validator, after which the handler writes two fields of an authorization that is never removed; so a
-- handler is one step, and concurrent requests are sequences of steps.
use lacme.Prelude.{
  suc, false, Option, none, some, [], ◌∷◌, ◌++◌, if◌then◌else◌, Str, str_eq, str_Eq, ok, raise,
}
use lacme.Prelude.Text.{codes}
use lacme.Json.{text, obj, end}
use lacme.Jose.{PayloadMode, object, empty}
use lacme.Responder.State.{State, Config, pem, Outcome, sent}
use lacme.Responder.Request.{
  Scope, read_valid_jws, get_base_url, mounted_path, Route, route, nonce_text,
}
use lacme.Responder.Accounts.{handle_new_account}
use lacme.Responder.Orders.{handle_new_order, handle_finalize, handle_order, handle_cert}
use lacme.Responder.Challenges.{handle_authz, handle_challenge}
use lacme.Responder.Replies.{Handler, send_json, send_error, members, not_found_body, problem}

abbrev handle_directory : Str → Str → Handler
handle_directory base_url nonce s = (
  send_json nonce 200
      (obj (
        members (
          (codes "newNonce", text (base_url ++ codes "/new-nonce"))
          ∷ (codes "newAccount", text (base_url ++ codes "/new-account"))
          ∷ (codes "newOrder", text (base_url ++ codes "/new-order"))
          ∷ (codes "revokeCert", text (base_url ++ codes "/revoke-cert"))
          ∷ (codes "keyChange", text (base_url ++ codes "/key-change"))
          ∷ [])))
      none,
  s,
)

-- `_handle_ca_cert`
abbrev handle_ca_cert : Config → Str → Handler
handle_ca_cert cfg nonce s = (
  sent (record {
    status = 200;
    nonce = nonce;
    location = none;
    problem = false;
    body = pem cfg.root_cert_pem;
  }),
  s,
)

-- `_handle_key_change` and `_handle_revoke`, and the route for a nonce: an empty object
abbrev pub accept : Str → Handler
accept nonce s = (send_json nonce 200 (obj end) none, s)

-- `raw = await self._read_valid_jws(...)`, with the handler that follows
unfoldable pub with_jws : Config → PayloadMode → Scope → Str → (Str → Handler) → Handler
with_jws cfg mode scope nonce handler s = elim (read_valid_jws cfg mode scope) [
  | raise _ ↦ (send_error nonce 400 (problem (codes "malformed")), s)
  | ok raw ↦ handler raw s
]

unfoldable pub dispatch : Config → Scope → Str → Str → Str → Route → Handler
dispatch cfg scope base nonce path Route.directory = handle_directory base nonce
dispatch cfg scope base nonce path Route.new_nonce = accept nonce
dispatch cfg scope base nonce path Route.new_account =
    with_jws cfg object scope nonce (handle_new_account cfg base nonce)
dispatch cfg scope base nonce path Route.new_order =
    with_jws cfg object scope nonce (handle_new_order cfg base nonce)
dispatch cfg scope base nonce path Route.authz =
    with_jws cfg empty scope nonce (λ _. handle_authz base nonce path)
dispatch cfg scope base nonce path Route.chall =
    with_jws cfg object scope nonce (λ _. handle_challenge cfg base nonce path)
dispatch cfg scope base nonce path Route.finalize =
    with_jws cfg object scope nonce (handle_finalize cfg base nonce path)
dispatch cfg scope base nonce path Route.order =
    with_jws cfg empty scope nonce (λ _. handle_order base nonce path)
dispatch cfg scope base nonce path Route.cert =
    with_jws cfg empty scope nonce (λ _. handle_cert base nonce path)
dispatch cfg scope base nonce path Route.ca_cert = handle_ca_cert cfg nonce
dispatch cfg scope base nonce path Route.key_change =
    with_jws cfg object scope nonce (λ _. accept nonce)
dispatch cfg scope base nonce path Route.revoke =
    with_jws cfg object scope nonce (λ _. accept nonce)
dispatch cfg scope base nonce path Route.not_found = λ s. (send_error nonce 404 not_found_body, s)

-- one HTTP request
unfoldable pub respond : Config → Scope → Handler
respond cfg scope s =
    let n = suc s.nonce_counter in
    let path = mounted_path scope in
    dispatch cfg scope (get_base_url cfg scope) (nonce_text n) path (route path)
      (record s { nonce_counter = n })

-- `__call__`: what is not HTTP gets no answer
unfoldable pub serve : Config → Scope → State → Option Outcome × State
serve cfg scope s =
    if str_eq scope.kind (codes "http")
    then (let (outcome, s') = respond cfg scope s in (some outcome, s'))
    else (none, s)

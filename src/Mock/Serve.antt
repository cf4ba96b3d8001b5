-- ===== src/Mock/Serve.antt =====
-- `_handle_request` of testing.py: the nonce, the check of the JWS, and the handler of the path.
use lacme.Prelude.{
  ℕ, suc, Bool, ◌||◌, none, List, [], ◌∷◌, ◌++◌, any, if◌then◌else◌, Str, str_eq, ok, raise,
}
use lacme.Prelude.Text.{codes, starts_with}
use lacme.Json.{text, obj, end}
use lacme.Jose.{PayloadMode, object, empty, parse_unverified_jws}
use lacme.Responder.Request.{nonce_text}
use lacme.Responder.Replies.{members}
use lacme.Mock.State.{
  MockServer, MockRequest, mock_base_url, no_content, returned, MockHandler, json_response,
  mock_not_found, problem_response,
}
use lacme.Mock.Accounts.{mock_new_account}
use lacme.Mock.Orders.{mock_new_order, mock_finalize, mock_order, mock_cert}
use lacme.Mock.Challenges.{mock_authz, mock_answer_challenge}

abbrev pub mock_directory : MockServer → Str → MockHandler
mock_directory server nonce s =
    let base_url = mock_base_url server in
    (
      json_response nonce 200
          (obj (
            members (
              (codes "newNonce", text (base_url ++ codes "/new-nonce"))
              ∷ (codes "newAccount", text (base_url ++ codes "/new-account"))
              ∷ (codes "newOrder", text (base_url ++ codes "/new-order"))
              ∷ (codes "revokeCert", text (base_url ++ codes "/revoke-cert"))
              ∷ (codes "keyChange", text (base_url ++ codes "/key-change"))
              ∷ [])))
          none,
      s,
    )

-- a response without content
abbrev pub bare : ℕ → Str → MockHandler
bare status nonce s =
    (returned (record { status = status; nonce = nonce; location = none; body = no_content }), s)

abbrev pub mock_new_nonce : Str → Str → MockHandler
mock_new_nonce method nonce =
    if str_eq method (codes "HEAD") then bare 200 nonce else bare 204 nonce

-- `path.startswith(prefixes)`
abbrev pub starts_with_any : List Str → Str → Bool
starts_with_any prefixes path = any (starts_with path) prefixes

abbrev pub is_jws_endpoint : Str → Bool
is_jws_endpoint path =
    any (str_eq path)
      (codes "/new-account" ∷ codes "/new-order" ∷ codes "/revoke-cert" ∷ codes "/key-change" ∷ [])
    || starts_with_any
        (codes "/authz/"
          ∷ codes "/chall/"
          ∷ codes "/finalize/"
          ∷ codes "/order/"
          ∷ codes "/cert/"
          ∷ [])
        path

abbrev pub mock_payload_mode : Str → PayloadMode
mock_payload_mode path =
    if starts_with_any (codes "/authz/" ∷ codes "/order/" ∷ codes "/cert/" ∷ []) path
    then empty
    else object

-- the handlers, in the order of the tests
unfoldable pub mock_route : MockServer → Str → MockRequest → MockHandler
unfolding mock_new_account mock_new_order mock_authz mock_answer_challenge mock_finalize mock_order
    mock_cert starts_with
mock_route server nonce request =
    if str_eq request.path (codes "/new-account")
    then mock_new_account server nonce request.content
    else if str_eq request.path (codes "/new-order")
    then mock_new_order server nonce request.content
    else if starts_with request.path (codes "/authz/")
    then mock_authz server nonce request.path
    else if starts_with request.path (codes "/chall/")
    then mock_answer_challenge server nonce request.path
    else if starts_with request.path (codes "/finalize/")
    then mock_finalize server nonce request.path request.content
    else if starts_with request.path (codes "/order/")
    then mock_order server nonce request.path
    else if starts_with request.path (codes "/cert/")
    then mock_cert server nonce request.path
    else if str_eq request.path (codes "/revoke-cert")
    then bare 200 nonce
    else if str_eq request.path (codes "/key-change")
    then (λ s. (json_response nonce 200 (obj end) none, s))
    else (λ s. (mock_not_found nonce, s))

-- what comes after the first two paths
unfoldable pub mock_checked : MockServer → Str → MockRequest → MockHandler
unfolding mock_route starts_with
mock_checked server nonce request s =
    if is_jws_endpoint request.path
    then elim (parse_unverified_jws server.outside.decoders (mock_payload_mode request.path)
        request.content) [
          | raise _ ↦ (problem_response nonce 400 (codes "malformed"), s)
          | ok _ ↦ mock_route server nonce request s
        ]
    else mock_route server nonce request s

unfoldable pub handle_request : MockServer → MockRequest → MockHandler
unfolding mock_checked nonce_text
handle_request server request s =
    let n = suc s.nonce_counter in
    let nonce = nonce_text n in
    let counted = record s { nonce_counter = n } in
    if str_eq request.path (codes "/directory")
    then mock_directory server nonce counted
    else if str_eq request.path (codes "/new-nonce")
    then mock_new_nonce request.method nonce counted
    else mock_checked server nonce request counted

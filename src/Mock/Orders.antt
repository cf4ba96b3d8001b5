-- ===== src/Mock/Orders.antt =====
-- `_handle_new_order`, `_handle_finalize`, `_handle_order` and `_handle_cert` of testing.py.
use lacme.Prelude.{
  ℕ, suc, Bool, true, false, ◌&&◌, none, some, List, [], ◌∷◌, ◌++◌, map, if◌then◌else◌, Str, str_eq,
  str_Eq, drop, Error, Result, ok, raise, unsupported_identifier_type, ◌>>=◌,
}
use lacme.Prelude.Text.{codes, starts_with, last_or, split}
use lacme.Prelude.Dict
use lacme.Prelude.Dict.{Dict}
use lacme.Base64.{b64url_encode}
use lacme.Json.{Json, text, arr, obj, of_list, find}
use lacme.Jose.{object, parse_unverified_jws, or_value_error}
use lacme.Identifiers.Values.{WireIdentifier, IdentifierValue, normalize_protocol_identifiers}
use lacme.Identifiers.Values.RoundTrip.{to_dict}
use lacme.Identifiers.Csr.{decode_and_validate_csr}
use lacme.Responder.State.{OrderStatus, AuthzStatus, ChallengeStatus}
use lacme.Responder.Request.{numbered}
use lacme.Responder.Replies.{members, order_status_text}
use lacme.Mock.State.{
  MockOrder, MockAuthorization, MockState, MockServer, mock_base_url, pem_chain, returned, failed,
  MockHandler, json_response, mock_not_found, problem_response,
}

unfoldable pub mock_read_order : MockServer → Str → Result (List WireIdentifier)
mock_read_order server content = do
  (protected, body) ← parse_unverified_jws server.outside.decoders object content
  identifiers ← or_value_error (find body (codes "identifiers"))
  normalize_protocol_identifiers server.outside.py identifiers

abbrev pub mock_is_wildcard : WireIdentifier → Bool
mock_is_wildcard ident = str_eq ident.kind (codes "dns") && starts_with ident.value (codes "*.")

unfoldable pub mock_authorization : MockServer → ℕ → WireIdentifier → MockAuthorization
mock_authorization server n ident =
    let chall_url = numbered (mock_base_url server) (codes "chall") n in
    record {
      url = numbered (mock_base_url server) (codes "authz") n;
      domain = if mock_is_wildcard ident then drop 2 ident.value else ident.value;
      identifier_type = ident.kind;
      wildcard = mock_is_wildcard ident;
      status = AuthzStatus.pending;
      token = b64url_encode (server.outside.token_bytes n);
      challenge_url = chall_url;
      dns_challenge_url = chall_url ++ codes "-dns";
      challenge_status = ChallengeStatus.pending;
    }

-- the loop over the identifiers
unfoldable pub mock_authorize : MockServer → List WireIdentifier → MockState → List Str × MockState
unfolding mock_authorization
mock_authorize server [] s = ([], s)
mock_authorize server (ident ∷ idents) s =
    let n = suc s.authz_counter in
    let authz = mock_authorization server n ident in
    let (urls, s') = mock_authorize server idents (record s {
      authorizations = Dict.put s.authorizations authz.url authz;
      authz_counter = n;
    }) in
    (authz.url ∷ urls, s')

unfoldable pub mock_place_order :
    MockServer → List WireIdentifier → MockState → MockOrder × MockState
unfolding mock_authorize
mock_place_order server identifiers s =
    let n = suc s.order_counter in
    let (urls, s') = mock_authorize server identifiers (record s { order_counter = n }) in
    let order : MockOrder = record {
      url = numbered (mock_base_url server) (codes "order") n;
      identifiers = identifiers;
      status = OrderStatus.pending;
      authz_urls = urls;
      finalize_url = numbered (mock_base_url server) (codes "finalize") n;
      certificate_url = none;
    } in
    (order, record s' { orders = Dict.put s'.orders order.url order })

-- the bodies of newOrder, finalize and order
unfoldable pub mock_order_body : MockOrder → Json
mock_order_body order =
    let common =
      (codes "status", text (order_status_text order.status))
      ∷ (codes "identifiers", arr (of_list (map to_dict order.identifiers)))
      ∷ (codes "authorizations", arr (of_list (map text order.authz_urls)))
      ∷ (codes "finalize", text order.finalize_url)
      ∷ [] in
    elim order.certificate_url [
      | none ↦ obj (members common)
      | some url ↦ obj (members (common ++ (codes "certificate", text url) ∷ []))
    ]

abbrev pub mock_order_error : Error → Str
mock_order_error unsupported_identifier_type = codes "unsupportedIdentifier"
mock_order_error _ = codes "malformed"

unfoldable pub mock_new_order : MockServer → Str → Str → MockHandler
unfolding mock_read_order mock_place_order mock_order_body
mock_new_order server nonce content s = elim (mock_read_order server content) [
  | raise e ↦ (problem_response nonce 400 (mock_order_error e), s)
  | ok identifiers ↦
      let (order, s') = mock_place_order server identifiers s in
      (json_response nonce 201 (mock_order_body order) (some order.url), s')
]

unfoldable pub mock_all_valid : MockState → List Str → Bool
mock_all_valid s [] = true
mock_all_valid s (url ∷ urls) =
    elim (Dict.get s.authorizations url) [
      | none ↦ false
      | some authz ↦ elim authz.status [ AuthzStatus.valid ↦ true | _ ↦ false ]
    ]
    && mock_all_valid s urls

-- "pending" to "ready", if all authorizations are valid
unfoldable pub mock_promote : MockState → MockOrder → MockOrder
unfolding mock_all_valid
mock_promote s order = elim order.status [
  | OrderStatus.pending ↦
      if mock_all_valid s order.authz_urls
      then record order { status = OrderStatus.ready }
      else order
  | _ ↦ order
]

-- The order is the object that the dictionary holds, so its change is a write under its key.
abbrev pub mock_store_order : Str → MockOrder → MockState → MockState
mock_store_order url order s = record s { orders = Dict.put s.orders url order }

abbrev pub mock_is_ready : MockOrder → Bool
mock_is_ready order = elim order.status [ OrderStatus.ready ↦ true | _ ↦ false ]

unfoldable pub mock_read_csr :
    (server : MockServer)
    → Str
    → MockOrder
    → Result (Str × List (IdentifierValue server.outside.py))
mock_read_csr server content order = do
  (protected, body) ← parse_unverified_jws server.outside.decoders object content
  decode_and_validate_csr server.outside.py server.outside.x509 (find body (codes "csr"))
      order.identifiers

-- The counter goes up before the certificate is made, and stays if that raises.
unfoldable pub mock_issue : MockServer → Str → Str → Str → MockOrder → MockHandler
unfolding mock_read_csr mock_order_body
mock_issue server nonce content order_url order s = elim (mock_read_csr server content order) [
  | raise _ ↦ (problem_response nonce 400 (codes "badCSR"), s)
  | ok (csr_der, csr_identifiers) ↦
      let n = suc s.cert_counter in
      let cert_url = numbered (mock_base_url server) (codes "cert") n in
      let counted = record s { cert_counter = n } in
      elim (server.outside.issue_from_csr csr_der csr_identifiers) [
        | none ↦ (failed, counted)
        | some cert_pem ↦
            let issued = record order {
              status = OrderStatus.valid;
              certificate_url = some cert_url;
            } in
            (
              json_response nonce 200 (mock_order_body issued) (some order_url),
              record counted {
                certificates = Dict.put s.certificates cert_url cert_pem;
                orders = Dict.put s.orders order_url issued;
              },
            )
      ]
]

unfoldable pub mock_finalize_found : MockServer → Str → Str → Str → MockOrder → MockHandler
unfolding mock_promote mock_issue
mock_finalize_found server nonce content order_url found s =
    let order = mock_promote s found in
    let s' = mock_store_order order_url order s in
    if mock_is_ready order
    then mock_issue server nonce content order_url order s'
    else (problem_response nonce 403 (codes "orderNotReady"), s')

unfoldable pub mock_finalize : MockServer → Str → Str → Str → MockHandler
unfolding mock_finalize_found
mock_finalize server nonce path content s =
    let order_url = mock_base_url server ++ codes "/order/" ++ last_or [] (split b'/' path) in
    elim (Dict.get s.orders order_url) [
      | none ↦ (mock_not_found nonce, s)
      | some found ↦ mock_finalize_found server nonce content order_url found s
    ]

unfoldable pub mock_order : MockServer → Str → Str → MockHandler
unfolding mock_promote mock_order_body
mock_order server nonce path s =
    let url = mock_base_url server ++ path in
    elim (Dict.get s.orders url) [
      | none ↦ (mock_not_found nonce, s)
      | some found ↦
          let order = mock_promote s found in
          (json_response nonce 200 (mock_order_body order) (some url), mock_store_order url order s)
    ]

unfoldable pub mock_cert : MockServer → Str → Str → MockHandler
mock_cert server nonce path s = elim (Dict.get s.certificates (mock_base_url server ++ path)) [
  | none ↦ (mock_not_found nonce, s)
  | some pem ↦
      (returned (record { status = 200; nonce = nonce; location = none; body = pem_chain pem }), s)
]

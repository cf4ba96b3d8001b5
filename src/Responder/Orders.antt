-- ===== src/Responder/Orders.antt =====
-- `_handle_new_order`, `_handle_finalize`, `_handle_order` and `_handle_cert`.
use lacme.Prelude.{
  ℕ, suc, Bool, true, false, ◌&&◌, none, some, List, [], ◌∷◌, ◌++◌, if◌then◌else◌, Str, str_eq,
  str_Eq, drop, Error, Result, ok, raise, unsupported_identifier_type, ◌>>=◌,
}
use lacme.Prelude.Text.{codes, starts_with, last_or, split}
use lacme.Prelude.Dict
use lacme.Prelude.Dict.{Dict}
use lacme.Base64.{b64url_encode}
use lacme.Json.{find}
use lacme.Jose.{object, parse_unverified_jws, or_value_error}
use lacme.Identifiers.Values.{WireIdentifier, IdentifierValue, normalize_protocol_identifiers}
use lacme.Identifiers.Csr.{decode_and_validate_csr}
use lacme.Responder.State.{
  Order, OrderStatus, Authorization, AuthzStatus, ChallengeStatus, State, Config, pem, sent, raised,
}
use lacme.Responder.Request.{numbered}
use lacme.Responder.Replies.{Handler, send_json, send_error, not_found_body, problem, order_body}

-- A wildcard name loses its `*.`, and the authorization is marked.
abbrev pub is_wildcard : WireIdentifier → Bool
is_wildcard ident = str_eq ident.kind (codes "dns") && starts_with ident.value (codes "*.")

unfoldable pub new_authorization : Config → Str → ℕ → WireIdentifier → Authorization
new_authorization cfg base_url n ident = record {
  url = numbered base_url (codes "authz") n;
  identifier_value = if is_wildcard ident then drop 2 ident.value else ident.value;
  identifier_type = ident.kind;
  wildcard = is_wildcard ident;
  status = AuthzStatus.pending;
  token = b64url_encode (cfg.token_bytes n);
  challenge_url = numbered base_url (codes "chall") n;
  dns_challenge_url = numbered base_url (codes "chall") n ++ codes "-dns";
  challenge_status = ChallengeStatus.pending;
  key_authorization = [];
}

-- The loop over the identifiers: the URLs in order, and the state.
unfoldable pub add_authorizations : Config → Str → List WireIdentifier → State → List Str × State
add_authorizations cfg base_url [] s = ([], s)
add_authorizations cfg base_url (ident ∷ idents) s =
    let n = suc s.authz_counter in
    let authz = new_authorization cfg base_url n ident in
    let (urls, s') = add_authorizations cfg base_url idents (record s {
      authorizations = Dict.put s.authorizations authz.url authz;
      authz_counter = n;
    }) in
    (authz.url ∷ urls, s')

-- the section under the lock
unfoldable pub place_order : Config → Str → List WireIdentifier → State → Order × State
place_order cfg base_url identifiers s =
    let n = suc s.order_counter in
    let (urls, s') = add_authorizations cfg base_url identifiers (record s { order_counter = n }) in
    let order : Order = record {
      url = numbered base_url (codes "order") n;
      identifiers = identifiers;
      status = OrderStatus.pending;
      authz_urls = urls;
      finalize_url = numbered base_url (codes "finalize") n;
      certificate_url = none;
    } in
    (order, record s' { orders = Dict.put s'.orders order.url order })

unfoldable pub read_order_request : Config → Str → Result (List WireIdentifier)
read_order_request cfg raw = do
  (protected, body) ← parse_unverified_jws cfg.decoders object raw
  identifiers ← or_value_error (find body (codes "identifiers"))
  normalize_protocol_identifiers cfg.py identifiers

abbrev pub order_error : Error → Str
order_error unsupported_identifier_type = codes "unsupportedIdentifier"
order_error _ = codes "malformed"

unfoldable pub handle_new_order : Config → Str → Str → Str → Handler
handle_new_order cfg base_url nonce raw s = elim (read_order_request cfg raw) [
  | raise e ↦ (send_error nonce 400 (problem (order_error e)), s)
  | ok identifiers ↦
      let (order, s') = place_order cfg base_url identifiers s in
      (send_json nonce 201 (order_body order) (some order.url), s')
]

-- every authorization of the order is there and valid
unfoldable pub all_valid : State → List Str → Bool
all_valid s [] = true
all_valid s (url ∷ urls) =
    elim (Dict.get s.authorizations url) [
      | none ↦ false
      | some authz ↦ elim authz.status [ AuthzStatus.valid ↦ true | _ ↦ false ]
    ]
    && all_valid s urls

-- "pending" to "ready", if all authorizations are valid
unfoldable pub promote : State → Order → Order
promote s order = elim order.status [
  | OrderStatus.pending ↦
      if all_valid s order.authz_urls then record order { status = OrderStatus.ready } else order
  | _ ↦ order
]

-- The order is the object that the dictionary holds, so its change is a write under its key.
abbrev pub store_order : Str → Order → State → State
store_order url order s = record s { orders = Dict.put s.orders url order }

-- The certificate's URL is `base_url/cert/n` for the next `n`.
unfoldable pub record_certificate : Str → Str → Order → Str → State → Order × State
record_certificate base_url order_url order cert_pem s =
    let n = suc s.cert_counter in
    let url = numbered base_url (codes "cert") n in
    let issued = record order { status = OrderStatus.valid; certificate_url = some url } in
    (
      issued,
      record s {
        certificates = Dict.put s.certificates url cert_pem;
        cert_counter = n;
        orders = Dict.put s.orders order_url issued;
      },
    )

abbrev pub is_ready : Order → Bool
is_ready order = elim order.status [ OrderStatus.ready ↦ true | _ ↦ false ]

-- the `try` block: the payload and its CSR, bound to the order's identifiers
unfoldable pub read_csr :
    (cfg : Config) → Str → Order → Result (Str × List (IdentifierValue cfg.py))
read_csr cfg raw order = do
  (protected, body) ← parse_unverified_jws cfg.decoders object raw
  decode_and_validate_csr cfg.py cfg.x509 (find body (codes "csr")) order.identifiers

-- `_handle_finalize` on a ready order
unfoldable pub finalize_ready : Config → Str → Str → Str → Str → Order → Handler
finalize_ready cfg base_url nonce raw order_url order s = elim (read_csr cfg raw order) [
  | raise _ ↦ (send_error nonce 400 (problem (codes "badCSR")), s)
  | ok (csr_der, csr_identifiers) ↦ elim (cfg.issue_from_csr csr_der csr_identifiers) [
    | none ↦ (raised, s)
    | some cert_pem ↦
        let (issued, s') = record_certificate base_url order_url order cert_pem s in
        (send_json nonce 200 (order_body issued) (some order_url), s')
  ]
]

unfoldable pub finalize_found : Config → Str → Str → Str → Str → Order → Handler
finalize_found cfg base_url nonce raw order_url order s =
    let order' = promote s order in
    let s' = store_order order_url order' s in
    if is_ready order'
    then finalize_ready cfg base_url nonce raw order_url order' s'
    else (send_error nonce 403 (problem (codes "orderNotReady")), s')

unfoldable pub order_url_of : Str → Str → Str
order_url_of base_url path = base_url ++ codes "/order/" ++ last_or [] (split b'/' path)

unfoldable pub handle_finalize : Config → Str → Str → Str → Str → Handler
handle_finalize cfg base_url nonce path raw s =
    let order_url = order_url_of base_url path in
    elim (Dict.get s.orders order_url) [
      | none ↦ (send_error nonce 404 not_found_body, s)
      | some order ↦ finalize_found cfg base_url nonce raw order_url order s
    ]

unfoldable pub handle_order : Str → Str → Str → Handler
handle_order base_url nonce path s =
    let url = base_url ++ path in
    elim (Dict.get s.orders url) [
      | none ↦ (send_error nonce 404 not_found_body, s)
      | some order ↦
          let order' = promote s order in
          (send_json nonce 200 (order_body order') (some url), store_order url order' s)
    ]

unfoldable pub handle_cert : Str → Str → Str → Handler
handle_cert base_url nonce path s = elim (Dict.get s.certificates (base_url ++ path)) [
  | none ↦ (send_error nonce 404 not_found_body, s)
  | some cert_pem ↦ (
    sent (record {
      status = 200;
      nonce = nonce;
      location = none;
      problem = false;
      body = pem cert_pem;
    }),
    s,
  )
]

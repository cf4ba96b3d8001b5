-- ===== src/Mock/View.antt =====
-- The mock server of testing.py seen as the responder of acme_server.py: the same dictionaries and counters,
-- and the same responses but for their content types.
pub mod Orders
pub mod Finalizing
pub mod Handlers
pub mod Server
pub mod Runs
use lacme.Prelude.{
  ℕ, ◌≡◌, ◌≢◌, All, refl, ap, Bool, true, false, Option, none, some, List, [], ◌∷◌, map, Str,
  str_eq, str_Eq, Bool-cases, inl, inr,
}
use lacme.Prelude.Dict.{Dict, get, put, values, put-All}
use lacme.Json.{obj, end}
use lacme.Responder.State.{
  Account, Order, Authorization, State, Config, Body, json, pem, Outcome, sent, raised,
}
use lacme.Responder.Orders.{store_order}
use lacme.Mock.Orders.{mock_store_order}
use lacme.Mock.State.{
  MockAccount, MockOrder, MockAuthorization, MockState, MockServer, mock_base_url, MockBody,
  no_content, plain_json, problem_json, pem_chain, MockOutcome, returned, failed,
}

module _ {V W : Type 0} (f : V → W) where
  unfoldable pub view_dict : Dict Str V → Dict Str W
  view_dict [] = []
  view_dict ((k, v) ∷ d) = (k, f v) ∷ view_dict d

  abbrev pub view_option : Option V → Option W
  view_option none = none
  view_option (some v) = some (f v)

  pub get-view : (d : Dict Str V) (k : Str) → get (view_dict d) k ≡ view_option (get d k)
  unfolding get view_dict
  get-view [] k = refl
  get-view ((j, v) ∷ d) k = elim (Bool-cases (str_eq j k)) [
    | inl same ↦ rw same refl
    | inr other ↦ rw other (get-view d k)
  ]

  pub put-view :
      (d : Dict Str V) (k : Str) (v : V) → view_dict (put d k v) ≡ put (view_dict d) k (f v)
  unfolding put view_dict
  put-view [] k v = refl
  put-view ((j, w) ∷ d) k v = elim (Bool-cases (str_eq j k)) [
    | inl same ↦ rw same refl
    | inr other ↦ rw other (ap (λ rest. (j, f w) ∷ rest) (put-view d k v))
  ]

abbrev pub view_account : MockAccount → Account
view_account acct = record {
  url = acct.url;
  contact = acct.contact;
  jwk_thumbprint = acct.jwk_thumbprint;
}

abbrev pub view_order : MockOrder → Order
view_order order = record {
  url = order.url;
  identifiers = order.identifiers;
  status = order.status;
  authz_urls = order.authz_urls;
  finalize_url = order.finalize_url;
  certificate_url = order.certificate_url;
}

abbrev pub view_authorization : MockAuthorization → Authorization
view_authorization authz = record {
  url = authz.url;
  identifier_value = authz.domain;
  identifier_type = authz.identifier_type;
  wildcard = authz.wildcard;
  status = authz.status;
  token = authz.token;
  challenge_url = authz.challenge_url;
  dns_challenge_url = authz.dns_challenge_url;
  challenge_status = authz.challenge_status;
  key_authorization = [];
}

abbrev pub view : MockState → State
view s = record {
  accounts = view_dict view_account s.accounts;
  orders = view_dict view_order s.orders;
  authorizations = view_dict view_authorization s.authorizations;
  certificates = s.certificates;
  nonce_counter = s.nonce_counter;
  account_counter = s.account_counter;
  order_counter = s.order_counter;
  authz_counter = s.authz_counter;
  cert_counter = s.cert_counter;
}

-- The responder that approves every challenge, at the mock server's address and with its libraries.
abbrev pub as_responder : MockServer → Config
as_responder server = record server.outside {
  auto_approve = true;
  external_url = some (mock_base_url server);
}

-- What a client reads of a response: the status, the nonce, the location and the content. An empty
-- content is read as an empty object.
abbrev pub content_of : MockBody → Body
content_of no_content = json (obj end)
content_of (plain_json j) = json j
content_of (problem_json j) = json j
content_of (pem_chain p) = pem p

abbrev pub Reading : Type 0
Reading = Option (ℕ × Str × Option Str × Body)

abbrev pub read_mock : MockOutcome → Reading
read_mock (returned r) = some (r.status, r.nonce, r.location, content_of r.body)
read_mock failed = none

abbrev pub read_outcome : Outcome → Reading
read_outcome (sent r) = some (r.status, r.nonce, r.location, r.body)
read_outcome raised = none

-- The two challenges of an authorization have two URLs.
abbrev pub AreApart : MockState → Type 0
AreApart s =
    All (λ (entry : Str × MockAuthorization). entry.1.challenge_url ≢ entry.1.dns_challenge_url)
      s.authorizations

-- One answer, and one state afterwards.
abbrev pub Same : MockOutcome × MockState → Outcome × State → Type 0
Same (o, s) (o', s') = (read_mock o ≡ read_outcome o') × (view s ≡ s') × AreApart s

-- A write to the orders, and one to the authorizations.
pub view-store_order :
    (url : Str) (order : MockOrder) (s : MockState)
    → view (mock_store_order url order s) ≡ store_order url (view_order order) (view s)
view-store_order url order s =
    ap (λ orders. record (view s) { orders = orders }) (put-view view_order s.orders url order)

pub view-put_authorization :
    (url : Str) (authz : MockAuthorization) (s : MockState)
    → view (record s { authorizations = put s.authorizations url authz }) ≡ record (view s) {
      authorizations = put (view s).authorizations url (view_authorization authz);
    }
view-put_authorization url authz s =
    ap (λ authorizations. record (view s) { authorizations = authorizations })
      (put-view view_authorization s.authorizations url authz)

pub put-AreApart :
    (url : Str) (authz : MockAuthorization) (s : MockState)
    → authz.challenge_url ≢ authz.dns_challenge_url
    → AreApart s
    → AreApart (record s { authorizations = put s.authorizations url authz })
put-AreApart url authz s new h = put-All _ s.authorizations url authz (λ k. new) h

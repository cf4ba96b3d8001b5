-- ===== src/Mock/State.antt =====
-- The state of `MockACMEServer` of testing.py, its parameters, and its responses.
use lacme.Prelude.{ℕ, ◌++◌, Bool, Option, none, List, [], Str}
use lacme.Prelude.Text.{codes, rstrip}
use lacme.Prelude.Dict.{Dict}
use lacme.Json.{Json, text, obj, field, end}
use lacme.Identifiers.Values.{WireIdentifier}
use lacme.Responder.State.{OrderStatus, AuthzStatus, ChallengeStatus, Config}
use lacme.Responder.Replies.{not_found_body}

-- `_MockAccount`; its `status` is always "valid"
pub record MockAccount : Type 0 where
  pub url : Str
  pub contact : Json
  pub jwk_thumbprint : Str

-- `_MockOrder`
pub record MockOrder : Type 0 where
  pub url : Str
  pub identifiers : List WireIdentifier
  pub status : OrderStatus
  pub authz_urls : List Str
  pub finalize_url : Str
  pub certificate_url : Option Str

-- `_MockAuthorization`
pub record MockAuthorization : Type 0 where
  pub url : Str
  pub domain : Str
  pub identifier_type : Str
  pub wildcard : Bool
  pub status : AuthzStatus
  pub token : Str
  pub challenge_url : Str
  pub dns_challenge_url : Str
  pub challenge_status : ChallengeStatus

pub record MockState : Type 0 where
  pub accounts : Dict Str MockAccount
  pub orders : Dict Str MockOrder
  pub authorizations : Dict Str MockAuthorization
  -- url to PEM
  pub certificates : Dict Str Str
  pub nonce_counter : ℕ
  pub account_counter : ℕ
  pub order_counter : ℕ
  pub authz_counter : ℕ
  pub cert_counter : ℕ

abbrev pub mock_init : MockState
mock_init = record {
  accounts = [];
  orders = [];
  authorizations = [];
  certificates = [];
  nonce_counter = 0;
  account_counter = 0;
  order_counter = 0;
  authz_counter = 0;
  cert_counter = 0;
}

-- The constructor's arguments. Of `outside` the server reads the libraries only: the identifier platform,
-- X.509, the decoders, the digest, the token bytes and the certificate authority.
pub record MockServer : Type 1 where
  pub auto_validate : Bool
  pub base_url_argument : Str
  pub outside : Config

-- `self._base_url`
abbrev pub mock_base_url : MockServer → Str
mock_base_url server = rstrip b'/' server.base_url_argument

-- `httpx2.Request`
pub record MockRequest : Type 0 where
  pub method : Str
  pub path : Str
  pub content : Str

-- The body of a response, with its content type.
pub data MockBody : Type 0 where
  no_content : MockBody
  plain_json : Json → MockBody
  problem_json : Json → MockBody
  pem_chain : Str → MockBody

-- `httpx2.Response`
pub record MockResponse : Type 0 where
  pub status : ℕ
  pub nonce : Str
  pub location : Option Str
  pub body : MockBody

-- A handler returns a response, or an exception leaves it.
pub data MockOutcome : Type 0 where
  returned : MockResponse → MockOutcome
  failed : MockOutcome

abbrev pub MockHandler : Type 0
MockHandler = MockState → MockOutcome × MockState

abbrev pub json_response : Str → ℕ → Json → Option Str → MockOutcome
json_response nonce status body location =
    returned
      (record { status = status; nonce = nonce; location = location; body = plain_json body })

abbrev pub mock_not_found : Str → MockOutcome
mock_not_found nonce = json_response nonce 404 not_found_body none

-- `_problem_response`; `detail` is the text of an exception, and is not modelled
abbrev pub problem_response : Str → ℕ → Str → MockOutcome
problem_response nonce status error = returned (record {
  status = status;
  nonce = nonce;
  location = none;
  body =
      problem_json
        (obj (field (codes "type") (text (codes "urn:ietf:params:acme:error:" ++ error)) end));
})

-- ===== src/Responder/State.antt =====
-- The state of `ACMEResponder`, its parameters, and what it sends.
use lacme.Prelude.{ℕ, Bool, Option, List, [], Str}
use lacme.Prelude.Dict.{Dict}
use lacme.Json.{Json}
use lacme.Jose.{Decoders}
use lacme.Identifiers.Platform.{Platform}
use lacme.Identifiers.X509.{X509}
use lacme.Identifiers.Values.{WireIdentifier, IdentifierValue}

-- `_Account`; its `status` is always "valid"
pub record Account : Type 0 where
  pub url : Str
  pub contact : Json
  pub jwk_thumbprint : Str

pub data OrderStatus : Type 0 where
  pending ready valid : OrderStatus

-- `_Order`
pub record Order : Type 0 where
  pub url : Str
  pub identifiers : List WireIdentifier
  pub status : OrderStatus
  pub authz_urls : List Str
  pub finalize_url : Str
  pub certificate_url : Option Str

pub data AuthzStatus : Type 0 where
  pending valid invalid : AuthzStatus

pub data ChallengeStatus : Type 0 where
  pending processing valid invalid : ChallengeStatus

-- `_Authorization`
pub record Authorization : Type 0 where
  pub url : Str
  pub identifier_value : Str
  pub identifier_type : Str
  pub wildcard : Bool
  pub status : AuthzStatus
  pub token : Str
  pub challenge_url : Str
  pub dns_challenge_url : Str
  pub challenge_status : ChallengeStatus
  pub key_authorization : Str

pub record State : Type 0 where
  pub accounts : Dict Str Account
  pub orders : Dict Str Order
  pub authorizations : Dict Str Authorization
  -- url to PEM
  pub certificates : Dict Str Str
  pub nonce_counter : ℕ
  pub account_counter : ℕ
  pub order_counter : ℕ
  pub authz_counter : ℕ
  pub cert_counter : ℕ

abbrev pub init : State
init = record {
  accounts = [];
  orders = [];
  authorizations = [];
  certificates = [];
  nonce_counter = 0;
  account_counter = 0;
  order_counter = 0;
  authz_counter = 0;
  cert_counter = 0;
}

-- The constructor's arguments, and the outside world.
pub record Config : Type 1 where
  pub py : Platform
  pub x509 : X509 py
  pub decoders : Decoders
  -- `_external_url`, already normalized
  pub external_url : Option Str
  pub auto_approve : Bool
  -- `challenge_validator.validate`, whose answer can change from one request to the next: its first
  -- argument is the number of the request that it is called in
  pub challenge_validator : Option (ℕ → Str → Str → Str → Str → Bool)
  -- `self._ca.issue_from_csr(der, validated_identifiers=...).fullchain_pem`; `none` if it raises
  pub issue_from_csr : Str → List (IdentifierValue py) → Option Str
  -- `secrets.token_bytes(32)`, by the number of the authorization that it is drawn for
  pub token_bytes : ℕ → Str
  -- SHA-256 of the canonical JSON of the members `crv`, `kty`, `x`, `y`
  pub canonical_digest : Json → Json → Json → Json → Str
  pub root_cert_pem : Str

pub data Body : Type 0 where
  json : Json → Body
  pem : Str → Body

-- What `send` is given: `problem` tells `application/problem+json` from `application/json`.
pub record Response : Type 0 where
  pub status : ℕ
  pub nonce : Str
  pub location : Option Str
  pub problem : Bool
  pub body : Body

-- A handler sends a response, or an exception leaves it.
pub data Outcome : Type 0 where
  sent : Response → Outcome
  raised : Outcome

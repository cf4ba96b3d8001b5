-- ===== src/Client/Network.antt =====
-- What the client sees of the network: the replies to come, whatever they are, and a log of what it sent.
use lacme.Prelude.{ℕ, Bool, Option, List, Str}
use lacme.Json.{Json}
use lacme.Errors.{ServerError}

-- An HTTP response: its status, whether its content type is `application/problem+json`, its body as
-- JSON (`none` if `response.json()` raises), and two of its headers.
pub record HttpResponse : Type 0 where
  pub status_code : ℕ
  pub is_problem : Bool
  pub body : Option Json
  pub replay_nonce : Option Str
  pub location : Option Str

-- What is sent: a HEAD request, or a POST of a JWS with its protected header and payload. Without a
-- `kid` the header has the account's public key.
pub data Sent : Type 0 where
  head : Str → Sent
  post : (url nonce : Str) (kid : Option Str) (payload : Option Json) → Sent

-- The replies to come, in order, `none` for a transport error; when none is left, there is no answer,
-- which is a transport error too.
pub record Network : Type 0 where
  pub replies : List (Option HttpResponse)
  pub log : List Sent

-- How a method of the client ends when it raises.
pub data Failure : Type 0 where
  -- a transport error, or an `HTTPStatusError` for a status
  transport : Failure
  http_status : ℕ → Failure
  server_error : ServerError → Failure
  -- a body that is no problem document
  bad_problem : Failure
  -- `ValueError` for a URL that the transport policy refuses
  refused_url : Failure
  runtime : Failure
  -- `KeyError` for a missing header
  missing_header : Failure

pub data Reply {ℓ} (A : Type ℓ) : Type ℓ where
  returns : A → Reply A
  raises : Failure → Reply A

-- `self._nonces`, the next to be popped first, and `self._account_url`
pub record ClientState : Type 0 where
  pub nonces : List Str
  pub account_url : Option Str
  pub network : Network

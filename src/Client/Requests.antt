-- ===== src/Client/Requests.antt =====
-- `_get_nonce`, `_harvest_nonce`, `_raw_signed_request`, `_signed_request`, `_check_response`, and the
-- request of `create_account`.
use lacme.Prelude.{
  ℕ, zero, suc, Bool, true, false, not, Option, none, some, List, [], ◌∷◌, ◌++◌, ◌==◌, any,
  if◌then◌else◌, Str,
}
use lacme.Json.{Json}
use lacme.Errors.{bad_nonce, server_error_from_response}
use lacme.Client.Network.{
  HttpResponse, Sent, head, post, Failure, transport, http_status, server_error, bad_problem,
  refused_url, runtime, Reply, returns, raises, ClientState,
}

-- What the client is set up with: whether `_validate_request_url` accepts a URL, the `newNonce` URL of the
-- directory, which was fetched before, and whether there is an account key.
pub record Setup : Type 0 where
  pub is_allowed_url : Str → Bool
  pub new_nonce : Str
  pub has_key : Bool
  -- whether `response.raise_for_status()` raises for a status
  pub is_error_status : ℕ → Bool

-- One exchange: the next reply is taken, and the request is logged.
abbrev pub exchange : Sent → ClientState → Option HttpResponse × ClientState
exchange sent c = elim c.network.replies [
  | [] ↦ (none, record c { network = record { replies = []; log = sent ∷ c.network.log } })
  | reply ∷ replies ↦
      (reply, record c { network = record { replies = replies; log = sent ∷ c.network.log } })
]

-- `_harvest_nonce`: an empty header is ignored
abbrev pub harvested : Option Str → List Str
harvested none = []
harvested (some []) = []
harvested (some (c ∷ n)) = (c ∷ n) ∷ []

unfoldable pub harvest_nonce : HttpResponse → ClientState → ClientState
harvest_nonce r c = record c { nonces = harvested r.replay_nonce ++ c.nonces }

abbrev problem_failure : Option Json → Failure
problem_failure none = bad_problem
problem_failure (some body) = elim (server_error_from_response body) [
  | none ↦ bad_problem
  | some e ↦ server_error e
]

-- `_check_response` with expected statuses
unfoldable pub check_response : HttpResponse → List ℕ → Reply HttpResponse
check_response r expected =
    if any (λ s. s == r.status_code) expected
    then returns r
    else raises (if r.is_problem then problem_failure r.body else http_status r.status_code)

abbrev popped : List Str → Option (Str × List Str)
popped [] = none
popped (n ∷ ns) = some (n, ns)

-- the pool after the HEAD request for a new nonce
unfoldable pub take_nonce : ClientState → Reply Str × ClientState
take_nonce c = elim c.nonces [
  | [] ↦ (raises runtime, c)
  | n ∷ ns ↦ (returns n, record c { nonces = ns })
]

-- what `_get_nonce` makes of the reply to the HEAD request
unfoldable pub read_nonce : Setup → Option HttpResponse → ClientState → Reply Str × ClientState
read_nonce setup none c = (raises transport, c)
read_nonce setup (some r) c =
    if setup.is_error_status r.status_code
    then (raises (http_status r.status_code), c)
    else take_nonce (harvest_nonce r c)

unfoldable pub fetch_nonce : Setup → ClientState → Reply Str × ClientState
fetch_nonce setup c =
    if not (setup.is_allowed_url setup.new_nonce)
    then (raises refused_url, c)
    else (let (reply, c') = exchange (head setup.new_nonce) c in read_nonce setup reply c')

-- `_get_nonce`
unfoldable pub get_nonce : Setup → ClientState → Reply Str × ClientState
get_nonce setup c = elim c.nonces [
  | [] ↦ fetch_nonce setup c
  | n ∷ ns ↦ (returns n, record c { nonces = ns })
]

-- what `_raw_signed_request` makes of the reply to the POST
unfoldable pub read_reply :
    List ℕ → Option HttpResponse → ClientState → Reply HttpResponse × ClientState
read_reply expected none c = (raises transport, c)
read_reply expected (some r) c = (check_response r expected, harvest_nonce r c)

-- `_raw_signed_request`
unfoldable pub raw_signed_request :
    Setup
    → Str
    → Option Json
    → List ℕ
    → Str
    → Option Str
    → ClientState
    → Reply HttpResponse × ClientState
raw_signed_request setup url payload expected nonce kid c =
    if not (setup.is_allowed_url url)
    then (raises refused_url, c)
    else (let (reply, c') = exchange (post url nonce kid payload) c in read_reply expected reply c')

-- `except BadNonceError`
abbrev pub is_bad_nonce : Reply HttpResponse → Bool
is_bad_nonce (raises (server_error e)) = elim e.cls [ bad_nonce ↦ true | _ ↦ false ]
is_bad_nonce _ = false

-- One round of the loop of `_signed_request`, once there is a nonce. `_get_nonce` raises no BadNonceError, so
-- it makes no difference that it stands before the `try`.
unfoldable pub spend_nonce :
    Setup → Str → Option Json → List ℕ → Reply Str → ClientState → Reply HttpResponse × ClientState
spend_nonce setup url payload expected (raises f) c = (raises f, c)
spend_nonce setup url payload expected (returns n) c =
    raw_signed_request setup url payload expected n c.account_url c

unfoldable pub one_try :
    Setup → Str → Option Json → List ℕ → ClientState → Reply HttpResponse × ClientState
one_try setup url payload expected c =
    let (nonce, c') = get_nonce setup c in spend_nonce setup url payload expected nonce c'

-- The loop, with so many rounds more after this one.
unfoldable pub attempt :
    Setup → Str → Option Json → List ℕ → ℕ → ClientState → Reply HttpResponse × ClientState
attempt setup url payload expected zero c = one_try setup url payload expected c
attempt setup url payload expected (suc more) c =
    let (result, c') = one_try setup url payload expected c in
    let again = attempt setup url payload expected more c' in
    if is_bad_nonce result then again else (result, c')

-- `_MAX_BAD_NONCE_RETRIES`
abbrev pub max_bad_nonce_retries : ℕ
max_bad_nonce_retries = 1

-- `_signed_request`
unfoldable pub signed_request :
    Setup → Str → Option Json → List ℕ → ClientState → Reply HttpResponse × ClientState
unfolding attempt
signed_request setup url payload expected c =
    if not setup.has_key
    then (raises runtime, c)
    else attempt setup url payload expected max_bad_nonce_retries c

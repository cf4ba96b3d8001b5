-- ===== src/Tests/Clients.antt =====
-- Runs of the client's signed requests.
use lacme.Prelude.{
  Option, arith, ℕ, ◌+◌, ◌≤◌, ◌≡◌, refl, Bool, true, false, none, some, List, [], ◌∷◌, Str, leb,
}
use lacme.Prelude.Text.{codes}
use lacme.Json.{text, obj, field, end}
use lacme.Client.Network.{HttpResponse, ClientState, returns}
use lacme.Client.Requests.{Setup, signed_request}
use lacme.Client.Nonces.{Call, calls, used, whereabouts, calls-used}
use lacme.Client.Retries.{Expected, posts_of, signed_request-bounded}
use lacme.Client.Polling.{
  OrderStatus, pending, ready, processing, valid, Round, returned, timed_out, order_verdict, poll,
  poll_order, poll_order_ready,
}
use lacme.Client.Polling.Ends.{IsEnd, poll-IsEnd}
use lacme.Tests.Program.{program}

abbrev setup : Setup
setup = record {
  is_allowed_url = λ url. true;
  new_nonce = codes "https://ca/new-nonce";
  has_key = true;
  is_error_status = λ status. leb 300 status;
}

abbrev reply : ℕ → Bool → Str → HttpResponse
reply status is_problem nonce = record {
  status_code = status;
  is_problem = is_problem;
  body = some (obj (field (codes "type") (text (codes "urn:ietf:params:acme:error:badNonce")) end));
  replay_nonce = some nonce;
  location = none;
}

-- a nonce, a refusal of it, and a reply to the second attempt
abbrev start : ClientState
start = record {
  nonces = [];
  account_url = some (codes "https://ca/acct/1");
  network = record {
    replies =
        some (reply 200 false (codes "n1"))
        ∷ some (reply 400 true (codes "n2"))
        ∷ some (reply 200 false (codes "n3"))
        ∷ [];
    log = [];
  };
}

abbrev url : Str
url = codes "https://ca/order/1"

retried :
    ((signed_request setup url none (200 ∷ []) start).0 ≡ returns (reply 200 false (codes "n3")))
    × (posts_of (signed_request setup url none (200 ∷ []) start).1 ≡ 2)
    × ((signed_request setup url none (200 ∷ []) start).1.nonces ≡ codes "n3" ∷ [])
unfolding program
retried = (refl, refl, refl)

signed_request-bounded_example :
    (posts_of (signed_request setup url none (200 ∷ []) start).1 ≤ 2 + posts_of start)
    × Expected (200 ∷ []) (signed_request setup url none (200 ∷ []) start).0
signed_request-bounded_example = signed_request-bounded setup url none (200 ∷ []) start

abbrev twice : List Call
twice =
    record { url = url; payload = none; expected = 200 ∷ [] }
    ∷ record { url = url; payload = none; expected = 200 ∷ [] }
    ∷ []

calls-used_example :
    used (codes "n1") (calls setup twice start).network.log ≤ whereabouts (codes "n1") start
calls-used_example = calls-used setup (codes "n1") twice start

abbrev round : OrderStatus → Option ℕ → Round OrderStatus
round status retry_after = record {
  took = 20;
  status = status;
  retry_after = retry_after;
  between = 1;
  overslept = 2;
}

abbrev later_rounds : List (Round OrderStatus)
later_rounds = round ready none ∷ round processing (some 0) ∷ round pending none ∷ []

polled :
    (poll_order 300 200 (round pending none ∷ round valid none ∷ []) ≡ returned valid)
    × (poll_order 300 200 (round pending none ∷ later_rounds) ≡ timed_out processing)
    × (poll_order_ready 300 200 (round pending none ∷ later_rounds) ≡ returned ready)
unfolding program
polled = (refl, refl, refl)

poll-IsEnd_example :
    IsEnd order_verdict 300 200 (poll order_verdict 300 200 0 (round pending none ∷ later_rounds))
poll-IsEnd_example =
    poll-IsEnd order_verdict 300 200 0 (round pending none) later_rounds (omega arith) (omega arith)

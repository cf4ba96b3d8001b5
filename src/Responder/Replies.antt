-- ===== src/Responder/Replies.antt =====
-- What the route handlers send: JSON replies, problem documents, and the body of an order.
use lacme.Prelude.{ℕ, true, false, Option, none, some, List, [], ◌∷◌, ◌++◌, map, Str, str_Eq}
use lacme.Prelude.Text.{codes}
use lacme.Json.{Json, Fields, text, arr, obj, field, end, of_list}
use lacme.Identifiers.Values.RoundTrip.{to_dict}
use lacme.Responder.State.{
  Order, OrderStatus, AuthzStatus, ChallengeStatus, State, json, Outcome, sent,
}

abbrev pub Handler : Type 0
Handler = State → Outcome × State

-- `_send_json` and `_send_error`
abbrev pub send_json : Str → ℕ → Json → Option Str → Outcome
send_json nonce status body location = sent (record {
  status = status;
  nonce = nonce;
  location = location;
  problem = false;
  body = json body;
})

abbrev pub send_error : Str → ℕ → Json → Outcome
send_error nonce status body =
    sent
      (record { status = status; nonce = nonce; location = none; problem = true; body = json body })

abbrev pub members : List (Str × Json) → Fields
members [] = end
members ((k, v) ∷ d) = field k v (members d)

-- The problem documents; `detail` is the text of an exception, and is not modelled.
abbrev pub not_found_body : Json
not_found_body = obj (field (codes "type") (text (codes "not-found")) end)

abbrev pub problem : Str → Json
problem error = obj (field (codes "type") (text (codes "urn:ietf:params:acme:error:" ++ error)) end)

abbrev pub order_status_text : OrderStatus → Str
order_status_text OrderStatus.pending = codes "pending"
order_status_text OrderStatus.ready = codes "ready"
order_status_text OrderStatus.valid = codes "valid"

abbrev pub authz_status_text : AuthzStatus → Str
authz_status_text AuthzStatus.pending = codes "pending"
authz_status_text AuthzStatus.valid = codes "valid"
authz_status_text AuthzStatus.invalid = codes "invalid"

abbrev pub challenge_status_text : ChallengeStatus → Str
challenge_status_text ChallengeStatus.pending = codes "pending"
challenge_status_text ChallengeStatus.processing = codes "processing"
challenge_status_text ChallengeStatus.valid = codes "valid"
challenge_status_text ChallengeStatus.invalid = codes "invalid"

-- the bodies of newOrder, finalize and order
unfoldable pub order_body : Order → Json
order_body order =
    let common =
      (codes "status", text (order_status_text order.status))
      ∷ (codes "identifiers", arr (of_list (map to_dict order.identifiers)))
      ∷ (codes "authorizations", arr (of_list (map text order.authz_urls)))
      ∷ (codes "finalize", text order.finalize_url)
      ∷ [] in
    elim order.certificate_url [
      | none ↦ obj (members common)
      | some url ↦ obj (members (common ++ (codes "certificate", text url) ∷ []))
    ]

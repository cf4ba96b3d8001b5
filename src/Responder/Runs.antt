-- ===== src/Responder/Runs.antt =====
-- The responder over any sequence of requests, from its start.
use lacme.Prelude.{
  ℕ, suc, ◌≤◌, ◌<◌, ◌≡◌, ◌≢◌, ◌∙◌, inl, inr, Bool-cases, Option, none, some, List, [], ◌∷◌, Str,
  str_Eq, str_eq, All, All-map, arith,
}
use lacme.Prelude.Text.{codes}
use lacme.Prelude.Dict.{get}
use lacme.Responder.State.{State, Config, init, Outcome, sent, raised}
use lacme.Responder.Request.{Scope, nonce_text}
use lacme.Responder.Numbered.{nonce_text-injective}
use lacme.Responder.Serve.{respond, serve}
use lacme.Responder.Steps.{Steps, here, next}
use lacme.Responder.Steps.Requests.{BearsNonce, serve-Steps, respond-nonce}
use lacme.Responder.Steps.Consistent.{IsConsistent, init-IsConsistent}
use lacme.Responder.Steps.Preserves.{Steps-IsConsistent}
use lacme.Responder.Steps.Advances.{Advances}
use lacme.Responder.Steps.Advances.Moves.{Steps-Advances}
use lacme.Responder.Steps.Provenance.{IssuedFor}
use lacme.Responder.Steps.Provenance.Keeps.{Steps-IsAuthorized, init-IsAuthorized}

-- The requests one after another: what is sent, and the state they leave.
unfoldable pub run : Config → List Scope → State → List (Option Outcome) × State
run cfg [] s = ([], s)
run cfg (scope ∷ scopes) s =
    let (outcome, s') = serve cfg scope s in
    let (outcomes, s'') = run cfg scopes s' in (outcome ∷ outcomes, s'')

-- The nonces of the responses.
unfoldable pub nonces : List (Option Outcome) → List Str
nonces [] = []
nonces (some (sent r) ∷ os) = r.nonce ∷ nonces os
nonces (some raised ∷ os) = nonces os
nonces (none ∷ os) = nonces os

-- No two are equal.
abbrev pub Distinct : List Str → Type 0
Distinct [] = Unit
Distinct (n ∷ ns) = All (λ m. n ≢ m) ns × Distinct ns

-- The nonce of a request later than the n-th.
pub record IssuedAfter (n : ℕ) (text : Str) : Type 0 where
  pub k : ℕ
  pub is : text ≡ nonce_text k
  pub later : n < k

IssuedAfter-mono : (m n : ℕ) (text : Str) → m ≤ n → IssuedAfter n text → IssuedAfter m text
IssuedAfter-mono m n text le r = record { k = r.k; is = r.is; later = omega (arith, r.later) }

IssuedAfter-ne : (n : ℕ) (text : Str) → IssuedAfter n text → nonce_text n ≢ text
IssuedAfter-ne n text r e =
    let same : n ≡ r.k = nonce_text-injective n r.k (e ∙ r.is) in omega (arith, r.later)

nonces-cons :
    (n : ℕ) (o : Outcome) (os : List (Option Outcome))
    → BearsNonce (nonce_text (suc n)) o
    → All (IssuedAfter (suc n)) (nonces os) × Distinct (nonces os)
    → All (IssuedAfter n) (nonces (some o ∷ os)) × Distinct (nonces (some o ∷ os))
unfolding nonces
nonces-cons n raised os bears (after, distinct) =
    (All-map (nonces os) (λ t. IssuedAfter-mono n (suc n) t (omega arith)) after, distinct)
nonces-cons n (sent r) os bears (after, distinct) = (
  (
    record { k = suc n; is = bears; later = omega arith },
    All-map (nonces os) (λ t. IssuedAfter-mono n (suc n) t (omega arith)) after,
  ),
  (rw bears (All-map (nonces os) (λ t. IssuedAfter-ne (suc n) t) after), distinct),
)

module _ (cfg : Config) where
  join-Steps : {s t u : State} → Steps cfg s t → Steps cfg t u → Steps cfg s u
  join-Steps r here = r
  join-Steps r (next q st) = next (join-Steps r q) st

  pub run-Steps : (scopes : List Scope) (s : State) → Steps cfg s (run cfg scopes s).1
  unfolding run
  run-Steps [] s = here
  run-Steps (scope ∷ scopes) s = join-Steps (serve-Steps cfg scope s) (run-Steps scopes _)

  -- From a consistent state, any requests lead to a consistent state: the keys of accounts, orders,
  -- authorizations and certificates carry numbers up to their counters, no authorization's key comes
  -- twice, the authorizations of every order exist, a "valid" order has the URL of a stored certificate,
  -- and any other order has no certificate URL.
  pub run-IsConsistent :
      (scopes : List Scope) (s : State) → IsConsistent s → IsConsistent (run cfg scopes s).1
  run-IsConsistent scopes s h = Steps-IsConsistent cfg (run-Steps scopes s) h

  -- From a consistent state, no sequence of requests loses an account, a certificate, an authorization
  -- or an order or changes an account or a certificate; an order keeps its identifiers, authorizations
  -- and finalize URL, its status never goes back, and its certificate URL, once set, stays.
  pub run-Advances :
      (scopes : List Scope) (s : State) → IsConsistent s → Advances s (run cfg scopes s).1
  run-Advances scopes s h = Steps-Advances cfg (run-Steps scopes s) h

  -- After any requests to a fresh responder, every stored certificate was issued for an order that
  -- the responder has, as "valid" and linked to the certificate; URL by URL the order has an
  -- authorization for each of its identifiers, each approved by the validator or by `auto_approve`; and
  -- the certificate is what the CA gave for the order's identifiers and for a signed CSR whose
  -- identifiers are the order's.
  pub run-IssuedFor :
      (scopes : List Scope) (cert_url cert_pem : Str)
      → get (run cfg scopes init).1.certificates cert_url ≡ some cert_pem
      → IssuedFor cfg (run cfg scopes init).1 cert_url cert_pem
  run-IssuedFor scopes cert_url cert_pem found =
      (Steps-IsAuthorized cfg (run-Steps scopes init) init-IsConsistent
          (init-IsAuthorized cfg)).issued
        cert_url cert_pem found

  nonces-IssuedAfter :
      (scopes : List Scope) (s : State)
      → All (IssuedAfter s.nonce_counter) (nonces (run cfg scopes s).0)
        × Distinct (nonces (run cfg scopes s).0)
  unfolding run nonces serve
  nonces-IssuedAfter [] s = (tt, tt)
  nonces-IssuedAfter (scope ∷ scopes) s = elim (Bool-cases (str_eq scope.kind (codes "http"))) [
    | inr p ↦ rw p (nonces-IssuedAfter scopes s)
    | inl p ↦
        let (bears, counted) = respond-nonce cfg scope s in
        rw p (
          nonces-cons s.nonce_counter (respond cfg scope s).0 _ bears
            (rw counted at (nonces-IssuedAfter scopes (respond cfg scope s).1)))
  ]

  -- No two responses to any sequence of requests, from any state, have the same nonce.
  pub run-nonces-Distinct :
      (scopes : List Scope) (s : State) → Distinct (nonces (run cfg scopes s).0)
  run-nonces-Distinct scopes s = (nonces-IssuedAfter scopes s).1

-- ===== src/Client/Nonces.antt =====
-- No nonce is used twice: a count of where each nonce is.
use lacme.Prelude.{
  List-cases, count_of-append, one_if, count_of, ℕ, zero, suc, ◌+◌, ◌≤◌, ◌≡◌, refl, ap, inl, inr,
  Option, none, some, List, [], ◌∷◌, Str, str_eq, arith, Bool-cases,
}
use lacme.Json.{Json}
use lacme.Client.Network.{HttpResponse, Sent, head, post, Reply, returns, raises, ClientState}
use lacme.Client.Requests.{
  Setup, exchange, harvested, harvest_nonce, take_nonce, read_nonce, fetch_nonce, read_reply,
  spend_nonce, one_try, get_nonce, raw_signed_request, is_bad_nonce, attempt, signed_request,
  max_bad_nonce_retries,
}

-- How often a POST of the log has the nonce.
unfoldable pub used : Str → List Sent → ℕ
used n [] = 0
used n (head url ∷ log) = used n log
used n (post url nonce kid payload ∷ log) = one_if (str_eq n nonce) + used n log

-- How often the replies to come offer the nonce.
unfoldable pub offered : Str → List (Option HttpResponse) → ℕ
offered n [] = 0
offered n (none ∷ replies) = offered n replies
offered n (some r ∷ replies) = count_of n (harvested r.replay_nonce) + offered n replies

-- Where the nonce is: spent, in the pool, or still to be offered.
abbrev pub whereabouts : Str → ClientState → ℕ
whereabouts n c = used n c.network.log + (count_of n c.nonces + offered n c.network.replies)

-- a nonce that is taken from the pool, before it is spent
abbrev pub in_hand : Str → Reply Str → ℕ
in_hand n (returns m) = one_if (str_eq n m)
in_hand n (raises f) = 0

module _ (setup : Setup) (n : Str) where
  abbrev Accounted : ClientState → Reply Str × ClientState → Type 0
  Accounted c (m, c') = in_hand n m + whereabouts n c' ≤ whereabouts n c

  take_nonce-whereabouts : (c : ClientState) → Accounted c (take_nonce c)
  unfolding take_nonce count_of
  take_nonce-whereabouts c = elim (List-cases c.nonces) [
    | inl p ↦ rw (p, take_nonce) (omega (arith, ap (count_of n) p))
    | inr (m, ns, p) ↦ rw (p, take_nonce) (omega arith)
  ]

  harvest_nonce-whereabouts :
      (r : HttpResponse) (c : ClientState)
      → whereabouts n (harvest_nonce r c) ≡ count_of n (harvested r.replay_nonce) + whereabouts n c
  unfolding harvest_nonce
  harvest_nonce-whereabouts r c =
      omega (arith, count_of-append n (harvested r.replay_nonce) c.nonces)

  -- what a request spends, and what its reply brings
  abbrev spent : Sent → ℕ
  spent (head url) = 0
  spent (post url m kid payload) = one_if (str_eq n m)

  abbrev brought : Option HttpResponse → ℕ
  brought none = 0
  brought (some r) = count_of n (harvested r.replay_nonce)

  used-cons : (sent : Sent) (log : List Sent) → used n (sent ∷ log) ≡ spent sent + used n log
  unfolding used
  used-cons (head url) log = omega arith
  used-cons (post url m kid payload) log = refl

  exchange-whereabouts :
      (sent : Sent) (c : ClientState)
      → let (reply, c') = exchange sent c in
        brought reply + whereabouts n c' ≡ spent sent + whereabouts n c
  unfolding offered
  exchange-whereabouts sent c = elim (List-cases c.network.replies) [
    | inl p ↦ rw p (omega (arith, used-cons sent c.network.log, ap (offered n) p))
    | inr (none, replies, p) ↦ rw p (omega (arith, used-cons sent c.network.log, ap (offered n) p))
    | inr (some r, replies, p) ↦
        rw p (omega (arith, used-cons sent c.network.log, ap (offered n) p))
  ]

  read_nonce-whereabouts :
      (reply : Option HttpResponse) (c : ClientState)
      → let (m, c') = read_nonce setup reply c in
        in_hand n m + whereabouts n c' ≤ brought reply + whereabouts n c
  unfolding read_nonce
  read_nonce-whereabouts none c = omega arith
  read_nonce-whereabouts (some r) c = elim (Bool-cases (setup.is_error_status r.status_code)) [
    | inl error ↦ rw error (omega arith)
    | inr fine ↦
        rw fine
          (omega (arith, take_nonce-whereabouts (harvest_nonce r c), harvest_nonce-whereabouts r c))
  ]

  fetch_nonce-whereabouts : (c : ClientState) → Accounted c (fetch_nonce setup c)
  unfolding fetch_nonce
  fetch_nonce-whereabouts c = elim (Bool-cases (setup.is_allowed_url setup.new_nonce)) [
    | inr refused ↦ rw refused (omega arith)
    | inl allowed ↦
        let (reply, c') = exchange (head setup.new_nonce) c in
        rw allowed (
          omega
            (arith, exchange-whereabouts (head setup.new_nonce) c, read_nonce-whereabouts reply c'))
  ]

  get_nonce-whereabouts : (c : ClientState) → Accounted c (get_nonce setup c)
  unfolding get_nonce count_of
  get_nonce-whereabouts c = elim (List-cases c.nonces) [
    | inl p ↦ rw (p, get_nonce) (omega (arith, fetch_nonce-whereabouts c, ap (count_of n) p))
    | inr (m, ns, p) ↦ rw (p, get_nonce) (omega arith)
  ]

  read_reply-whereabouts :
      (expected : List ℕ) (reply : Option HttpResponse) (c : ClientState)
      → whereabouts n (read_reply expected reply c).1 ≤ brought reply + whereabouts n c
  unfolding read_reply
  read_reply-whereabouts expected none c = omega arith
  read_reply-whereabouts expected (some r) c = omega (arith, harvest_nonce-whereabouts r c)

  module _ (url : Str) (payload : Option Json) (expected : List ℕ) where
    spend_nonce-whereabouts :
        (m : Reply Str) (c : ClientState)
        → whereabouts n (spend_nonce setup url payload expected m c).1
          ≤ in_hand n m + whereabouts n c
    unfolding spend_nonce raw_signed_request
    spend_nonce-whereabouts (raises f) c = omega arith
    spend_nonce-whereabouts (returns m) c = elim (Bool-cases (setup.is_allowed_url url)) [
      | inr refused ↦ rw refused (omega arith)
      | inl allowed ↦
          let sent = post url m c.account_url payload in
          let (reply, c') = exchange sent c in
          rw allowed
            (omega (arith, exchange-whereabouts sent c, read_reply-whereabouts expected reply c'))
    ]

    one_try-whereabouts :
        (c : ClientState) → whereabouts n (one_try setup url payload expected c).1 ≤ whereabouts n c
    unfolding one_try
    one_try-whereabouts c =
        let (m, c') = get_nonce setup c in
        omega (arith, get_nonce-whereabouts c, spend_nonce-whereabouts m c')

    attempt-whereabouts :
        (retries : ℕ) (c : ClientState)
        → whereabouts n (attempt setup url payload expected retries c).1 ≤ whereabouts n c
    unfolding attempt
    attempt-whereabouts zero c = one_try-whereabouts c
    attempt-whereabouts (suc more) c =
        let (result, c') = one_try setup url payload expected c in
        elim (Bool-cases (is_bad_nonce result)) [
          | inl again ↦ rw again (omega (arith, one_try-whereabouts c, attempt-whereabouts more c'))
          | inr done ↦ rw done (one_try-whereabouts c)
        ]

    pub signed_request-whereabouts :
        (c : ClientState)
        → whereabouts n (signed_request setup url payload expected c).1 ≤ whereabouts n c
    unfolding signed_request one_try get_nonce fetch_nonce read_nonce spend_nonce raw_signed_request
    signed_request-whereabouts c = elim (Bool-cases setup.has_key) [
      | inl key ↦ simp key (attempt-whereabouts max_bad_nonce_retries c)
      | inr none_yet ↦ simp none_yet (omega arith)
    ]

-- What is asked of `signed_request`.
pub record Call : Type 0 where
  pub url : Str
  pub payload : Option Json
  pub expected : List ℕ

-- One call after another, whatever each of them returns.
unfoldable pub calls : Setup → List Call → ClientState → ClientState
calls setup [] c = c
calls setup (k ∷ ks) c = calls setup ks (signed_request setup k.url k.payload k.expected c).1

calls-whereabouts :
    (setup : Setup) (n : Str) (ks : List Call) (c : ClientState)
    → whereabouts n (calls setup ks c) ≤ whereabouts n c
unfolding calls
calls-whereabouts setup n [] c = omega arith
calls-whereabouts setup n (k ∷ ks) c = omega (
  arith,
  calls-whereabouts setup n ks _,
  signed_request-whereabouts setup n k.url k.payload k.expected c,
)

-- However many signed requests a client makes, retries included, and whatever the server replies, a
-- nonce is sent at most as often as it was sent before, was in the client's pool and is offered by the
-- server's replies; so one that is offered once in all is used at most once.
pub calls-used :
    (setup : Setup) (n : Str) (ks : List Call) (c : ClientState)
    → used n (calls setup ks c).network.log ≤ whereabouts n c
calls-used setup n ks c = omega (arith, calls-whereabouts setup n ks c)

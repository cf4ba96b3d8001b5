-- ===== src/Client/Retries.antt =====
-- How often a signed request is sent, and what it returns.
use lacme.Prelude.{
  List-cases, ℕ, zero, suc, ◌+◌, ◌≤◌, ◌≡◌, refl, inl, inr, true, Option, none, some, List, [], ◌∷◌,
  ◌==◌, any, Str, arith, Bool-cases,
}
use lacme.Json.{Json}
use lacme.Client.Network.{HttpResponse, Sent, head, post, Reply, returns, raises, ClientState}
use lacme.Client.Requests.{
  Setup, exchange, harvest_nonce, take_nonce, read_nonce, fetch_nonce, get_nonce, read_reply,
  check_response, raw_signed_request, is_bad_nonce, spend_nonce, one_try, attempt, signed_request,
  max_bad_nonce_retries,
}

-- the POSTs of the log
unfoldable pub posts : List Sent → ℕ
posts [] = 0
posts (head url ∷ log) = posts log
posts (post url nonce kid payload ∷ log) = 1 + posts log

abbrev pub posts_of : ClientState → ℕ
posts_of c = posts c.network.log

abbrev weight : Sent → ℕ
weight (head url) = 0
weight (post url nonce kid payload) = 1

exchange-posts :
    (sent : Sent) (c : ClientState) → posts_of (exchange sent c).1 ≡ weight sent + posts_of c
unfolding posts
exchange-posts sent c = elim (List-cases c.network.replies) [
  | inl p ↦ rw p (posts-cons sent c.network.log)
  | inr (reply, replies, p) ↦ rw p (posts-cons sent c.network.log)
]
  where
    posts-cons : (x : Sent) (log : List Sent) → posts (x ∷ log) ≡ weight x + posts log
    posts-cons (head url) log = omega arith
    posts-cons (post url nonce kid payload) log = refl

-- What is returned has an expected status.
abbrev pub Expected : List ℕ → Reply HttpResponse → Type 0
Expected expected (returns r) = any (λ s. s == r.status_code) expected ≡ true
Expected expected (raises f) = Unit

module _ (setup : Setup) where
  take_nonce-posts : (c : ClientState) → posts_of (take_nonce c).1 ≡ posts_of c
  unfolding take_nonce
  take_nonce-posts c = elim (List-cases c.nonces) [
    | inl p ↦ rw (p, take_nonce) refl
    | inr (m, ns, p) ↦ rw (p, take_nonce) refl
  ]

  read_nonce-posts :
      (reply : Option HttpResponse) (c : ClientState)
      → posts_of (read_nonce setup reply c).1 ≡ posts_of c
  unfolding read_nonce harvest_nonce
  read_nonce-posts none c = refl
  read_nonce-posts (some r) c = elim (Bool-cases (setup.is_error_status r.status_code)) [
    | inl error ↦ rw error refl
    | inr fine ↦ rw fine (take_nonce-posts (harvest_nonce r c))
  ]

  get_nonce-posts : (c : ClientState) → posts_of (get_nonce setup c).1 ≡ posts_of c
  unfolding get_nonce fetch_nonce
  get_nonce-posts c = elim (List-cases c.nonces) [
    | inr (m, ns, p) ↦ rw (p, get_nonce) refl
    | inl p ↦
        rw (p, get_nonce)
          (elim (Bool-cases (setup.is_allowed_url setup.new_nonce)) [
            | inr refused ↦ rw refused refl
            | inl allowed ↦
                let (reply, c') = exchange (head setup.new_nonce) c in
                rw allowed (
                  omega (arith, read_nonce-posts reply c', exchange-posts (head setup.new_nonce) c))
          ])
  ]

  module _ (url : Str) (payload : Option Json) (expected : List ℕ) where
    read_reply-posts :
        (reply : Option HttpResponse) (c : ClientState)
        → posts_of (read_reply expected reply c).1 ≡ posts_of c
    unfolding read_reply harvest_nonce
    read_reply-posts none c = refl
    read_reply-posts (some r) c = refl

    spend_nonce-posts :
        (m : Reply Str) (c : ClientState)
        → posts_of (spend_nonce setup url payload expected m c).1 ≤ 1 + posts_of c
    unfolding spend_nonce raw_signed_request
    spend_nonce-posts (raises f) c = omega arith
    spend_nonce-posts (returns m) c = elim (Bool-cases (setup.is_allowed_url url)) [
      | inr refused ↦ rw refused (omega arith)
      | inl allowed ↦
          let sent = post url m c.account_url payload in
          let (reply, c') = exchange sent c in
          rw allowed (omega (arith, exchange-posts sent c, read_reply-posts reply c'))
    ]

    one_try-posts :
        (c : ClientState) → posts_of (one_try setup url payload expected c).1 ≤ 1 + posts_of c
    unfolding one_try
    one_try-posts c =
        let (m, c') = get_nonce setup c in omega (arith, get_nonce-posts c, spend_nonce-posts m c')

    attempt-posts :
        (retries : ℕ) (c : ClientState)
        → posts_of (attempt setup url payload expected retries c).1 ≤ 1 + retries + posts_of c
    unfolding attempt
    attempt-posts zero c = omega (arith, one_try-posts c)
    attempt-posts (suc more) c =
        let (result, c') = one_try setup url payload expected c in
        elim (Bool-cases (is_bad_nonce result)) [
          | inl again ↦ rw again (omega (arith, one_try-posts c, attempt-posts more c'))
          | inr done ↦ rw done (omega (arith, one_try-posts c))
        ]

    check_response-Expected : (r : HttpResponse) → Expected expected (check_response r expected)
    unfolding check_response
    check_response-Expected r = elim (Bool-cases (any (λ s. s == r.status_code) expected)) [
      | inl fits ↦ rw fits fits
      | inr other ↦ rw other tt
    ]

    spend_nonce-Expected :
        (m : Reply Str) (c : ClientState)
        → Expected expected (spend_nonce setup url payload expected m c).0
    unfolding spend_nonce raw_signed_request read_reply
    spend_nonce-Expected (raises f) c = tt
    spend_nonce-Expected (returns m) c = elim (Bool-cases (setup.is_allowed_url url)) [
      | inr refused ↦ rw refused tt
      | inl allowed ↦ rw allowed (
          received (exchange (post url m c.account_url payload) c).0
            (exchange (post url m c.account_url payload) c).1)
    ]
      where
        received :
            (reply : Option HttpResponse) (c' : ClientState)
            → Expected expected (read_reply expected reply c').0
        received none c' = tt
        received (some r) c' = check_response-Expected r

    attempt-Expected :
        (retries : ℕ) (c : ClientState)
        → Expected expected (attempt setup url payload expected retries c).0
    unfolding attempt one_try
    attempt-Expected zero c = let (m, c') = get_nonce setup c in spend_nonce-Expected m c'
    attempt-Expected (suc more) c =
        let (m, c') = get_nonce setup c in
        let (result, c'') = one_try setup url payload expected c in
        elim (Bool-cases (is_bad_nonce result)) [
          | inl again ↦ rw again (attempt-Expected more c'')
          | inr done ↦ rw done (spend_nonce-Expected m c')
        ]

    -- A signed request sends at most two POSTs, and when it returns a response, that has an expected
    -- status.
    pub signed_request-bounded :
        (c : ClientState)
        → (posts_of (signed_request setup url payload expected c).1 ≤ 2 + posts_of c)
          × Expected expected (signed_request setup url payload expected c).0
    unfolding signed_request
    signed_request-bounded c = elim (Bool-cases setup.has_key) [
      | inr none_yet ↦ simp none_yet (omega arith, tt)
      | inl key ↦ simp key (
        omega (arith, attempt-posts max_bad_nonce_retries c),
        attempt-Expected max_bad_nonce_retries c,
      )
    ]

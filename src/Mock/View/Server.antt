-- ===== src/Mock/View/Server.antt =====
-- Whole requests, and sequences of them, on the mock server and on the responder.
use lacme.Prelude.{
  ◌≡◌, ◌≤◌, ◌*◌, refl, ap, ◌∙◌, true, false, none, [], ◌∷◌, ◌++◌, Str, str_eq, Result-cases, ok,
  raise, ◌>>=◌, inl, inr, length, ltb, arith,
}
use lacme.Prelude.Text.{codes, starts_with, strip_prefix}
use lacme.Jose.{PayloadMode, object, empty, parse_unverified_jws}
use lacme.Responder.State.{Config}
use lacme.Responder.Request.{Scope, max_body_size, read_messages, read_body, read_valid_jws, route}
use lacme.Responder.Replies.{Handler}
use lacme.Responder.Accounts.{handle_new_account}
use lacme.Responder.Orders.{handle_new_order, handle_finalize, handle_order, handle_cert}
use lacme.Responder.Challenges.{handle_authz, handle_challenge}
use lacme.Mock.Accounts.{mock_new_account}
use lacme.Mock.Orders.{mock_new_order, mock_finalize, mock_order, mock_cert}
use lacme.Mock.Challenges.{mock_authz, mock_answer_challenge}
use lacme.Json.{obj, end}
use lacme.Responder.Serve.{accept, with_jws, dispatch}
use lacme.Mock.State.{
  MockState, MockServer, MockRequest, MockHandler, mock_base_url, json_response, problem_response,
}
use lacme.Mock.Serve.{bare, mock_route, mock_checked}
use lacme.Mock.View.{view, as_responder, Same, AreApart}
use lacme.Mock.View.Orders.{new_order-Same, order-Same, cert-Same}
use lacme.Mock.View.Finalizing.{Signs, finalize-Same}
use lacme.Mock.View.Handlers.{new_account-Same, authz-Same, challenge-Same}

-- The request as the responder gets it: one message.
abbrev pub scope_of : MockRequest → Scope
scope_of request = record {
  kind = codes "http";
  path = request.path;
  root_path = [];
  scheme = codes "https";
  server = none;
  messages = record { body = request.content; more_body = false } ∷ [];
}

-- What both servers answer in the same way: the content fits in 64 KiB, and the path is neither that of
-- a nonce, which the mock server answers without content, nor that of the CA's certificate, which only the
-- responder has.
pub record IsCommon (request : MockRequest) : Type 0 where
  pub fits : length request.content ≤ 64 * 1024
  pub no_nonce : str_eq request.path (codes "/new-nonce") ≡ false
  pub no_ca : str_eq request.path (codes "/ca.pem") ≡ false

module _ (server : MockServer) (signs : Signs server) (auto : server.auto_validate ≡ true) where
  abbrev pub cfg : Config
  cfg = as_responder server

  read-valid_jws :
      (mode : PayloadMode) (request : MockRequest)
      → length request.content ≤ 64 * 1024
      → read_valid_jws cfg mode (scope_of request) ≡ (
          parse_unverified_jws server.outside.decoders mode request.content >>= λ _.
          ok request.content)
  unfolding read_valid_jws read_body read_messages
  read-valid_jws mode request fits =
      let small : ltb max_body_size (length request.content) ≡ false = ground arith in rw small refl

  -- The check of the JWS, and a handler that answers alike.
  with_jws-Same :
      (mode : PayloadMode) (request : MockRequest) (nonce : Str) (f : MockHandler)
      (g : Str → Handler) (s : MockState)
      → length request.content ≤ 64 * 1024
      → AreApart s
      → Same (f s) (g request.content (view s))
      → Same
          (elim (parse_unverified_jws server.outside.decoders mode request.content) [
            | raise _ ↦ (problem_response nonce 400 (codes "malformed"), s)
            | ok _ ↦ f s
          ])
          (with_jws cfg mode (scope_of request) nonce g (view s))
  unfolding with_jws
  with_jws-Same mode request nonce f g s fits apart same =
      let parse = parse_unverified_jws server.outside.decoders mode request.content in
      let read = read-valid_jws mode request fits in
      elim (Result-cases parse) [
        | inl (e, refused) ↦
            rw (refused, read ∙ ap (λ r. r >>= λ _. ok request.content) refused, with_jws)
              (refl, refl, apart)
        | inr (parsed, passed) ↦
            rw (passed, read ∙ ap (λ r. r >>= λ _. ok request.content) passed, with_jws) same
      ]

  -- One request, after the two paths that need no JWS.
  abbrev pub Checked : MockRequest → Type 0
  Checked request =
      (nonce : Str) (s : MockState)
      → AreApart s
      → Same (mock_checked server nonce request s) (
          dispatch cfg (scope_of request) (mock_base_url server) nonce request.path
            (route request.path) (view s))

  module _ (method r content : Str) (fits : length content ≤ 64 * 1024) where
    abbrev pub at : Str → MockRequest
    at path = record { method = method; path = path; content = content }

    pub authz-Checked : Checked (at (codes "/authz/" ++ r))
    unfolding mock_checked mock_route route starts_with strip_prefix str_eq dispatch
    authz-Checked nonce s apart =
        with_jws-Same empty (at (codes "/authz/" ++ r)) nonce
          (mock_authz server nonce (codes "/authz/" ++ r))
          (λ _. handle_authz (mock_base_url server) nonce (codes "/authz/" ++ r)) s fits apart
          (authz-Same server nonce (codes "/authz/" ++ r) s apart)

    pub chall-Checked : Checked (at (codes "/chall/" ++ r))
    unfolding mock_checked mock_route route starts_with strip_prefix str_eq dispatch
    chall-Checked nonce s apart =
        with_jws-Same object (at (codes "/chall/" ++ r)) nonce
          (mock_answer_challenge server nonce (codes "/chall/" ++ r))
          (λ _. handle_challenge cfg (mock_base_url server) nonce (codes "/chall/" ++ r)) s fits
          apart (challenge-Same server nonce (codes "/chall/" ++ r) s auto apart)

    pub finalize-Checked : Checked (at (codes "/finalize/" ++ r))
    unfolding mock_checked mock_route route starts_with strip_prefix str_eq dispatch
    finalize-Checked nonce s apart =
        with_jws-Same object (at (codes "/finalize/" ++ r)) nonce
          (mock_finalize server nonce (codes "/finalize/" ++ r) content)
          (handle_finalize cfg (mock_base_url server) nonce (codes "/finalize/" ++ r)) s fits apart
          (finalize-Same server nonce (codes "/finalize/" ++ r) content s signs apart)

    pub order-Checked : Checked (at (codes "/order/" ++ r))
    unfolding mock_checked mock_route route starts_with strip_prefix str_eq dispatch
    order-Checked nonce s apart =
        with_jws-Same empty (at (codes "/order/" ++ r)) nonce
          (mock_order server nonce (codes "/order/" ++ r))
          (λ _. handle_order (mock_base_url server) nonce (codes "/order/" ++ r)) s fits apart
          (order-Same server nonce (codes "/order/" ++ r) s apart)

    pub cert-Checked : Checked (at (codes "/cert/" ++ r))
    unfolding mock_checked mock_route route starts_with strip_prefix str_eq dispatch
    cert-Checked nonce s apart =
        with_jws-Same empty (at (codes "/cert/" ++ r)) nonce
          (mock_cert server nonce (codes "/cert/" ++ r))
          (λ _. handle_cert (mock_base_url server) nonce (codes "/cert/" ++ r)) s fits apart
          (cert-Same server nonce (codes "/cert/" ++ r) s apart)

    pub new_account-Checked : Checked (at (codes "/new-account"))
    unfolding mock_checked mock_route route starts_with strip_prefix str_eq dispatch
    new_account-Checked nonce s apart =
        with_jws-Same object (at (codes "/new-account")) nonce
          (mock_new_account server nonce content)
          (handle_new_account cfg (mock_base_url server) nonce) s fits apart
          (new_account-Same server nonce content s apart)

    pub new_order-Checked : Checked (at (codes "/new-order"))
    unfolding mock_checked mock_route route starts_with strip_prefix str_eq dispatch
    new_order-Checked nonce s apart =
        with_jws-Same object (at (codes "/new-order")) nonce (mock_new_order server nonce content)
          (handle_new_order cfg (mock_base_url server) nonce) s fits apart
          (new_order-Same server nonce content s apart)

    pub revoke-Checked : Checked (at (codes "/revoke-cert"))
    unfolding mock_checked mock_route route starts_with strip_prefix str_eq dispatch
    revoke-Checked nonce s apart =
        with_jws-Same object (at (codes "/revoke-cert")) nonce (bare 200 nonce) (λ _. accept nonce)
          s fits apart (refl, refl, apart)

    pub key_change-Checked : Checked (at (codes "/key-change"))
    unfolding mock_checked mock_route route starts_with strip_prefix str_eq dispatch
    key_change-Checked nonce s apart =
        with_jws-Same object (at (codes "/key-change")) nonce
          (λ t. (json_response nonce 200 (obj end) none, t)) (λ _. accept nonce) s fits apart
          (refl, refl, apart)

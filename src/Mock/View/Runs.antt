-- ===== src/Mock/View/Runs.antt =====
-- Every common request, and sequences of them: the mock server is the approving responder.
use lacme.Prelude.{
  suc, ◌≡◌, refl, subst, true, false, List, [], ◌∷◌, ◌++◌, All, Str, str_eq, str_eq_iff, Bool-cases,
  inl, inr, sym,
}
use lacme.Prelude.Text.{codes, starts_with, starts_with-eq-true}
use lacme.Responder.State.{State}
use lacme.Responder.Request.{route, nonce_text, get_base_url, mounted_path}
use lacme.Responder.Serve.{dispatch, respond}
use lacme.Mock.State.{MockState, MockServer, MockRequest}
use lacme.Mock.Serve.{mock_route, mock_checked, handle_request}
use lacme.Mock.View.{view, as_responder, Same, AreApart, read_mock, read_outcome, Reading}
use lacme.Mock.View.Finalizing.{Signs}
use lacme.Mock.View.Server.{
  scope_of, IsCommon, Checked, authz-Checked, chall-Checked, finalize-Checked, order-Checked,
  cert-Checked, new_account-Checked, new_order-Checked, revoke-Checked, key_change-Checked,
}

module _ (server : MockServer) (signs : Signs server) (auto : server.auto_validate ≡ true) where
  -- No path of a handler.
  other-Checked :
      (request : MockRequest)
      → IsCommon request
      → str_eq request.path (codes "/directory") ≡ false
      → str_eq request.path (codes "/new-account") ≡ false
      → str_eq request.path (codes "/new-order") ≡ false
      → str_eq request.path (codes "/revoke-cert") ≡ false
      → str_eq request.path (codes "/key-change") ≡ false
      → starts_with request.path (codes "/authz/") ≡ false
      → starts_with request.path (codes "/chall/") ≡ false
      → starts_with request.path (codes "/finalize/") ≡ false
      → starts_with request.path (codes "/order/") ≡ false
      → starts_with request.path (codes "/cert/") ≡ false
      → Checked server signs auto request
  unfolding mock_checked mock_route route dispatch
  other-Checked request common d a o r k pa pc pf po pe nonce s apart =
      rw
        (
          common.no_nonce, common.no_ca, d, a, o, r, k, pa, pc, pf, po, pe, mock_checked,
          mock_route, route,
        )
        (refl, refl, apart)

  module _ (request : MockRequest) (common : IsCommon request) where
    abbrev with_path : Str → MockRequest
    with_path path = record { method = request.method; path = path; content = request.content }

    by_path :
        (t : Str)
        → str_eq request.path t ≡ true
        → Checked server signs auto (with_path t)
        → Checked server signs auto request
    by_path t same h =
        subst (λ path. Checked server signs auto (with_path path))
          (sym ((str_eq_iff request.path t).0 same)) h

    by_prefix :
        (p : Str)
        → starts_with request.path p ≡ true
        → ((r : Str) → Checked server signs auto (with_path (p ++ r)))
        → Checked server signs auto request
    by_prefix p starts h =
        let (r, same) = starts_with-eq-true request.path p starts in
        subst (λ path. Checked server signs auto (with_path path)) (sym same) (h r)

    abbrev m : Str
    m = request.method

    abbrev c : Str
    c = request.content

    prefixed-Checked :
        str_eq request.path (codes "/directory") ≡ false
        → str_eq request.path (codes "/new-account") ≡ false
        → str_eq request.path (codes "/new-order") ≡ false
        → str_eq request.path (codes "/revoke-cert") ≡ false
        → str_eq request.path (codes "/key-change") ≡ false
        → Checked server signs auto request
    prefixed-Checked d a o r k = elim (Bool-cases (starts_with request.path (codes "/authz/"))) [
      | inl here ↦
          by_prefix (codes "/authz/") here (λ t. authz-Checked server signs auto m t c common.fits)
      | inr pa ↦ elim (Bool-cases (starts_with request.path (codes "/chall/"))) [
        | inl here ↦
            by_prefix (codes "/chall/") here
              (λ t. chall-Checked server signs auto m t c common.fits)
        | inr pc ↦ elim (Bool-cases (starts_with request.path (codes "/finalize/"))) [
          | inl here ↦
              by_prefix (codes "/finalize/") here
                (λ t. finalize-Checked server signs auto m t c common.fits)
          | inr pf ↦ elim (Bool-cases (starts_with request.path (codes "/order/"))) [
            | inl here ↦
                by_prefix (codes "/order/") here
                  (λ t. order-Checked server signs auto m t c common.fits)
            | inr po ↦ elim (Bool-cases (starts_with request.path (codes "/cert/"))) [
              | inl here ↦
                  by_prefix (codes "/cert/") here
                    (λ t. cert-Checked server signs auto m t c common.fits)
              | inr pe ↦ other-Checked request common d a o r k pa pc pf po pe
            ]
          ]
        ]
      ]
    ]

    -- The paths of handlers, tried one after the other.
    request-Checked :
        str_eq request.path (codes "/directory") ≡ false → Checked server signs auto request
    request-Checked d = elim (Bool-cases (str_eq request.path (codes "/new-account"))) [
      | inl here ↦
          by_path (codes "/new-account") here
            (new_account-Checked server signs auto m [] c common.fits)
      | inr a ↦ elim (Bool-cases (str_eq request.path (codes "/new-order"))) [
        | inl here ↦
            by_path (codes "/new-order") here
              (new_order-Checked server signs auto m [] c common.fits)
        | inr o ↦ elim (Bool-cases (str_eq request.path (codes "/revoke-cert"))) [
          | inl here ↦
              by_path (codes "/revoke-cert") here
                (revoke-Checked server signs auto m [] c common.fits)
          | inr r ↦ elim (Bool-cases (str_eq request.path (codes "/key-change"))) [
            | inl here ↦
                by_path (codes "/key-change") here
                  (key_change-Checked server signs auto m [] c common.fits)
            | inr k ↦ prefixed-Checked d a o r k
          ]
        ]
      ]
    ]

  directory-Same :
      (request : MockRequest) (s : MockState)
      → str_eq request.path (codes "/directory") ≡ true
      → AreApart s
      → Same
          (handle_request server request s)
          (respond (as_responder server) (scope_of request) (view s))
  unfolding handle_request respond get_base_url mounted_path route dispatch
  directory-Same request s directory apart =
      rw (directory, handle_request, respond, route) (refl, refl, apart)

  handle_request-Same :
      (request : MockRequest) (s : MockState)
      → IsCommon request
      → AreApart s
      → Same
          (handle_request server request s)
          (respond (as_responder server) (scope_of request) (view s))
  unfolding handle_request respond get_base_url mounted_path
  handle_request-Same request s common apart =
      let n = suc s.nonce_counter in
      let counted : MockState = record s { nonce_counter = n } in
      elim (Bool-cases (str_eq request.path (codes "/directory"))) [
        | inl directory ↦ directory-Same request s directory apart
        | inr other ↦
            rw (other, common.no_nonce, handle_request, respond)
              (request-Checked request common other (nonce_text n) counted apart)
      ]

  -- The answers to a sequence of requests, and the state after it.
  abbrev pub mock_run : List MockRequest → MockState → List Reading × MockState
  mock_run [] s = ([], s)
  mock_run (request ∷ requests) s =
      let (outcome, s') = handle_request server request s in
      let (answers, s'') = mock_run requests s' in (read_mock outcome ∷ answers, s'')

  abbrev pub responder_run : List MockRequest → State → List Reading × State
  responder_run [] s = ([], s)
  responder_run (request ∷ requests) s =
      let (outcome, s') = respond (as_responder server) (scope_of request) s in
      let (answers, s'') = responder_run requests s' in (read_outcome outcome ∷ answers, s'')

  -- A mock server that validates by itself is the responder that approves every challenge: any sequence of
  -- requests gets the same statuses, nonces, locations and contents from both, and leaves the same
  -- accounts, orders, authorizations, certificates and counters. The requests fit in 64 KiB and are for neither
  -- /new-nonce nor /ca.pem, the certificate authority signs what it is asked for, and the run starts where the
  -- two challenges of each authorization have two URLs, as with no authorization at all.
  pub mock_run-Same :
      (requests : List MockRequest) (s : MockState)
      → All IsCommon requests
      → AreApart s
      → ((mock_run requests s).0 ≡ (responder_run requests (view s)).0)
        × (view (mock_run requests s).1 ≡ (responder_run requests (view s)).1)
  mock_run-Same [] s common apart = (refl, refl)
  mock_run-Same (request ∷ requests) s (first, rest) apart =
      let (answer, state, apart') = handle_request-Same request s first apart in
      let s' = (handle_request server request s).1 in
      let (answers, states) = mock_run-Same requests s' rest apart' in
      let o = (handle_request server request s).0 in
      let o' = (respond (as_responder server) (scope_of request) (view s)).0 in
      subst
        (λ t.
          (read_mock o ∷ (mock_run requests s').0 ≡ read_outcome o' ∷ (responder_run requests t).0)
          × (view (mock_run requests s').1 ≡ (responder_run requests t).1))
        state (cc (answer, answers), states)

-- ===== src/Mock/View/Orders.antt =====
-- Placing and promoting orders, on the mock server and on the responder.
use lacme.Prelude.{
  ℕ, suc, ◌≡◌, ◌≢◌, refl, ap, sym, subst, ◌∙◌, Error, value_error, unsupported_identifier_type,
  type_error, key_error, runtime_error, store_error, os_error, List, [], ◌∷◌, ◌++◌, Str, str_Eq,
  Bool-cases, Option-cases, Result-cases, inl, inr,
}
use lacme.Prelude.Text.{codes}
use lacme.Prelude.Dict.{get, put}
use lacme.Identifiers.Values.{WireIdentifier}
use lacme.Responder.State.{OrderStatus}
use lacme.Responder.Orders.{
  order_error, new_authorization, add_authorizations, place_order, read_order_request,
  handle_new_order, all_valid, promote, handle_order, handle_cert, store_order,
}
use lacme.Responder.Replies.{order_body}
use lacme.Mock.State.{MockOrder, MockState, MockServer, mock_base_url}
use lacme.Mock.Orders.{
  mock_order_error, mock_read_order, mock_authorization, mock_authorize, mock_place_order,
  mock_order_body, mock_new_order, mock_all_valid, mock_promote, mock_order, mock_cert,
}
use lacme.Mock.View.{
  get-view, view_order, view_authorization, view, as_responder, Same, AreApart, put-AreApart,
  view-store_order, view-put_authorization,
}

append-ne : (s : Str) (c : ℕ) (t : Str) → s ≢ s ++ c ∷ t
append-ne [] c t h = cc h
append-ne (x ∷ s) c t h = append-ne s c t (cc h)

module _ (server : MockServer) where
  view-authorization :
      (n : ℕ) (ident : WireIdentifier)
      → view_authorization (mock_authorization server n ident)
        ≡ new_authorization (as_responder server) (mock_base_url server) n ident
  unfolding mock_authorization new_authorization
  view-authorization n ident = refl

  view-authorize :
      (idents : List WireIdentifier) (s : MockState)
      → ((mock_authorize server idents s).0
          ≡ (add_authorizations (as_responder server) (mock_base_url server) idents (view s)).0)
        × (view (mock_authorize server idents s).1
            ≡ (add_authorizations (as_responder server) (mock_base_url server) idents (view s)).1)
  unfolding mock_authorize add_authorizations mock_authorization new_authorization
  view-authorize [] s = (refl, refl)
  view-authorize (ident ∷ idents) s =
      let n = suc s.authz_counter in
      let authz = mock_authorization server n ident in
      let counted : MockState = record s { authz_counter = n } in
      let next : MockState = record counted {
        authorizations = put s.authorizations authz.url authz;
      } in
      let (urls, states) = view-authorize idents next in
      let rest = add_authorizations (as_responder server) (mock_base_url server) idents in
      subst
        (λ t.
          (authz.url ∷ (mock_authorize server idents next).0 ≡ authz.url ∷ (rest t).0)
          × (view (mock_authorize server idents next).1 ≡ (rest t).1))
        (view-put_authorization authz.url authz counted) (ap (λ us. authz.url ∷ us) urls, states)

  view-place_order :
      (idents : List WireIdentifier) (s : MockState)
      → (view_order (mock_place_order server idents s).0
          ≡ (place_order (as_responder server) (mock_base_url server) idents (view s)).0)
        × (view (mock_place_order server idents s).1
            ≡ (place_order (as_responder server) (mock_base_url server) idents (view s)).1)
  unfolding mock_place_order place_order
  view-place_order idents s =
      let counted : MockState = record s { order_counter = suc s.order_counter } in
      let (urls, states) = view-authorize idents counted in
      let (order, _) = mock_place_order server idents s in
      let order_of = λ (us : List Str). record (view_order order) { authz_urls = us } in
      let s' = (mock_authorize server idents counted).1 in
      (
        ap order_of urls,
        view-store_order order.url order s'
            ∙ ap (λ us. store_order order.url (order_of us) (view s')) urls
            ∙ ap (store_order order.url _) states,
      )

  pub view-order_body : (order : MockOrder) → mock_order_body order ≡ order_body (view_order order)
  unfolding mock_order_body order_body
  view-order_body order = refl

  read_order-same :
      (content : Str)
      → mock_read_order server content ≡ read_order_request (as_responder server) content
  unfolding mock_read_order read_order_request
  read_order-same content = refl

  mock_order_error-same : (e : Error) → mock_order_error e ≡ order_error e
  mock_order_error-same unsupported_identifier_type = refl
  mock_order_error-same value_error = refl
  mock_order_error-same type_error = refl
  mock_order_error-same key_error = refl
  mock_order_error-same runtime_error = refl
  mock_order_error-same store_error = refl
  mock_order_error-same os_error = refl

  authorize-AreApart :
      (idents : List WireIdentifier) (s : MockState)
      → AreApart s
      → AreApart (mock_authorize server idents s).1
  unfolding mock_authorize mock_authorization
  authorize-AreApart [] s h = h
  authorize-AreApart (ident ∷ idents) s h = authorize-AreApart idents _ (
      put-AreApart _ (mock_authorization server (suc s.authz_counter) ident)
        (record s { authz_counter = suc s.authz_counter }) (append-ne _ b'-' (codes "dns")) h)

  place_order-AreApart :
      (idents : List WireIdentifier) (s : MockState)
      → AreApart s
      → AreApart (mock_place_order server idents s).1
  unfolding mock_place_order
  place_order-AreApart idents s h = authorize-AreApart idents _ h

  pub new_order-Same :
      (nonce content : Str) (s : MockState)
      → AreApart s
      → Same
          (mock_new_order server nonce content s)
          (handle_new_order (as_responder server) (mock_base_url server) nonce content (view s))
  unfolding mock_new_order handle_new_order
  new_order-Same nonce content s apart = elim (Result-cases (mock_read_order server content)) [
    | inl (e, refused) ↦
        rw
          (
            refused,
            sym (read_order-same content) ∙ refused,
            mock_order_error-same e,
            mock_new_order,
            handle_new_order,
          )
          (refl, refl, apart)
    | inr (idents, read) ↦
        let (order, state) = view-place_order idents s in
        rw
          (
            read,
            sym (read_order-same content) ∙ read,
            ← order,
            ← state,
            view-order_body,
            mock_new_order,
            handle_new_order,
          )
          (refl, refl, place_order-AreApart idents s apart)
  ]

  view-all_valid :
      (s : MockState) (urls : List Str) → mock_all_valid s urls ≡ all_valid (view s) urls
  unfolding mock_all_valid all_valid
  view-all_valid s [] = refl
  view-all_valid s (url ∷ urls) = elim (Option-cases (get s.authorizations url)) [
    | inl missing ↦ rw (get-view view_authorization s.authorizations url, missing) refl
    | inr (authz, found) ↦
        rw (get-view view_authorization s.authorizations url, found, view-all_valid s urls) refl
  ]

  view-promote_at :
      (s : MockState) (order : MockOrder) (status : OrderStatus)
      → order.status ≡ status
      → view_order (mock_promote s order) ≡ promote (view s) (view_order order)
  unfolding mock_promote promote
  view-promote_at s order OrderStatus.pending e =
      elim (Bool-cases (mock_all_valid s order.authz_urls)) [
        | inl valid ↦
            rw (e, valid, sym (view-all_valid s order.authz_urls) ∙ valid, mock_promote, promote)
              refl
        | inr waiting ↦
            rw
              (e, waiting, sym (view-all_valid s order.authz_urls) ∙ waiting, mock_promote, promote)
              refl
      ]
  view-promote_at s order OrderStatus.ready e = rw (e, mock_promote, promote) refl
  view-promote_at s order OrderStatus.valid e = rw (e, mock_promote, promote) refl

  pub view-promote :
      (s : MockState) (order : MockOrder)
      → view_order (mock_promote s order) ≡ promote (view s) (view_order order)
  view-promote s order = view-promote_at s order order.status refl

  pub order-Same :
      (nonce path : Str) (s : MockState)
      → AreApart s
      → Same
          (mock_order server nonce path s)
          (handle_order (mock_base_url server) nonce path (view s))
  unfolding mock_order handle_order
  order-Same nonce path s apart =
      let url = mock_base_url server ++ path in
      elim (Option-cases (get s.orders url)) [
        | inl missing ↦
            rw (get-view view_order s.orders url, missing, mock_order, handle_order)
              (refl, refl, apart)
        | inr (order, found) ↦
            rw
              (
                get-view view_order s.orders url,
                found,
                view-order_body,
                ← view-promote s order,
                mock_order,
                handle_order,
              )
              (refl, view-store_order url (mock_promote s order) s, apart)
      ]

  pub cert-Same :
      (nonce path : Str) (s : MockState)
      → AreApart s
      → Same
          (mock_cert server nonce path s)
          (handle_cert (mock_base_url server) nonce path (view s))
  unfolding mock_cert handle_cert
  cert-Same nonce path s apart =
      elim (Option-cases (get s.certificates (mock_base_url server ++ path))) [
        | inl missing ↦ rw (missing, mock_cert, handle_cert) (refl, refl, apart)
        | inr (p, found) ↦ rw (found, mock_cert, handle_cert) (refl, refl, apart)
      ]

-- ===== src/Mock/View/Finalizing.antt =====
-- Finalizing an order, on the mock server and on the responder.
use lacme.Prelude.{
  suc, ◌≡◌, refl, sym, subst, ◌∙◌, some, List, Str, str_Eq, Bool-cases, Option-cases, Result-cases,
  inl, inr,
}
use lacme.Prelude.Text.{codes}
use lacme.Prelude.Dict.{get, put}
use lacme.Identifiers.Values.{IdentifierValue}
use lacme.Responder.Request.{numbered}
use lacme.Responder.Orders.{
  read_csr, finalize_ready, finalize_found, handle_finalize, order_url_of, record_certificate,
}
use lacme.Mock.State.{MockOrder, MockState, MockServer, mock_base_url}
use lacme.Mock.Orders.{
  mock_promote, mock_is_ready, mock_store_order, mock_read_csr, mock_issue, mock_finalize_found,
  mock_finalize,
}
use lacme.Mock.View.{get-view, view_order, view, as_responder, Same, AreApart, view-store_order}
use lacme.Mock.View.Orders.{view-order_body, view-promote}

module _ (server : MockServer) where
  -- The certificate authority signs what it is asked for.
  abbrev pub Signs : Type 0
  Signs =
      (der : Str) (identifiers : List (IdentifierValue server.outside.py))
      → (pem : Str) × (server.outside.issue_from_csr der identifiers ≡ some pem)

  read_csr-same :
      (content : Str) (order : MockOrder)
      → mock_read_csr server content order
        ≡ read_csr (as_responder server) content (view_order order)
  unfolding mock_read_csr read_csr
  read_csr-same content order = refl

  issue-Same :
      (nonce content url : Str) (order : MockOrder) (s : MockState)
      → Signs
      → AreApart s
      → Same (mock_issue server nonce content url order s) (
          finalize_ready
            (as_responder server)
            (mock_base_url server)
            nonce
            content
            url
            (view_order order)
            (view s))
  unfolding mock_issue finalize_ready record_certificate
  issue-Same nonce content url order s signs apart =
      elim (Result-cases (mock_read_csr server content order)) [
        | inl (e, refused) ↦
            rw (refused, sym (read_csr-same content order) ∙ refused, mock_issue, finalize_ready)
              (refl, refl, apart)
        | inr ((der, identifiers), read) ↦
            let (pem, signed) = signs der identifiers in
            rw
              (
                read,
                sym (read_csr-same content order) ∙ read,
                signed,
                view-order_body server,
                mock_issue,
                finalize_ready,
              )
              (
                refl,
                view-store_order url _ (record s {
                  certificates =
                      put s.certificates
                        (numbered (mock_base_url server) (codes "cert") (suc s.cert_counter)) pem;
                  cert_counter = suc s.cert_counter;
                }),
                apart,
              )
      ]

  finalize_found-Same :
      (nonce content url : Str) (found : MockOrder) (s : MockState)
      → Signs
      → AreApart s
      → Same (mock_finalize_found server nonce content url found s) (
          finalize_found
            (as_responder server)
            (mock_base_url server)
            nonce
            content
            url
            (view_order found)
            (view s))
  unfolding mock_finalize_found finalize_found
  finalize_found-Same nonce content url found s signs apart =
      let order = mock_promote s found in
      let s' = mock_store_order url order s in
      elim (Bool-cases (mock_is_ready order)) [
        | inl ready ↦
            rw (← view-promote server s found, ready, mock_finalize_found, finalize_found)
              (subst
                (λ t. Same (mock_issue server nonce content url order s') (
                  finalize_ready (as_responder server) (mock_base_url server) nonce content url
                    (view_order order) t))
                (view-store_order url order s) (issue-Same nonce content url order s' signs apart))
        | inr waiting ↦
            rw (← view-promote server s found, waiting, mock_finalize_found, finalize_found)
              (refl, view-store_order url order s, apart)
      ]

  pub finalize-Same :
      (nonce path content : Str) (s : MockState)
      → Signs
      → AreApart s
      → Same
          (mock_finalize server nonce path content s)
          (handle_finalize (as_responder server) (mock_base_url server) nonce path content (view s))
  unfolding mock_finalize handle_finalize order_url_of
  finalize-Same nonce path content s signs apart =
      let url = order_url_of (mock_base_url server) path in
      elim (Option-cases (get s.orders url)) [
        | inl missing ↦
            rw (get-view view_order s.orders url, missing, mock_finalize, handle_finalize)
              (refl, refl, apart)
        | inr (found, there) ↦
            rw (get-view view_order s.orders url, there, mock_finalize, handle_finalize)
              (finalize_found-Same nonce content url found s signs apart)
      ]

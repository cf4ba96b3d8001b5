-- ===== src/Responder/Steps/Advances/Moves.antt =====
-- Every step advances the state.
use lacme.Prelude.{◌≡◌, refl, subst, none, some, List, Str, str_Eq, arith}
use lacme.Prelude.Text.{codes}
use lacme.Prelude.Dict.{get}
use lacme.Identifiers.Values.{WireIdentifier}
use lacme.Responder.State.{Order, OrderStatus, State, Config}
use lacme.Responder.Orders.{promote, record_certificate, place_order}
use lacme.Responder.Challenges.{answer_challenge}
use lacme.Responder.Steps.{
  Step, Steps, here, next, nonce, account, place, promoted, challenged, issued,
}
use lacme.Responder.Steps.Consistent.{HasCertificate, OrderOk, IsConsistent}
use lacme.Responder.Steps.Fresh.{numbered_fresh}
use lacme.Responder.Steps.Placing.{place-Adds}
use lacme.Responder.Steps.Preserves.{find_challenge-get, Steps-IsConsistent}
use lacme.Responder.Steps.Advances.{
  Later, Same, Advances, Later-refl, Same-refl, Kept-refl, Kept-put_fresh, Kept-put, promote-Later,
  answer_challenge-Same, Advances-refl, Advances-trans,
}

record_certificate-Later :
    (base url cert_pem : Str) (order : Order) (s : State)
    → order.status ≡ OrderStatus.ready
    → OrderOk s.authorizations s.certificates order
    → Later order (record_certificate base url order cert_pem s).0
unfolding record_certificate
record_certificate-Later base url cert_pem order s ready h =
    let unset : order.certificate_url ≡ none =
      subst (λ st. HasCertificate s.certificates st order.certificate_url) ready h.certificate in
    record {
      identifiers = refl;
      authz_urls = refl;
      finalize_url = refl;
      status = rw ready (omega arith);
      certificate_url = λ u e. absurd (cc);
    }

place_order-Advances :
    (cfg : Config) (base : Str) (ids : List WireIdentifier) (s : State)
    → IsConsistent s
    → Advances s (place_order cfg base ids s).1
unfolding place_order
place_order-Advances cfg base ids s h =
    let r = place-Adds cfg base ids s h in
    record {
      accounts = rw r.accounts (Kept-refl (λ a a'. a' ≡ a) (λ a. refl) s.accounts);
      certificates = rw r.certificates (Kept-refl (λ c c'. c' ≡ c) (λ a. refl) s.certificates);
      authorizations = λ u a found. (a, r.kept u a found, Same-refl a);
      orders = rw r.orders (
          Kept-put_fresh Later Later-refl s.orders _ _
            (numbered_fresh s.orders s.order_counter base (codes "order") h.orders_numbered));
    }

record_certificate-Advances :
    (base url cert_pem : Str) (order : Order) (s : State)
    → get s.orders url ≡ some order
    → order.status ≡ OrderStatus.ready
    → IsConsistent s
    → Advances s (record_certificate base url order cert_pem s).1
unfolding record_certificate
record_certificate-Advances base url cert_pem order s found ready h = record {
  accounts = Kept-refl (λ a a'. a' ≡ a) (λ a. refl) s.accounts;
  certificates =
      Kept-put_fresh (λ c c'. c' ≡ c) (λ a. refl) s.certificates _ cert_pem
        (numbered_fresh s.certificates s.cert_counter base (codes "cert") h.certs_numbered);
  authorizations = Kept-refl Same Same-refl s.authorizations;
  orders =
      Kept-put Later Later-refl s.orders url (record_certificate base url order cert_pem s).0 order
        found
        (record_certificate-Later base url cert_pem order s ready (h.orders_ok url order found));
}

module _ (cfg : Config) where
  pub Step-Advances : {s t : State} → Step cfg s t → IsConsistent s → Advances s t
  Step-Advances {s} (nonce e) h = rw e (record {
    accounts = (Advances-refl s).accounts;
    certificates = (Advances-refl s).certificates;
    authorizations = (Advances-refl s).authorizations;
    orders = (Advances-refl s).orders;
  })
  Step-Advances {s} (account base thumbprint contact new e) h = rw e (record {
    accounts =
        Kept-put_fresh (λ a a'. a' ≡ a) (λ a. refl) s.accounts _ _
          (numbered_fresh s.accounts s.account_counter base (codes "acct") h.accounts_numbered);
    certificates = (Advances-refl s).certificates;
    authorizations = (Advances-refl s).authorizations;
    orders = (Advances-refl s).orders;
  })
  Step-Advances {s} (place base ids e) h = rw e (place_order-Advances cfg base ids s h)
  Step-Advances {s} (promoted url order found e) h = rw e (record {
    accounts = (Advances-refl s).accounts;
    certificates = (Advances-refl s).certificates;
    authorizations = (Advances-refl s).authorizations;
    orders =
        Kept-put Later Later-refl s.orders url (promote s order) order found
          (promote-Later s order);
  })
  Step-Advances {s} (challenged chall_url url authz is_dns found e) h = rw e (record {
    accounts = (Advances-refl s).accounts;
    certificates = (Advances-refl s).certificates;
    authorizations =
        Kept-put Same Same-refl s.authorizations url (answer_challenge cfg s.nonce_counter authz)
          authz (find_challenge-get chall_url s.authorizations url authz is_dns h.distinct found)
          (answer_challenge-Same cfg s.nonce_counter authz);
    orders = (Advances-refl s).orders;
  })
  Step-Advances {s} (issued base url raw der cert_pem order ids found ready read signed e) h =
      rw e (record_certificate-Advances base url cert_pem order s found ready h)

  pub Steps-Advances : {s t : State} → Steps cfg s t → IsConsistent s → Advances s t
  Steps-Advances {s} here h = Advances-refl s
  Steps-Advances {s} {t} (next {t = r_end} r st) h =
      Advances-trans s r_end t (Steps-Advances r h) (Step-Advances st (Steps-IsConsistent cfg r h))

-- ===== src/Responder/Steps/Preserves.antt =====
-- Every step keeps the invariant, and so does every request.
use lacme.Prelude.{
  suc, ◌≡◌, ◌⊎◌, inl, inr, refl, subst, Bool, true, some, [], ◌∷◌, Str, str_Eq, str_eq_iff, arith,
}
use lacme.Prelude.Text.{codes}
use lacme.Prelude.Dict.{
  Dict, get, put, get-put_self, Has-put, Entries-put, NodupKeys, put-NodupKeys,
}
use lacme.Responder.State.{Authorization, Order, OrderStatus, State, Config}
use lacme.Responder.Orders.{all_valid, promote, record_certificate}
use lacme.Responder.Challenges.{find_challenge, answer_challenge}
use lacme.Responder.Request.{numbered}
use lacme.Responder.Steps.{
  Step, Steps, here, next, nonce, account, place, promoted, challenged, issued,
}
use lacme.Responder.Steps.Consistent.{HasCertificate, OrderOk, IsConsistent}
use lacme.Responder.Steps.Fresh.{numbered-put, numbered-update}
use lacme.Responder.Steps.Placing.{OrderOk-mono, place_order-IsConsistent}

-- An order moves to "ready" only when it was "pending" and all its authorizations are valid.
pub promote-cases :
    (s : State) (o : Order)
    → (promote s o ≡ o)
      ⊎ ((o.status ≡ OrderStatus.pending)
          × (all_valid s o.authz_urls ≡ true)
          × (promote s o ≡ record o { status = OrderStatus.ready }))
unfolding promote
promote-cases s o = ground arith

promote-OrderOk :
    (s : State) (o : Order) (auths : Dict Str Authorization) (certs : Dict Str Str)
    → OrderOk auths certs o
    → OrderOk auths certs (promote s o)
promote-OrderOk s o auths certs h = elim (promote-cases s o) [
  | inl same ↦ rw same h
  | inr (pending, _, e) ↦ rw e (record {
    known = h.known;
    certificate = subst (λ st. HasCertificate certs st o.certificate_url) pending h.certificate;
  })
]

pub find_challenge-get :
    (chall_url : Str) (d : Dict Str Authorization) (url : Str) (authz : Authorization)
    (is_dns : Bool)
    → NodupKeys d
    → find_challenge chall_url d ≡ some (url, authz, is_dns)
    → get d url ≡ some authz
unfolding find_challenge get
find_challenge-get chall_url [] url authz is_dns n h = cc
find_challenge-get chall_url ((j, a) ∷ d) url authz is_dns (new, n) h =
    ground (arith, str_eq_iff j url, find_challenge-get chall_url d url authz is_dns n)

record_certificate-IsConsistent :
    (base url cert_pem : Str) (order : Order) (s : State)
    → get s.orders url ≡ some order
    → IsConsistent s
    → IsConsistent (record_certificate base url order cert_pem s).1
unfolding record_certificate
record_certificate-IsConsistent base url cert_pem order s found h =
    let cert_url = numbered base (codes "cert") (suc s.cert_counter) in
    let certs = put s.certificates cert_url cert_pem in
    let order' = (record_certificate base url order cert_pem s).0 in
    record {
      accounts_numbered = h.accounts_numbered;
      orders_numbered =
          numbered-update s.orders s.order_counter url order' order h.orders_numbered found;
      authz_numbered = h.authz_numbered;
      certs_numbered =
          numbered-put s.certificates s.cert_counter base (codes "cert") cert_pem h.certs_numbered;
      distinct = h.distinct;
      orders_ok =
          Entries-put (λ u o. OrderOk s.authorizations certs o) s.orders url order'
            (λ u o k.
              OrderOk-mono s.authorizations s.authorizations s.certificates certs o (λ v has. has)
                (λ v has. Has-put s.certificates cert_url v cert_pem has) (h.orders_ok u o k))
            (record {
              known = (h.orders_ok url order found).known;
              certificate =
                  (cert_url, refl, (cert_pem, get-put_self s.certificates cert_url cert_pem));
            });
    }

module _ (cfg : Config) where
  pub Step-IsConsistent : {s t : State} → Step cfg s t → IsConsistent s → IsConsistent t
  Step-IsConsistent (nonce e) h = rw e (record {
    accounts_numbered = h.accounts_numbered;
    orders_numbered = h.orders_numbered;
    authz_numbered = h.authz_numbered;
    certs_numbered = h.certs_numbered;
    distinct = h.distinct;
    orders_ok = h.orders_ok;
  })
  Step-IsConsistent {s} (account base thumbprint contact new e) h = rw e (record {
    accounts_numbered =
        numbered-put s.accounts s.account_counter base (codes "acct") _ h.accounts_numbered;
    orders_numbered = h.orders_numbered;
    authz_numbered = h.authz_numbered;
    certs_numbered = h.certs_numbered;
    distinct = h.distinct;
    orders_ok = h.orders_ok;
  })
  Step-IsConsistent {s} (place base ids e) h = rw e (place_order-IsConsistent cfg base ids s h)
  Step-IsConsistent {s} (promoted url order found e) h = rw e (record {
    accounts_numbered = h.accounts_numbered;
    orders_numbered =
        numbered-update s.orders s.order_counter url (promote s order) order h.orders_numbered
          found;
    authz_numbered = h.authz_numbered;
    certs_numbered = h.certs_numbered;
    distinct = h.distinct;
    orders_ok =
        Entries-put (λ u o. OrderOk s.authorizations s.certificates o) s.orders url
          (promote s order) h.orders_ok
          (promote-OrderOk s order s.authorizations s.certificates (h.orders_ok url order found));
  })
  Step-IsConsistent {s} (challenged chall_url url authz is_dns found e) h =
      let g = find_challenge-get chall_url s.authorizations url authz is_dns h.distinct found in
      let authz' = answer_challenge cfg s.nonce_counter authz in
      rw e (record {
        accounts_numbered = h.accounts_numbered;
        orders_numbered = h.orders_numbered;
        authz_numbered =
            numbered-update s.authorizations s.authz_counter url authz' authz h.authz_numbered g;
        certs_numbered = h.certs_numbered;
        distinct = put-NodupKeys s.authorizations url authz' h.distinct;
        orders_ok = λ u o k.
            OrderOk-mono s.authorizations (put s.authorizations url authz') s.certificates
              s.certificates o (λ v has. Has-put s.authorizations url v authz' has) (λ v has. has)
              (h.orders_ok u o k);
      })
  Step-IsConsistent {s} (issued base url raw der cert_pem order ids found ready read signed e) h =
      rw e (record_certificate-IsConsistent base url cert_pem order s found h)

  pub Steps-IsConsistent : {s t : State} → Steps cfg s t → IsConsistent s → IsConsistent t
  Steps-IsConsistent here h = h
  Steps-IsConsistent (next r st) h = Step-IsConsistent st (Steps-IsConsistent r h)

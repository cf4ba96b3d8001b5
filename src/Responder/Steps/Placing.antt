-- ===== src/Responder/Steps/Placing.antt =====
-- `place_order` keeps the invariant.
use lacme.Prelude.{ℕ, suc, refl, Option, List, [], ◌∷◌, Str, str_Eq, All, All-map}
use lacme.Prelude.Text.{codes}
use lacme.Prelude.Dict.{Dict, Has, Entries-put}
use lacme.Identifiers.Values.{WireIdentifier}
use lacme.Responder.State.{Authorization, Order, OrderStatus, State, Config}
use lacme.Responder.Orders.{add_authorizations, place_order}
use lacme.Responder.Steps.Consistent.{HasCertificate, OrderOk, IsConsistent}
use lacme.Responder.Steps.Fresh.{numbered-put}
use lacme.Responder.Steps.Authorizations.{Created, Adds, add_authorizations-Adds}

-- More authorizations and certificates do an order no harm.
HasCertificate-mono :
    (certs certs' : Dict Str Str) (st : OrderStatus) (url : Option Str)
    → ((u : Str) → Has certs u → Has certs' u)
    → HasCertificate certs st url
    → HasCertificate certs' st url
HasCertificate-mono certs certs' OrderStatus.valid url more (u, e, h) = (u, e, more u h)
HasCertificate-mono certs certs' OrderStatus.pending url more h = h
HasCertificate-mono certs certs' OrderStatus.ready url more h = h

pub OrderOk-mono :
    (auths auths' : Dict Str Authorization) (certs certs' : Dict Str Str) (o : Order)
    → ((u : Str) → Has auths u → Has auths' u)
    → ((u : Str) → Has certs u → Has certs' u)
    → OrderOk auths certs o
    → OrderOk auths' certs' o
OrderOk-mono auths auths' certs certs' o more_auths more_certs h = record {
  known = All-map o.authz_urls more_auths h.known;
  certificate =
      HasCertificate-mono certs certs' o.status o.certificate_url more_certs h.certificate;
}

module _ (cfg : Config) (base : Str) where
  Created-known :
      (auths : Dict Str Authorization) (n : ℕ) (urls : List Str) (ids : List WireIdentifier)
      → Created cfg base auths n urls ids
      → All (Has auths) urls
  Created-known auths n [] ids h = tt
  Created-known auths n (url ∷ urls) [] h = absurd h
  Created-known auths n (url ∷ urls) (ident ∷ ids) (spelled, found, rest) =
      ((_, found), Created-known auths (suc n) urls ids rest)

  module _ (ids : List WireIdentifier) (s : State) (h : IsConsistent s) where
    abbrev pub counted : State
    counted = record s { order_counter = suc s.order_counter }

    pub place-Adds :
        Adds cfg base ids counted
          (add_authorizations cfg base ids counted).0
          (add_authorizations cfg base ids counted).1
    place-Adds = add_authorizations-Adds cfg base ids counted h.authz_numbered h.distinct

    pub place_order-IsConsistent : IsConsistent (place_order cfg base ids s).1
    unfolding place_order
    place_order-IsConsistent =
        let r = place-Adds in
        let (urls, t) = add_authorizations cfg base ids counted in
        let order = (place_order cfg base ids s).0 in
        record {
          accounts_numbered = rw (r.accounts, r.account_counter) h.accounts_numbered;
          orders_numbered =
              rw (r.order_counter, r.orders)
                (numbered-put s.orders s.order_counter base (codes "order") order
                  h.orders_numbered);
          authz_numbered = r.numbered;
          certs_numbered = rw (r.certificates, r.cert_counter) h.certs_numbered;
          distinct = r.distinct;
          orders_ok =
              Entries-put (λ u o. OrderOk t.authorizations t.certificates o) t.orders order.url
                order
                (rw (r.orders, r.certificates)
                  (λ u o found.
                    OrderOk-mono s.authorizations t.authorizations s.certificates s.certificates o
                      (λ v (a, g). (a, r.kept v a g)) (λ v g. g) (h.orders_ok u o found)))
                (record {
                  known = Created-known t.authorizations s.authz_counter urls ids r.created;
                  certificate = refl;
                });
        }

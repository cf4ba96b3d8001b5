-- ===== src/Responder/Steps/Provenance/Keeps.antt =====
-- Every step keeps `IsAuthorized`.
use lacme.Prelude.{suc, ◌≡◌, refl, sym, subst, true, some, List, Str, str_Eq, ok, >>=-eq-ok}
use lacme.Prelude.Text.{codes}
use lacme.Prelude.Dict.{get, get-put_self, Entries, Entries-put}
use lacme.Json.{find}
use lacme.Jose.{object, parse_unverified_jws}
use lacme.Identifiers.Values.{WireIdentifier, IdentifierValue}
use lacme.Identifiers.Csr.Binding.{decode_and_validate_csr-Binds}
use lacme.Responder.State.{Order, OrderStatus, State, Config, init}
use lacme.Responder.Orders.{record_certificate, place_order, read_csr}
use lacme.Responder.Request.{numbered}
use lacme.Responder.Steps.{
  Step, Steps, here, next, nonce, account, place, promoted, challenged, issued,
}
use lacme.Responder.Steps.Consistent.{IsConsistent}
use lacme.Responder.Steps.Preserves.{find_challenge-get, Steps-IsConsistent}
use lacme.Responder.Steps.Placing.{place-Adds}
use lacme.Responder.Steps.Advances.{Advances}
use lacme.Responder.Steps.Advances.Moves.{Step-Advances}
use lacme.Responder.Steps.Provenance.{
  Covers, past_pending, IssuedFor, IsAuthorized, Covers-Kept, IssuedFor-Advances,
}
use lacme.Responder.Steps.Provenance.Grants.{
  Created-Covers, Sound, add_authorizations-Sound, answer_challenge-Sound, promote-Covers,
}

module _ (cfg : Config) where
  -- What the older orders and certificates had, they keep.
  covered-Advances :
      (s t : State)
      → Advances s t
      → IsAuthorized cfg s
      → Entries
          (λ u o. Covers cfg (past_pending o.status) t.authorizations o.authz_urls o.identifiers)
          s.orders
  covered-Advances s t h r u o found =
      Covers-Kept cfg (past_pending o.status) s.authorizations t.authorizations o.authz_urls
        o.identifiers h.authorizations (r.covered u o found)

  issued-Advances :
      (s t : State) → Advances s t → IsAuthorized cfg s → Entries (IssuedFor cfg t) s.certificates
  issued-Advances s t h r u pem found = IssuedFor-Advances cfg s t u pem h (r.issued u pem found)

  place_order-IsAuthorized :
      (base : Str) (ids : List WireIdentifier) (s : State)
      → IsConsistent s
      → Advances s (place_order cfg base ids s).1
      → IsAuthorized cfg s
      → IsAuthorized cfg (place_order cfg base ids s).1
  unfolding place_order
  place_order-IsAuthorized base ids s h adv r =
      let t = (place_order cfg base ids s).1 in
      let added = place-Adds cfg base ids s h in
      record {
        approved = add_authorizations-Sound cfg base ids _ r.approved;
        covered =
            Entries-put
              (λ u o.
                Covers cfg (past_pending o.status) t.authorizations o.authz_urls o.identifiers)
              _ _ _ (rw added.orders (covered-Advances s t adv r))
              (Created-Covers cfg base t.authorizations s.authz_counter _ ids added.created);
        issued =
            subst (Entries (IssuedFor cfg t)) (sym added.certificates) (issued-Advances s t adv r);
      }

  record_certificate-IsAuthorized :
      (base url raw csr_der cert_pem : Str) (order : Order) (ids : List (IdentifierValue cfg.py))
      (s : State)
      → get s.orders url ≡ some order
      → order.status ≡ OrderStatus.ready
      → read_csr cfg raw order ≡ ok (csr_der, ids)
      → cfg.issue_from_csr csr_der ids ≡ some cert_pem
      → Advances s (record_certificate base url order cert_pem s).1
      → IsAuthorized cfg s
      → IsAuthorized cfg (record_certificate base url order cert_pem s).1
  unfolding record_certificate read_csr
  record_certificate-IsAuthorized base url raw csr_der cert_pem order ids s found ready read signed
        adv r =
      let t = (record_certificate base url order cert_pem s).1 in
      let cert_url = numbered base (codes "cert") (suc s.cert_counter) in
      let ((protected, body), _, bound) =
        >>=-eq-ok (parse_unverified_jws cfg.decoders object raw) _ read in
      let (binds, ordered) =
        decode_and_validate_csr-Binds cfg.py cfg.x509 (find body (codes "csr")) order.identifiers
          csr_der ids bound in
      let covered : Covers cfg true s.authorizations order.authz_urls order.identifiers =
        subst
          (λ st. Covers cfg (past_pending st) s.authorizations order.authz_urls order.identifiers)
          ready (r.covered url order found) in
      record {
        approved = r.approved;
        covered =
            Entries-put
              (λ u o.
                Covers cfg (past_pending o.status) s.authorizations o.authz_urls o.identifiers)
              s.orders url _ r.covered covered;
        issued =
            Entries-put (IssuedFor cfg t) s.certificates cert_url cert_pem
              (issued-Advances s t adv r)
              (record {
                order_url = url;
                order = (record_certificate base url order cert_pem s).0;
                placed = get-put_self s.orders url _;
                done = refl;
                linked = refl;
                covered = covered;
                csr_b64 = find body (codes "csr");
                csr_der = csr_der;
                binds = binds;
                values = ids;
                ordered = ordered;
                signed = signed;
              });
      }

  Step-IsAuthorized :
      {s t : State} → Step cfg s t → IsConsistent s → IsAuthorized cfg s → IsAuthorized cfg t
  Step-IsAuthorized {s} {t} st h r = grants st (Step-Advances cfg st h)
    where
      grants : {t : State} → Step cfg s t → Advances s t → IsAuthorized cfg t
      grants (nonce e) adv = rw e (record {
        approved = r.approved;
        covered = r.covered;
        issued = issued-Advances s _ (rw e at adv) r;
      })
      grants (account base thumbprint contact new e) adv = rw e (record {
        approved = r.approved;
        covered = r.covered;
        issued = issued-Advances s _ (rw e at adv) r;
      })
      grants (place base ids e) adv = rw e (place_order-IsAuthorized base ids s h (rw e at adv) r)
      grants (promoted url order found e) adv = rw e (record {
        approved = r.approved;
        covered =
            Entries-put
              (λ u o.
                Covers cfg (past_pending o.status) s.authorizations o.authz_urls o.identifiers)
              s.orders url _ r.covered
              (promote-Covers cfg s order r.approved (r.covered url order found));
        issued = issued-Advances s _ (rw e at adv) r;
      })
      grants (challenged chall_url url authz is_dns found e) adv =
          let g = find_challenge-get chall_url s.authorizations url authz is_dns h.distinct found in
          let later = rw e at adv in
          rw e (record {
            approved =
                Entries-put (λ u. Sound cfg) s.authorizations url _ r.approved
                  (answer_challenge-Sound cfg s.nonce_counter authz (r.approved url authz g));
            covered = covered-Advances s _ later r;
            issued = issued-Advances s _ later r;
          })
      grants (issued base url raw der cert_pem order ids found ready read signed e) adv = rw e (
          record_certificate-IsAuthorized base url raw der cert_pem order ids s found ready read
            signed (rw e at adv) r)

  pub Steps-IsAuthorized :
      {s t : State} → Steps cfg s t → IsConsistent s → IsAuthorized cfg s → IsAuthorized cfg t
  Steps-IsAuthorized here h r = r
  Steps-IsAuthorized (next rest st) h r =
      Step-IsAuthorized st (Steps-IsConsistent cfg rest h) (Steps-IsAuthorized rest h r)

  pub init-IsAuthorized : IsAuthorized cfg init
  unfolding get
  init-IsAuthorized = record {
    approved = λ u a found. absurd (cc);
    covered = λ u o found. absurd (cc);
    issued = λ u pem found. absurd (cc);
  }

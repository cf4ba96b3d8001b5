-- ===== src/Responder/Steps/Authorizations.antt =====
-- What the loop of `_handle_new_order` adds: one fresh pending authorization for each identifier.
use lacme.Prelude.{ℕ, suc, ◌+◌, ◌≡◌, refl, some, List, [], ◌∷◌, Str, str_Eq, length, arith}
use lacme.Prelude.Text.{codes}
use lacme.Prelude.Dict.{
  Dict, get, put, get-put_self, get-put_fresh, Entries, NodupKeys, put-NodupKeys,
}
use lacme.Identifiers.Values.{WireIdentifier}
use lacme.Responder.State.{Authorization, State, Config}
use lacme.Responder.Orders.{new_authorization, add_authorizations}
use lacme.Responder.Request.{numbered}
use lacme.Responder.Steps.Consistent.{Numbered}
use lacme.Responder.Steps.Fresh.{numbered_fresh, numbered-put}

module _ (cfg : Config) (base : Str) where
  -- URL by URL, the authorization made for the identifier, with the numbers from `n` on.
  abbrev pub Created : Dict Str Authorization → ℕ → List Str → List WireIdentifier → Type 0
  Created auths n [] [] = Unit
  Created auths n (url ∷ urls) (ident ∷ idents) =
      (url ≡ numbered base (codes "authz") (suc n))
      × (get auths url ≡ some (new_authorization cfg base (suc n) ident))
      × Created auths (suc n) urls idents
  Created auths n _ _ = ⊥

  -- What stays, what is kept, and what is new.
  pub record Adds (idents : List WireIdentifier) (s : State) (urls : List Str) (t : State)
      : Type 0 where
    pub accounts : t.accounts ≡ s.accounts
    pub orders : t.orders ≡ s.orders
    pub certificates : t.certificates ≡ s.certificates
    pub nonce_counter : t.nonce_counter ≡ s.nonce_counter
    pub account_counter : t.account_counter ≡ s.account_counter
    pub order_counter : t.order_counter ≡ s.order_counter
    pub cert_counter : t.cert_counter ≡ s.cert_counter
    pub authz_counter : t.authz_counter ≡ s.authz_counter + length idents
    pub numbered : Entries (λ u _. Numbered u t.authz_counter) t.authorizations
    pub distinct : NodupKeys t.authorizations
    pub kept : Entries (λ u a. get t.authorizations u ≡ some a) s.authorizations
    pub created : Created t.authorizations s.authz_counter urls idents

  pub add_authorizations-Adds :
      (idents : List WireIdentifier) (s : State)
      → Entries (λ u _. Numbered u s.authz_counter) s.authorizations
      → NodupKeys s.authorizations
      → let (urls, t) = add_authorizations cfg base idents s in Adds idents s urls t
  unfolding add_authorizations new_authorization
  add_authorizations-Adds [] s h d = record {
    accounts = refl;
    orders = refl;
    certificates = refl;
    nonce_counter = refl;
    account_counter = refl;
    order_counter = refl;
    cert_counter = refl;
    authz_counter = omega arith;
    numbered = h;
    distinct = d;
    kept = λ u a found. found;
    created = tt;
  }
  add_authorizations-Adds (ident ∷ idents) s h d =
      let n = suc s.authz_counter in
      let url = numbered base (codes "authz") n in
      let authz = new_authorization cfg base n ident in
      let s' : State = record s {
        authorizations = put s.authorizations url authz;
        authz_counter = n;
      } in
      let r =
        add_authorizations-Adds idents s'
          (numbered-put s.authorizations s.authz_counter base (codes "authz") authz h)
          (put-NodupKeys s.authorizations url authz d) in
      record {
        accounts = r.accounts;
        orders = r.orders;
        certificates = r.certificates;
        nonce_counter = r.nonce_counter;
        account_counter = r.account_counter;
        order_counter = r.order_counter;
        cert_counter = r.cert_counter;
        authz_counter = omega (arith, r.authz_counter);
        numbered = r.numbered;
        distinct = r.distinct;
        kept = λ u a found. r.kept u a (
            get-put_fresh s.authorizations url u authz a
              (numbered_fresh s.authorizations s.authz_counter base (codes "authz") h) found);
        created = (refl, r.kept url authz (get-put_self s.authorizations url authz), r.created);
      }

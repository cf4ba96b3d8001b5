-- ===== src/Responder/Steps/Consistent.antt =====
-- The invariant of the responder's state.
use lacme.Prelude.{ℕ, ◌≤◌, ◌≡◌, Option, none, some, Str, str_Eq, All}
use lacme.Prelude.Dict.{Dict, get, Has, Entries, NodupKeys}
use lacme.Responder.State.{Order, OrderStatus, Authorization, State, init}
use lacme.Responder.Request.{numbered}

-- A URL that ends in a number up to `n`.
pub record Numbered (u : Str) (n : ℕ) : Type 0 where
  pub base : Str
  pub kind : Str
  pub k : ℕ
  pub spelled : u ≡ numbered base kind k
  pub bound : k ≤ n

-- An order that is "valid" has a certificate that can be fetched; any other has none.
abbrev pub HasCertificate : Dict Str Str → OrderStatus → Option Str → Type 0
HasCertificate certs OrderStatus.valid url = (u : Str) × (url ≡ some u) × Has certs u
HasCertificate certs OrderStatus.pending url = url ≡ none
HasCertificate certs OrderStatus.ready url = url ≡ none

pub record OrderOk (auths : Dict Str Authorization) (certs : Dict Str Str) (o : Order)
    : Type 0 where
  pub known : All (Has auths) o.authz_urls
  pub certificate : HasCertificate certs o.status o.certificate_url

pub record IsConsistent (s : State) : Type 0 where
  pub accounts_numbered : Entries (λ u _. Numbered u s.account_counter) s.accounts
  pub orders_numbered : Entries (λ u _. Numbered u s.order_counter) s.orders
  pub authz_numbered : Entries (λ u _. Numbered u s.authz_counter) s.authorizations
  pub certs_numbered : Entries (λ u _. Numbered u s.cert_counter) s.certificates
  pub distinct : NodupKeys s.authorizations
  pub orders_ok : Entries (λ u o. OrderOk s.authorizations s.certificates o) s.orders

pub init-IsConsistent : IsConsistent init
unfolding get
init-IsConsistent = record {
  accounts_numbered = λ u v h. absurd (cc);
  orders_numbered = λ u v h. absurd (cc);
  authz_numbered = λ u v h. absurd (cc);
  certs_numbered = λ u v h. absurd (cc);
  distinct = tt;
  orders_ok = λ u v h. absurd (cc);
}

-- ===== src/Responder/Steps.antt =====
-- The responder as a state machine: the changes that a request can make to the state.
pub mod Requests
pub mod Consistent
pub mod Fresh
pub mod Authorizations
pub mod Placing
pub mod Preserves
pub mod Advances
pub mod Provenance
pub mod OneAccount
use lacme.Prelude.{ℕ, suc, ◌≡◌, Bool, Option, none, some, List, Str, str_Eq, Result, ok, Eq}
use lacme.Prelude.Dict
use lacme.Json.{Json}
use lacme.Identifiers.Values.{WireIdentifier, IdentifierValue}
use lacme.Responder.State.{Order, OrderStatus, Authorization, State, Config}
use lacme.Responder.Accounts.{find_account, add_account}
use lacme.Responder.Orders.{place_order, promote, store_order, read_csr, record_certificate}
use lacme.Responder.Challenges.{find_challenge, answer_challenge}
use lacme.Responder.Request.{numbered}
use lacme.Prelude.Text.{codes}

abbrev pub next_nonce : State → State
next_nonce s = record s { nonce_counter = suc s.nonce_counter }

abbrev pub answered : Config → Str → Authorization → State → State
answered cfg url authz s = record s {
  authorizations = Dict.put s.authorizations url (answer_challenge cfg s.nonce_counter authz);
}

module _ (cfg : Config) where
  pub data Step (s t : State) : Type 0 where
    nonce : t ≡ next_nonce s → Step s t
    account :
        (base thumbprint : Str) (contact : Json)
        → find_account thumbprint (Dict.values s.accounts) ≡ none
        → t
          ≡ add_account (numbered base (codes "acct") (suc s.account_counter)) contact thumbprint s
        → Step s t
    place : (base : Str) (ids : List WireIdentifier) → t ≡ (place_order cfg base ids s).1 → Step s t
    promoted :
        (url : Str) (order : Order)
        → Dict.get s.orders url ≡ some order
        → t ≡ store_order url (promote s order) s
        → Step s t
    challenged :
        (chall_url url : Str) (authz : Authorization) (is_dns : Bool)
        → find_challenge chall_url s.authorizations ≡ some (url, authz, is_dns)
        → t ≡ answered cfg url authz s
        → Step s t
    -- A certificate is issued for a ready order only, on a CSR that is bound to its identifiers.
    issued :
        (base url raw csr_der cert_pem : Str) (order : Order)
        (csr_identifiers : List (IdentifierValue cfg.py))
        → Dict.get s.orders url ≡ some order
        → order.status ≡ OrderStatus.ready
        → read_csr cfg raw order ≡ ok (csr_der, csr_identifiers)
        → cfg.issue_from_csr csr_der csr_identifiers ≡ some cert_pem
        → t ≡ (record_certificate base url order cert_pem s).1
        → Step s t

  pub data Steps (s : State) : State → Type 0 where
    here : Steps s s
    next : {t u : State} → Steps s t → Step t u → Steps s u

-- ===== src/Responder/Placed.antt =====
-- What `newOrder` creates.
use lacme.Prelude.{suc, ◌+◌, ◌≡◌, none, some, List, Str, str_Eq, length}
use lacme.Prelude.Text.{codes}
use lacme.Prelude.Dict.{get, Entries}
use lacme.Identifiers.Values.{WireIdentifier}
use lacme.Responder.State.{Order, OrderStatus, State, Config}
use lacme.Responder.Request.{numbered}
use lacme.Responder.Steps.Authorizations.{Created}
use lacme.Responder.Steps.Placing.{counted}

module _ (cfg : Config) (base : Str) where
  -- `order` is new in `t`, with a new pending authorization for each identifier.
  pub record IsPlaced (ids : List WireIdentifier) (order : Order) (s t : State) : Type 0 where
    pub new : get s.orders order.url ≡ none
    pub stored : get t.orders order.url ≡ some order
    pub identifiers : order.identifiers ≡ ids
    pub status : order.status ≡ OrderStatus.pending
    pub uncertified : order.certificate_url ≡ none
    pub unused : get s.authorizations (numbered base (codes "authz") (suc s.authz_counter)) ≡ none
    pub created : Created cfg base t.authorizations s.authz_counter order.authz_urls ids
    pub counted : t.authz_counter ≡ s.authz_counter + length ids
    pub kept : Entries (λ u a. get t.authorizations u ≡ some a) s.authorizations
    pub orders_kept : (u : Str) (o : Order) → get s.orders u ≡ some o → get t.orders u ≡ some o
    pub accounts_kept : t.accounts ≡ s.accounts
    pub certificates_kept : t.certificates ≡ s.certificates

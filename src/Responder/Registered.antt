-- ===== src/Responder/Registered.antt =====
-- `newAccount` again: a key that has an account keeps it.
use lacme.Prelude.{
  ◌≡◌, refl, inl, inr, Option, none, some, List, Str, str_Eq, Bool-cases, Option-cases,
}
use mathlib.Core.Option.{some-injective}
use lacme.Prelude.Text.{codes}
use lacme.Prelude.Dict
use lacme.Json.{Fields, find}
use lacme.Responder.State.{Account, State, Config, Outcome, sent, raised}
use lacme.Responder.Accounts.{find_account, register_account, account_body, truthy}
use lacme.Responder.Replies.{send_json}
use lacme.Responder.Request.{Scope}
use lacme.Responder.Steps.Consistent.{IsConsistent}
use lacme.Responder.Steps.Fresh.{numbered_fresh}
use lacme.Responder.Steps.OneAccount.{find_account-new, Steps-Registered}
use lacme.Responder.Steps.Requests.{register-Steps}
use lacme.Responder.Steps.Preserves.{Steps-IsConsistent}
use lacme.Responder.Runs.{run, run-Steps}

-- the `Location` of what is sent
abbrev pub location_of : Outcome → Option Str
location_of (sent r) = r.location
location_of raised = none

-- A response that names an account names the one that the search finds afterwards.
register_account-Registered :
    (base nonce : Str) (body : Fields) (th url : Str) (s : State)
    → IsConsistent s
    → location_of (register_account base nonce body th s).0 ≡ some url
    → (a : Account) × (a.url ≡ url)
      × (find_account th (Dict.values (register_account base nonce body th s).1.accounts) ≡ some a)
unfolding register_account
register_account-Registered base nonce body th url s h named =
    elim (Option-cases (find_account th (Dict.values s.accounts))) [
      | inr (a, p) ↦
          (a, some-injective _ _ (rw (p, register_account) at named), rw (p, register_account) p)
      | inl p ↦ elim (Bool-cases (truthy (find body (codes "onlyReturnExisting")))) [
        | inl only ↦ absurd (cc (rw (p, only, register_account) at named))
        | inr create ↦
            rw (p, create, register_account)
              (
                _,
                some-injective _ _ (rw (p, create, register_account) at named),
                find_account-new th s.accounts _ _
                    (numbered_fresh s.accounts s.account_counter base (codes "acct")
                      h.accounts_numbered)
                    p refl,
              )
      ]
    ]

register_account-found :
    (base nonce : Str) (body : Fields) (th : Str) (a : Account) (s : State)
    → find_account th (Dict.values s.accounts) ≡ some a
    → register_account base nonce body th s
      ≡ (send_json nonce 200 (account_body a.contact) (some a.url), s)
unfolding register_account
register_account-found base nonce body th a s p = rw (p, register_account) refl

module _ (cfg : Config) where
  -- If `register_account` (`_handle_new_account` once the request is read) names an account URL for a
  -- key in a consistent state, then after any further requests it answers the same key, whatever the
  -- request's body, with status 200, that URL and the account's contact, and changes nothing.
  pub register_account-again :
      (base nonce base' nonce' : Str) (body body' : Fields) (thumbprint url : Str) (s : State)
      (scopes : List Scope)
      → IsConsistent s
      → location_of (register_account base nonce body thumbprint s).0 ≡ some url
      → let t = (run cfg scopes (register_account base nonce body thumbprint s).1).1 in
        (a : Account) × (a.url ≡ url)
        × (register_account base' nonce' body' thumbprint t
            ≡ (send_json nonce' 200 (account_body a.contact) (some url), t))
  register_account-again base nonce base' nonce' body body' thumbprint url s scopes h named =
      let (a, is, found) = register_account-Registered base nonce body thumbprint url s h named in
      let s' = (register_account base nonce body thumbprint s).1 in
      let h' = Steps-IsConsistent cfg (register-Steps cfg base nonce body thumbprint s) h in
      let found' = Steps-Registered cfg thumbprint a (run-Steps cfg scopes s') h' found in
      (a, is, rw (← is) (register_account-found base' nonce' body' thumbprint a _ found'))

-- ===== src/Responder/Steps/OneAccount.antt =====
-- A key has one account: the search of `_handle_new_account` over all of them.
use lacme.Prelude.{◌≡◌, none, some, [], ◌∷◌, Str, str_Eq, str_eq_iff, arith}
use lacme.Prelude.Text.{codes}
use lacme.Prelude.Dict
use lacme.Prelude.Dict.{Dict, get, put, NodupKeys, put-NodupKeys, Entries, Entries-put, get-put}
use lacme.Responder.State.{Account, State, Config}
use lacme.Responder.Accounts.{find_account}
use lacme.Responder.Orders.{record_certificate, place_order}
use lacme.Responder.Steps.{
  Step, Steps, here, next, nonce, account, place, promoted, challenged, issued,
}
use lacme.Responder.Steps.Consistent.{IsConsistent}
use lacme.Responder.Steps.Fresh.{numbered_fresh}
use lacme.Responder.Steps.Placing.{place-Adds}
use lacme.Responder.Steps.Preserves.{Steps-IsConsistent}

module _ (th : Str) where
  -- A new entry comes last, so what was found before is found again.
  find_account-put :
      (d : Dict Str Account) (k : Str) (v a : Account)
      → get d k ≡ none
      → find_account th (Dict.values d) ≡ some a
      → find_account th (Dict.values (put d k v)) ≡ some a
  unfolding find_account Dict.values get put
  find_account-put [] k v a fresh h = absurd (cc)
  find_account-put ((j, b) ∷ d) k v a fresh h = ground (arith, fresh, h, find_account-put d k v a)

  pub find_account-new :
      (d : Dict Str Account) (k : Str) (v : Account)
      → get d k ≡ none
      → find_account th (Dict.values d) ≡ none
      → v.jwk_thumbprint ≡ th
      → find_account th (Dict.values (put d k v)) ≡ some v
  unfolding find_account Dict.values get put
  find_account-new [] k v fresh h e = ground (arith, str_eq_iff v.jwk_thumbprint th)
  find_account-new ((j, b) ∷ d) k v fresh h e = ground (arith, fresh, h, find_account-new d k v)

module _ (cfg : Config) (th : Str) (a : Account) where
  -- The state's account of the key.
  abbrev Registered : State → Type 0
  Registered s = find_account th (Dict.values s.accounts) ≡ some a

  Step-Registered : {s t : State} → Step cfg s t → IsConsistent s → Registered s → Registered t
  unfolding record_certificate place_order
  Step-Registered (nonce e) h r = rw e r
  Step-Registered {s} (account base thumbprint contact new e) h r = rw e (
      find_account-put th s.accounts _ _ a
        (numbered_fresh s.accounts s.account_counter base (codes "acct") h.accounts_numbered) r)
  Step-Registered {s} (place base ids e) h r = rw e (rw (place-Adds cfg base ids s h).accounts r)
  Step-Registered (promoted url order found e) h r = rw e r
  Step-Registered (challenged chall_url url authz is_dns found e) h r = rw e r
  Step-Registered (issued base url raw der cert_pem order ids found ready read signed e) h r =
      rw e r

  pub Steps-Registered :
      {s t : State} → Steps cfg s t → IsConsistent s → Registered s → Registered t
  Steps-Registered here h r = r
  Steps-Registered (next rest st) h r =
      Step-Registered st (Steps-IsConsistent cfg rest h) (Steps-Registered rest h r)

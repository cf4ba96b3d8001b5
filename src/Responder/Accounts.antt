-- ===== src/Responder/Accounts.antt =====
-- `_handle_new_account`, with `jwk_thumbprint` of lacme/crypto.py.
use lacme.Prelude.{
  suc, Bool, true, false, Option, none, some, List, [], ◌∷◌, if◌then◌else◌, Str, str_eq, str_Eq,
  Result, ok, raise, key_error, type_error, ◌>>=◌,
}
use lacme.Prelude.Text.{codes}
use lacme.Prelude.Dict
use lacme.Prelude.Dict.{Dict}
use lacme.Base64.{b64url_encode}
use lacme.Json.{Json, Fields, null, bool, num, text, arr, obj, nil, cons, field, end, find}
use lacme.Jose.{object, parse_unverified_jws}
use lacme.Responder.State.{Account, State, Config}
use lacme.Responder.Request.{numbered}
use lacme.Responder.Replies.{Handler, send_json, send_error, members, problem}

-- `bool(v)`
abbrev pub truthy : Option Json → Bool
truthy none = false
truthy (some null) = false
truthy (some (bool b)) = b
truthy (some (num nonzero _)) = nonzero
truthy (some (text [])) = false
truthy (some (text (_ ∷ _))) = true
truthy (some (arr nil)) = false
truthy (some (arr (cons _ _))) = true
truthy (some (obj end)) = false
truthy (some (obj (field _ _ _))) = true

abbrev pub or_default : Json → Option Json → Json
or_default d none = d
or_default d (some v) = v

-- `d[k]` on a dict
abbrev or_key_error : Option Json → Result Json
or_key_error none = raise key_error
or_key_error (some v) = ok v

-- lacme/crypto.py `jwk_thumbprint`; what is no dict cannot be indexed by a text
unfoldable pub jwk_thumbprint : Config → Json → Result Str
jwk_thumbprint cfg (obj jwk) = do
  crv ← or_key_error (find jwk (codes "crv"))
  kty ← or_key_error (find jwk (codes "kty"))
  x ← or_key_error (find jwk (codes "x"))
  y ← or_key_error (find jwk (codes "y"))
  ok (b64url_encode (cfg.canonical_digest crv kty x y))
jwk_thumbprint cfg _ = raise type_error

-- the first account with the thumbprint
unfoldable pub find_account : Str → List Account → Option Account
find_account thumbprint [] = none
find_account thumbprint (acct ∷ accts) =
    if str_eq acct.jwk_thumbprint thumbprint then some acct else find_account thumbprint accts

abbrev pub account_body : Json → Json
account_body contact =
    obj (members ((codes "status", text (codes "valid")) ∷ (codes "contact", contact) ∷ []))

abbrev pub add_account : Str → Json → Str → State → State
add_account url contact thumbprint s = record s {
  accounts =
      Dict.put s.accounts url
        (record { url = url; contact = contact; jwk_thumbprint = thumbprint });
  account_counter = suc s.account_counter;
}

-- the section under the lock, once the request is read
unfoldable pub register_account : Str → Str → Fields → Str → Handler
register_account base_url nonce body thumbprint s =
    let url = numbered base_url (codes "acct") (suc s.account_counter) in
    let contact = or_default (arr nil) (find body (codes "contact")) in
    elim (find_account thumbprint (Dict.values s.accounts)) [
      | some acct ↦ (send_json nonce 200 (account_body acct.contact) (some acct.url), s)
      | none ↦
          if truthy (find body (codes "onlyReturnExisting"))
          then (send_error nonce 400 (problem (codes "accountDoesNotExist")), s)
          else (
            send_json nonce 201 (account_body contact) (some url),
            add_account url contact thumbprint s,
          )
    ]

-- the `try` block of `_handle_new_account`
unfoldable pub read_account_request : Config → Str → Result (Fields × Str)
unfolding jwk_thumbprint
read_account_request cfg raw = do
  (protected, body) ← parse_unverified_jws cfg.decoders object raw
  thumbprint ← jwk_thumbprint cfg (or_default (obj end) (find protected (codes "jwk")))
  ok (body, thumbprint)

unfoldable pub handle_new_account : Config → Str → Str → Str → Handler
handle_new_account cfg base_url nonce raw s = elim (read_account_request cfg raw) [
  | raise _ ↦ (send_error nonce 400 (problem (codes "malformed")), s)
  | ok (body, thumbprint) ↦ register_account base_url nonce body thumbprint s
]

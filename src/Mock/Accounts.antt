-- ===== src/Mock/Accounts.antt =====
-- `_handle_new_account` of testing.py.
use lacme.Prelude.{
  suc, Option, none, some, List, [], ◌∷◌, if◌then◌else◌, Str, str_eq, str_Eq, Result, ok, raise,
  value_error, ◌>>=◌,
}
use lacme.Prelude.Text.{codes}
use lacme.Prelude.Dict
use lacme.Prelude.Dict.{Dict}
use lacme.Json.{Json, Fields, obj, arr, nil, end, find}
use lacme.Jose.{object, parse_unverified_jws}
use lacme.Responder.Request.{numbered}
use lacme.Responder.Replies.{problem}
use lacme.Responder.Accounts.{truthy, or_default, jwk_thumbprint, account_body}
use lacme.Mock.State.{
  MockAccount, MockState, MockServer, mock_base_url, MockHandler, json_response, problem_response,
}

-- `isinstance(jwk, dict)`
abbrev pub as_dict : Json → Result Json
as_dict (obj fields) = ok (obj fields)
as_dict _ = raise value_error

-- the `try` block
unfoldable pub mock_read_account : MockServer → Str → Result (Fields × Str)
mock_read_account server content = do
  (protected, body) ← parse_unverified_jws server.outside.decoders object content
  jwk ← as_dict (or_default (obj end) (find protected (codes "jwk")))
  thumbprint ← jwk_thumbprint server.outside jwk
  ok (body, thumbprint)

unfoldable pub mock_find_account : Str → List MockAccount → Option MockAccount
mock_find_account thumbprint [] = none
mock_find_account thumbprint (acct ∷ accts) =
    if str_eq acct.jwk_thumbprint thumbprint then some acct else mock_find_account thumbprint accts

abbrev pub mock_add_account : Str → Json → Str → MockState → MockState
mock_add_account url contact thumbprint s = record s {
  accounts =
      Dict.put s.accounts url
        (record { url = url; contact = contact; jwk_thumbprint = thumbprint });
  account_counter = suc s.account_counter;
}

unfoldable pub mock_register : Str → Str → Fields → Str → MockHandler
unfolding mock_find_account
mock_register base_url nonce body thumbprint s =
    let url = numbered base_url (codes "acct") (suc s.account_counter) in
    let contact = or_default (arr nil) (find body (codes "contact")) in
    elim (mock_find_account thumbprint (Dict.values s.accounts)) [
      | some acct ↦ (json_response nonce 200 (account_body acct.contact) (some acct.url), s)
      | none ↦
          if truthy (find body (codes "onlyReturnExisting"))
          then (json_response nonce 400 (problem (codes "accountDoesNotExist")) none, s)
          else (
            json_response nonce 201 (account_body contact) (some url),
            mock_add_account url contact thumbprint s,
          )
    ]

unfoldable pub mock_new_account : MockServer → Str → Str → MockHandler
unfolding mock_read_account mock_register
mock_new_account server nonce content s = elim (mock_read_account server content) [
  | raise _ ↦ (problem_response nonce 400 (codes "malformed"), s)
  | ok (body, thumbprint) ↦ mock_register (mock_base_url server) nonce body thumbprint s
]

-- ===== src/Mock/Challenges.antt =====
-- `_handle_authz`, `_handle_challenge` and `validate_challenge` of testing.py.
use lacme.Prelude.{
  Bool, true, not, ◌&&◌, ◌||◌, Option, none, some, List, [], ◌∷◌, ◌++◌, if◌then◌else◌, Str, str_eq,
  str_Eq, Result, ok, raise, value_error,
}
use lacme.Prelude.Text.{codes}
use lacme.Prelude.Dict
use lacme.Prelude.Dict.{Dict}
use lacme.Json.{Json, bool, text, arr, obj, of_list}
use lacme.Responder.State.{AuthzStatus, ChallengeStatus}
use lacme.Responder.Replies.{members, authz_status_text, challenge_status_text}
use lacme.Mock.State.{
  MockAuthorization, MockState, MockServer, mock_base_url, MockHandler, json_response,
  mock_not_found,
}

abbrev pub mock_challenge : Str → Str → MockAuthorization → Json
mock_challenge kind url authz = obj (
    members (
      (codes "type", text kind)
      ∷ (codes "url", text url)
      ∷ (codes "token", text authz.token)
      ∷ (codes "status", text (challenge_status_text authz.challenge_status))
      ∷ []))

-- `_authorization_challenges`
unfoldable pub mock_challenges : MockAuthorization → List Json
mock_challenges authz =
    (if authz.wildcard then [] else mock_challenge (codes "http-01") authz.challenge_url authz ∷ [])
    ++ (if str_eq authz.identifier_type (codes "dns")
        then mock_challenge (codes "dns-01") authz.dns_challenge_url authz ∷ []
        else [])

unfoldable pub mock_authz_body : MockAuthorization → Json
unfolding mock_challenges
mock_authz_body authz =
    let identifier = obj (
      members
        ((codes "type", text authz.identifier_type) ∷ (codes "value", text authz.domain) ∷ [])) in
    let common =
      (codes "status", text (authz_status_text authz.status))
      ∷ (codes "identifier", identifier)
      ∷ (codes "challenges", arr (of_list (mock_challenges authz)))
      ∷ [] in
    obj (members (if authz.wildcard then common ++ (codes "wildcard", bool true) ∷ [] else common))

unfoldable pub mock_authz : MockServer → Str → Str → MockHandler
unfolding mock_authz_body
mock_authz server nonce path s = elim (Dict.get s.authorizations (mock_base_url server ++ path)) [
  | none ↦ (mock_not_found nonce, s)
  | some authz ↦ (json_response nonce 200 (mock_authz_body authz) none, s)
]

abbrev pub mock_is_http : Str → MockAuthorization → Bool
mock_is_http chall_url authz = not authz.wildcard && str_eq authz.challenge_url chall_url

abbrev pub mock_is_dns : Str → MockAuthorization → Bool
mock_is_dns chall_url authz =
    str_eq authz.identifier_type (codes "dns") && str_eq authz.dns_challenge_url chall_url

-- The search over the authorizations: the first entry with the challenge.
unfoldable pub mock_find : Str → Dict Str MockAuthorization → Option (Str × MockAuthorization)
mock_find chall_url [] = none
mock_find chall_url ((url, authz) ∷ d) =
    let rest = mock_find chall_url d in
    if mock_is_http chall_url authz || mock_is_dns chall_url authz then some (url, authz) else rest

abbrev pub mock_validated : MockAuthorization → MockAuthorization
mock_validated authz = record authz {
  challenge_status = ChallengeStatus.valid;
  status = AuthzStatus.valid;
}

abbrev pub mock_answer : MockServer → MockAuthorization → MockAuthorization
mock_answer server authz =
    if server.auto_validate
    then mock_validated authz
    else record authz { challenge_status = ChallengeStatus.processing }

-- `validate_challenge`, called by a test
unfoldable pub validate_challenge : Str → MockState → Result (Unit {0}) × MockState
unfolding mock_find
validate_challenge chall_url s = elim (mock_find chall_url s.authorizations) [
  | none ↦ (raise value_error, s)
  | some (url, authz) ↦
      (ok tt, record s { authorizations = Dict.put s.authorizations url (mock_validated authz) })
]

unfoldable pub mock_answer_challenge : MockServer → Str → Str → MockHandler
unfolding mock_find
mock_answer_challenge server nonce path s =
    let chall_url = mock_base_url server ++ path in
    elim (mock_find chall_url s.authorizations) [
      | none ↦ (mock_not_found nonce, s)
      | some (url, authz) ↦
          let authz' = mock_answer server authz in
          let kind = if mock_is_dns chall_url authz then codes "dns-01" else codes "http-01" in
          (
            json_response nonce 200 (mock_challenge kind chall_url authz') none,
            record s { authorizations = Dict.put s.authorizations url authz' },
          )
    ]

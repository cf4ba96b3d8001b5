-- ===== src/Responder/Challenges.antt =====
-- `_handle_authz` and `_handle_challenge`.
use lacme.Prelude.{
  ℕ, Bool, true, false, not, ◌&&◌, Option, none, some, List, [], ◌∷◌, ◌++◌, if◌then◌else◌, Str,
  str_eq, str_Eq,
}
use lacme.Prelude.Text.{codes}
use lacme.Prelude.Dict
use lacme.Prelude.Dict.{Dict}
use lacme.Json.{Json, bool, text, arr, obj, of_list}
use lacme.Responder.State.{Authorization, AuthzStatus, ChallengeStatus, Config}
use lacme.Responder.Replies.{
  Handler, send_json, send_error, members, not_found_body, authz_status_text, challenge_status_text,
}

-- The challenges that an authorization offers: a wildcard has no http-01, an address no dns-01.
unfoldable pub authorization_challenges : Authorization → List Json
authorization_challenges authz =
    let challenge = λ (kind url : Str). obj (
      members (
        (codes "type", text kind)
        ∷ (codes "url", text url)
        ∷ (codes "token", text authz.token)
        ∷ (codes "status", text (challenge_status_text authz.challenge_status))
        ∷ [])) in
    (if authz.wildcard then [] else challenge (codes "http-01") authz.challenge_url ∷ [])
    ++ (if str_eq authz.identifier_type (codes "dns")
        then challenge (codes "dns-01") authz.dns_challenge_url ∷ []
        else [])

unfoldable pub authz_body : Authorization → Json
unfolding authorization_challenges
authz_body authz =
    let identifier = obj (
      members (
        (codes "type", text authz.identifier_type)
        ∷ (codes "value", text authz.identifier_value)
        ∷ [])) in
    let common =
      (codes "status", text (authz_status_text authz.status))
      ∷ (codes "identifier", identifier)
      ∷ (codes "challenges", arr (of_list (authorization_challenges authz)))
      ∷ [] in
    obj (members (if authz.wildcard then common ++ (codes "wildcard", bool true) ∷ [] else common))

unfoldable pub handle_authz : Str → Str → Str → Handler
handle_authz base_url nonce path s = elim (Dict.get s.authorizations (base_url ++ path)) [
  | none ↦ (send_error nonce 404 not_found_body, s)
  | some authz ↦ (send_json nonce 200 (authz_body authz) none, s)
]

abbrev matches_http : Str → Authorization → Bool
matches_http chall_url authz = not authz.wildcard && str_eq authz.challenge_url chall_url

abbrev matches_dns : Str → Authorization → Bool
matches_dns chall_url authz =
    str_eq authz.identifier_type (codes "dns") && str_eq authz.dns_challenge_url chall_url

-- The search over the authorizations: the entry found, and `is_dns`.
unfoldable pub find_challenge : Str → Dict Str Authorization → Option (Str × Authorization × Bool)
find_challenge chall_url [] = none
find_challenge chall_url ((url, authz) ∷ d) =
    let rest = find_challenge chall_url d in
    if matches_http chall_url authz
    then some (url, authz, false)
    else if matches_dns chall_url authz
    then some (url, authz, true)
    else rest

abbrev pub callback_identifier : Authorization → Str
callback_identifier authz =
    if authz.wildcard then codes "*." ++ authz.identifier_value else authz.identifier_value

-- What the challenge makes of its authorization, in the n-th request.
unfoldable pub answer_challenge : Config → ℕ → Authorization → Authorization
answer_challenge cfg n authz =
    if cfg.auto_approve
    then record authz { challenge_status = ChallengeStatus.valid; status = AuthzStatus.valid }
    else elim cfg.challenge_validator [
      | none ↦ record authz { challenge_status = ChallengeStatus.processing }
      | some validate ↦
          if validate n (callback_identifier authz) authz.identifier_type authz.token
            authz.key_authorization
          then record authz { challenge_status = ChallengeStatus.valid; status = AuthzStatus.valid }
          else record authz {
            challenge_status = ChallengeStatus.invalid;
            status = AuthzStatus.invalid;
          }
    ]

unfoldable pub challenge_body : Str → Bool → Authorization → Json
challenge_body chall_url is_dns authz = obj (
    members (
      (codes "type", text (if is_dns then codes "dns-01" else codes "http-01"))
      ∷ (codes "url", text chall_url)
      ∷ (codes "token", text authz.token)
      ∷ (codes "status", text (challenge_status_text authz.challenge_status))
      ∷ []))

unfoldable pub handle_challenge : Config → Str → Str → Str → Handler
handle_challenge cfg base_url nonce path s =
    let chall_url = base_url ++ path in
    elim (find_challenge chall_url s.authorizations) [
      | none ↦ (send_error nonce 404 not_found_body, s)
      | some (url, authz, is_dns) ↦
          let authz' = answer_challenge cfg s.nonce_counter authz in
          (
            send_json nonce 200 (challenge_body chall_url is_dns authz') none,
            record s { authorizations = Dict.put s.authorizations url authz' },
          )
    ]

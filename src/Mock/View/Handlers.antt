-- ===== src/Mock/View/Handlers.antt =====
-- Accounts, authorizations and challenges, on the mock server and on the responder.
use lacme.Prelude.{
  suc, ◌≡◌, ◌≢◌, ◌⊎◌, refl, ap, sym, subst, ◌∙◌, Error, value_error, type_error, Bool, true, false,
  ◌||◌, Option, none, some, [], ◌∷◌, ◌++◌, All, Str, str_eq, str_Eq, str_eq_iff, Bool-cases,
  Option-cases, Result-cases, Result, ok, raise, ◌>>=◌, inl, inr, &&-eq-true,
}
use mathlib.Core.Option.{some-injective}
use lacme.Prelude.Text.{codes}
use lacme.Prelude.Dict.{Dict, get, values}
use lacme.Json.{Json, Fields, null, bool, num, text, arr, obj, end, find}
use lacme.Jose.{object, parse_unverified_jws}
use lacme.Responder.State.{Authorization}
use lacme.Responder.Accounts.{
  truthy, or_default, jwk_thumbprint, find_account, read_account_request, register_account,
  handle_new_account,
}
use lacme.Responder.Challenges.{
  authorization_challenges, authz_body, handle_authz, find_challenge, answer_challenge,
  challenge_body, handle_challenge,
}
use lacme.Responder.Request.{numbered}
use lacme.Mock.State.{MockAccount, MockAuthorization, MockState, MockServer, mock_base_url}
use lacme.Mock.Accounts.{
  as_dict, mock_read_account, mock_find_account, mock_register, mock_new_account,
}
use lacme.Mock.Challenges.{
  mock_challenges, mock_authz_body, mock_authz, mock_find, mock_is_http, mock_is_dns,
  mock_validated, mock_answer_challenge,
}
use lacme.Mock.View.{
  view_dict, view_option, get-view, put-view, view_account, view_authorization, view, as_responder,
  Same, AreApart, put-AreApart, view-put_authorization,
}

-- Both results are one value, or both are errors.
abbrev Agree {ℓ} : {A : Type ℓ} → Result A → Result A → Type ℓ
Agree r r' = (r ≡ r') ⊎ ((e : Error) × (e' : Error) × (r ≡ raise e) × (r' ≡ raise e'))

module _ (server : MockServer) where
  -- A `jwk` that is no object is refused by its type or by the lack of its members.
  jwk-Agree :
      (jwk : Json) (body : Fields)
      → Agree {A = Fields × Str}
          (as_dict jwk >>= λ j.
            jwk_thumbprint server.outside j >>= λ thumbprint. ok (body, thumbprint))
          (jwk_thumbprint (as_responder server) jwk >>= λ thumbprint. ok (body, thumbprint))
  unfolding jwk_thumbprint
  jwk-Agree (obj fields) body = inl refl
  jwk-Agree null body = inr (value_error, type_error, refl, refl)
  jwk-Agree (bool b) body = inr (value_error, type_error, refl, refl)
  jwk-Agree (num z n) body = inr (value_error, type_error, refl, refl)
  jwk-Agree (text t) body = inr (value_error, type_error, refl, refl)
  jwk-Agree (arr items) body = inr (value_error, type_error, refl, refl)

  read_account-Agree :
      (content : Str)
      → Agree
          (mock_read_account server content)
          (read_account_request (as_responder server) content)
  unfolding mock_read_account read_account_request
  read_account-Agree content =
      elim (Result-cases (parse_unverified_jws server.outside.decoders object content)) [
        | inl (e, refused) ↦ rw refused (inr (e, e, refl, refl))
        | inr ((protected, body), parsed) ↦
            rw parsed (jwk-Agree (or_default (obj end) (find protected (codes "jwk"))) body)
      ]

  view-find_account :
      (thumbprint : Str) (d : Dict Str MockAccount)
      → find_account thumbprint (values (view_dict view_account d))
        ≡ view_option view_account (mock_find_account thumbprint (values d))
  unfolding find_account mock_find_account values view_dict
  view-find_account thumbprint [] = refl
  view-find_account thumbprint ((k, acct) ∷ d) =
      elim (Bool-cases (str_eq acct.jwk_thumbprint thumbprint)) [
        | inl same ↦ rw same refl
        | inr other ↦ rw other (view-find_account thumbprint d)
      ]

  register-Same :
      (nonce : Str) (body : Fields) (thumbprint : Str) (s : MockState)
      → AreApart s
      → Same
          (mock_register (mock_base_url server) nonce body thumbprint s)
          (register_account (mock_base_url server) nonce body thumbprint (view s))
  unfolding mock_register register_account
  register-Same nonce body thumbprint s apart =
      elim (Option-cases (mock_find_account thumbprint (values s.accounts))) [
        | inr (acct, found) ↦
            rw (view-find_account thumbprint s.accounts, found, mock_register, register_account)
              (refl, refl, apart)
        | inl missing ↦ elim (Bool-cases (truthy (find body (codes "onlyReturnExisting")))) [
          | inl only ↦
              rw
                (
                  view-find_account thumbprint s.accounts,
                  missing,
                  only,
                  mock_register,
                  register_account,
                )
                (refl, refl, apart)
          | inr create ↦
              rw
                (
                  view-find_account thumbprint s.accounts,
                  missing,
                  create,
                  mock_register,
                  register_account,
                )
                (
                  refl,
                  ap
                      (λ accounts. record (view s) {
                        accounts = accounts;
                        account_counter = suc s.account_counter;
                      })
                      (put-view view_account s.accounts
                        (numbered (mock_base_url server) (codes "acct") (suc s.account_counter)) _),
                  apart,
                )
        ]
      ]

  pub new_account-Same :
      (nonce content : Str) (s : MockState)
      → AreApart s
      → Same
          (mock_new_account server nonce content s)
          (handle_new_account (as_responder server) (mock_base_url server) nonce content (view s))
  unfolding mock_new_account handle_new_account
  new_account-Same nonce content s apart = elim (read_account-Agree content) [
    | inr (e, e', refused, refused') ↦
        rw (refused, refused', mock_new_account, handle_new_account) (refl, refl, apart)
    | inl same ↦ elim (Result-cases (mock_read_account server content)) [
      | inl (e, refused) ↦
          rw (refused, sym same ∙ refused, mock_new_account, handle_new_account) (refl, refl, apart)
      | inr ((body, thumbprint), read) ↦
          rw (read, sym same ∙ read, mock_new_account, handle_new_account)
            (register-Same nonce body thumbprint s apart)
    ]
  ]

  pub authz-Same :
      (nonce path : Str) (s : MockState)
      → AreApart s
      → Same
          (mock_authz server nonce path s)
          (handle_authz (mock_base_url server) nonce path (view s))
  unfolding mock_authz handle_authz mock_authz_body authz_body mock_challenges
      authorization_challenges
  authz-Same nonce path s apart =
      let url = mock_base_url server ++ path in
      elim (Option-cases (get s.authorizations url)) [
        | inl missing ↦
            rw (get-view view_authorization s.authorizations url, missing, mock_authz, handle_authz)
              (refl, refl, apart)
        | inr (authz, found) ↦
            rw (get-view view_authorization s.authorizations url, found, mock_authz, handle_authz)
              (refl, refl, apart)
      ]

  -- what the responder finds where the mock server finds an entry
  abbrev view_found : Str → Option (Str × MockAuthorization) → Option (Str × Authorization × Bool)
  view_found chall_url none = none
  view_found chall_url (some (url, authz)) =
      some (url, view_authorization authz, mock_is_dns chall_url authz)

  http_not_dns :
      (chall_url : Str) (authz : MockAuthorization)
      → authz.challenge_url ≢ authz.dns_challenge_url
      → mock_is_http chall_url authz ≡ true
      → mock_is_dns chall_url authz ≡ false
  http_not_dns chall_url authz apart http = elim (Bool-cases (mock_is_dns chall_url authz)) [
    | inr other ↦ other
    | inl dns ↦
        let first = (str_eq_iff _ _).0 (&&-eq-true _ _ http).1 in
        let second = (str_eq_iff _ _).0 (&&-eq-true _ _ dns).1 in
        absurd (apart (first ∙ sym second))
  ]

  found-apart :
      (chall_url : Str) (d : Dict Str MockAuthorization) (url : Str) (authz : MockAuthorization)
      → All
          (λ (entry : Str × MockAuthorization). entry.1.challenge_url ≢ entry.1.dns_challenge_url)
          d
      → mock_find chall_url d ≡ some (url, authz)
      → authz.challenge_url ≢ authz.dns_challenge_url
  unfolding mock_find
  found-apart chall_url [] url authz h found = cc found
  found-apart chall_url ((k, a) ∷ d) url authz (apart, h) found =
      elim (Bool-cases (mock_is_http chall_url a || mock_is_dns chall_url a)) [
        | inl here ↦
            let pair : some (k, a) ≡ some (url, authz) = cc (found, here) in
            subst (λ (p : Str × MockAuthorization). p.1.challenge_url ≢ p.1.dns_challenge_url)
              (some-injective _ _ pair) apart
        | inr later ↦ found-apart chall_url d url authz h (cc (found, later))
      ]

  view-find :
      (chall_url : Str) (d : Dict Str MockAuthorization)
      → All
          (λ (entry : Str × MockAuthorization). entry.1.challenge_url ≢ entry.1.dns_challenge_url)
          d
      → find_challenge chall_url (view_dict view_authorization d)
        ≡ view_found chall_url (mock_find chall_url d)
  unfolding find_challenge mock_find view_dict
  view-find chall_url [] h = refl
  view-find chall_url ((url, authz) ∷ d) (apart, h) =
      elim (Bool-cases (mock_is_http chall_url authz)) [
        | inl http ↦ rw (http, http_not_dns chall_url authz apart http) refl
        | inr no_http ↦ elim (Bool-cases (mock_is_dns chall_url authz)) [
          | inl dns ↦
              rw (no_http, dns) (ap (λ b. some (url, view_authorization authz, b)) (sym dns))
          | inr no_dns ↦ rw (no_http, no_dns) (view-find chall_url d h)
        ]
      ]

  challenge-Same_at :
      (nonce path : Str) (s : MockState) (url : Str) (authz : MockAuthorization)
      → server.auto_validate ≡ true
      → mock_find (mock_base_url server ++ path) s.authorizations ≡ some (url, authz)
      → authz.challenge_url ≢ authz.dns_challenge_url
      → AreApart s
      → Same
          (mock_answer_challenge server nonce path s)
          (handle_challenge (as_responder server) (mock_base_url server) nonce path (view s))
  unfolding mock_answer_challenge handle_challenge answer_challenge challenge_body
  challenge-Same_at nonce path s url authz auto found ne apart =
      rw
        (
          view-find (mock_base_url server ++ path) s.authorizations apart,
          found,
          auto,
          mock_answer_challenge,
          handle_challenge,
        )
        (
          refl,
          view-put_authorization url (mock_validated authz) s,
          put-AreApart url (mock_validated authz) s ne apart,
        )

  pub challenge-Same :
      (nonce path : Str) (s : MockState)
      → server.auto_validate ≡ true
      → AreApart s
      → Same
          (mock_answer_challenge server nonce path s)
          (handle_challenge (as_responder server) (mock_base_url server) nonce path (view s))
  unfolding mock_answer_challenge handle_challenge
  challenge-Same nonce path s auto apart =
      elim (Option-cases (mock_find (mock_base_url server ++ path) s.authorizations)) [
        | inl missing ↦
            rw
              (
                view-find (mock_base_url server ++ path) s.authorizations apart,
                missing,
                mock_answer_challenge,
                handle_challenge,
              )
              (refl, refl, apart)
        | inr ((url, authz), found) ↦
            challenge-Same_at nonce path s url authz auto found
              (found-apart (mock_base_url server ++ path) s.authorizations url authz apart found)
              apart
      ]

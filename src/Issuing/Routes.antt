-- ===== src/Issuing/Routes.antt =====
-- The entry of `effective` that `issue` solves a challenge for.
use lacme.Prelude.{
  ◌≡◌, ap, Option, none, some, str_Eq, pair_Eq, ok, ok-injective, OnOk, >>=-OnOk, ◌>>=◌,
}
use lacme.Prelude.Dict
use lacme.Prelude.Dict.{Dict}
use lacme.Jose.{or_value_error}
use lacme.Identifiers.Platform.{Platform}
use lacme.Identifiers.Values.{IdentifierKey}
use lacme.Issuing.Calls.{Challenge, Authorization}
use lacme.Issuing.Effective.{Effective, authorization_key, route_of}

-- A route is an entry of `effective`.
found_route :
    {H : Type 0} (entry : Option (Effective H)) (challenge : Effective H → Option Challenge)
    → OnOk
        (λ (found : Effective H × Challenge). entry ≡ some found.0)
        (or_value_error entry >>= λ route.
          or_value_error (challenge route) >>= λ chall. ok (route, chall))
found_route none challenge = λ found raised. cc raised
found_route (some route) challenge =
    >>=-OnOk _ (or_value_error (challenge route)) _
      λ chall found ends. ap (λ r. some r.0) (ok-injective ends)

pub route_of-IsListed :
    (py : Platform) {H : Type 0} (effective : Dict IdentifierKey (Effective H))
    (authz : Authorization)
    → OnOk
        (λ (found : Effective H × Challenge).
          (key : IdentifierKey) × (Dict.get effective key ≡ some found.0))
        (route_of py effective authz)
unfolding route_of
route_of-IsListed py effective authz =
    >>=-OnOk _ (authorization_key py authz) _
      λ key found routed. (key, found_route (Dict.get effective key) _ found routed)

-- ===== src/Issuing/Effective.antt =====
-- The challenge type and handler of each identifier, and the checks before anything is sent.
use lacme.Prelude.{
  Bool, true, false, not, ◌&&◌, Option, none, some, List, [], ◌∷◌, ◌++◌, if◌then◌else◌, Str, str_eq,
  str_Eq, pair_Eq, Result, ok, raise, value_error, key_error, Eq, guard, ◌>>=◌, ◌>>◌,
}
use lacme.Prelude.Text.{codes, starts_with}
use lacme.Prelude.Dict
use lacme.Prelude.Dict.{Dict}
use lacme.Identifiers.Platform.{Platform}
use lacme.Json.{text}
use lacme.Jose.{or_value_error}
use lacme.Identifiers.Dns.{validate_dns_identifier}
use lacme.Issuing.Calls.{Challenge, Authorization, find_challenge_in}
use lacme.Identifiers.Values.{
  OneOrMany, traverse, normalize_identifier_values, identifier_key_from_protocol, WireIdentifier,
  IdentifierValue, IdentifierKey, identifier_key_from_value, protocol_identifier_from_value,
}

-- The text of an identifier, with its challenge type and handler.
pub record Effective (H : Type 0) : Type 0 where
  pub value : Str
  pub challenge_type : Str
  pub handler : H

-- whether the type can be used for the identifier
abbrev pub is_compatible : WireIdentifier → Str → Bool
is_compatible identifier kind =
    not (
      str_eq identifier.kind (codes "dns")
      && starts_with identifier.value (codes "*.")
      && str_eq kind (codes "http-01"))
    && not (str_eq identifier.kind (codes "ip") && str_eq kind (codes "dns-01"))

unfoldable pub zip {ℓ κ} : {A : Type ℓ} {B : Type κ} → List A → List B → List (A × B)
zip [] bs = []
zip (a ∷ more) [] = []
zip (a ∷ more) (b ∷ bs) = (a, b) ∷ zip more bs

module _ {K V : Type 0} ⦃e : Eq K⦄ where
  abbrev pub has_key : Dict K V → K → Bool
  has_key d k = elim (Dict.get d k) [ none ↦ false | some _ ↦ true ]

-- the normalized values, their identifiers, and `effective`
pub record Plan (py : Platform) (H : Type 0) : Type 0 where
  pub values : List (IdentifierValue py)
  pub identifiers : List WireIdentifier
  pub effective : Dict IdentifierKey (Effective H)

-- The arguments of `issue`, and the client's default handler.
pub record Arguments (py : Platform) (H : Type 0) : Type 0 where
  pub domains : OneOrMany (IdentifierValue py)
  pub challenge_type : Str
  pub challenge_map : List (IdentifierValue py × Str × H)
  pub challenge_handler : Option H

-- the domain that an authorization is for, with the wildcard put back, and its key
unfoldable pub authorization_key : Platform → Authorization → Result IdentifierKey
unfolding validate_dns_identifier identifier_key_from_protocol
authorization_key py authz = do
  domain ←
      if authz.wildcard
      then (do
        guard (str_eq authz.identifier_type (codes "dns")) value_error
        checked ← validate_dns_identifier py authz.identifier_value false
        ok (codes "*." ++ authz.identifier_value))
      else ok authz.identifier_value
  identifier_key_from_protocol py (text authz.identifier_type) (text domain)

module _ (py : Platform) {H : Type 0} where
  -- `{identifier_key_from_value(value): override for value, override in challenge_map.items()}`: of two
  -- entries with one key the later counts
  unfoldable pub overrides_of :
      List (IdentifierValue py × Str × H) → Result (Dict IdentifierKey (Str × H))
  unfolding Dict.get
  overrides_of [] = ok []
  overrides_of ((value, kind, handler) ∷ rest) =
      let others = overrides_of rest in
      do
        key ← identifier_key_from_value py value
        found ← others
        ok (if has_key found key then found else (key, (kind, handler)) ∷ found)

  -- an override, or the default type with the client's handler
  abbrev pub choice :
      Dict IdentifierKey (Str × H) → Str → Option H → IdentifierKey → Option (Str × H)
  choice overrides challenge_type default key = elim (Dict.get overrides key) [
    | some chosen ↦ some chosen
    | none ↦ elim default [ none ↦ none | some handler ↦ some (challenge_type, handler) ]
  ]

  abbrev pub or_no_handler : Option (Str × H) → Result (Str × H)
  or_no_handler none = raise value_error
  or_no_handler (some chosen) = ok chosen

  -- the loop that fills `effective`
  unfoldable pub effective_of :
      Dict IdentifierKey (Str × H)
      → Str
      → Option H
      → List (IdentifierValue py × WireIdentifier)
      → Dict IdentifierKey (Effective H)
      → Result (Dict IdentifierKey (Effective H))
  unfolding Dict.get Dict.put
  effective_of overrides challenge_type default [] effective = ok effective
  effective_of overrides challenge_type default ((input, identifier) ∷ rest) effective = do
    key ← identifier_key_from_value py input
    (kind, handler) ← or_no_handler (choice overrides challenge_type default key)
    effective_of overrides challenge_type default rest (
        Dict.put effective key
          (record { value = identifier.value; challenge_type = kind; handler = handler }))

  abbrev pub or_key_error_of : Option (Effective H) → Result (Effective H)
  or_key_error_of none = raise key_error
  or_key_error_of (some found) = ok found

  -- the loop of the compatibility checks
  unfoldable pub check_compatible :
      Dict IdentifierKey (Effective H)
      → List (IdentifierValue py × WireIdentifier)
      → Result (Unit {0})
  unfolding Dict.get starts_with
  check_compatible effective [] = ok tt
  check_compatible effective ((input, identifier) ∷ rest) =
      let others = check_compatible effective rest in
      do
        key ← identifier_key_from_value py input
        found ← or_key_error_of (Dict.get effective key)
        guard (is_compatible identifier found.challenge_type) value_error
        others

  -- everything before the rate limit
  unfoldable pub plan : Arguments py H → Result (Plan py H)
  unfolding normalize_identifier_values traverse protocol_identifier_from_value overrides_of
      effective_of check_compatible zip
  plan args = do
    values ← normalize_identifier_values py args.domains
    identifiers ← traverse (protocol_identifier_from_value py) values
    overrides ← overrides_of args.challenge_map
    effective ←
        effective_of overrides args.challenge_type args.challenge_handler (zip values identifiers)
          []
    check_compatible effective (zip values identifiers)
    ok (record { values = values; identifiers = identifiers; effective = effective })

  -- the route of an authorization: its entry of `effective`, and the challenge of that type
  unfoldable pub route_of :
      Dict IdentifierKey (Effective H) → Authorization → Result (Effective H × Challenge)
  unfolding Dict.get authorization_key find_challenge_in
  route_of effective authz = do
    key ← authorization_key py authz
    route ← or_value_error (Dict.get effective key)
    chall ← or_value_error (find_challenge_in route.challenge_type authz.challenges)
    ok (route, chall)

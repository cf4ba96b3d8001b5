-- ===== src/Identifiers/Csr.antt =====
-- The projections from a CSR and from a certificate, and the check of a CSR against an order.
pub mod Sans
pub mod Binding
use lacme.Prelude.{
  Bool, true, false, not, ◌||◌, ◌&&◌, Option, none, some, List, [], ◌∷◌, ◌++◌, map, any, all,
  if◌then◌else◌, Str, str_eq, Eq, pair_Eq, str_Eq, Result, ok, raise, value_error, ◌>>=◌, ◌>>◌,
  guard,
}
use lacme.Prelude.Text.{codes, is_empty, lower}
use lacme.Base64.{b64url_decode_strict}
use lacme.Json.{Json, text}
use lacme.Jose.{or_value_error, decode_field}
use lacme.Identifiers.Platform.{Platform}
use lacme.Identifiers.X509.{GeneralName, dns_name, ip_address, ip_network, other_name, X509}
use lacme.Identifiers.Dns.{validate_dns_identifier}
use lacme.Identifiers.Values.{
  IdentifierKey, WireIdentifier, IdentifierValue, name, address, traverse,
  validate_identifier_value, identifier_key_from_value, identifier_key_from_protocol,
  protocol_identifier_values,
}

-- `k in s`, on a set of keys kept as a list
unfoldable pub mem : IdentifierKey → List IdentifierKey → Bool
mem k [] = false
mem k (j ∷ ks) = pair_Eq.beq k j || mem k ks

-- `a == b` on sets
unfoldable pub subset : List IdentifierKey → List IdentifierKey → Bool
subset [] ks = true
subset (j ∷ js) ks = mem j ks && subset js ks

abbrev pub same_set : List IdentifierKey → List IdentifierKey → Bool
same_set js ks = subset js ks && subset ks js

module _ (py : Platform) (x509 : X509 py) where
  open x509 use {Csr, Certificate}

  unfoldable pub identifier_value_from_general_name : GeneralName py → Result (IdentifierValue py)
  identifier_value_from_general_name (dns_name value) = validate_identifier_value py (name value)
  identifier_value_from_general_name (ip_address a) = validate_identifier_value py (address a)
  identifier_value_from_general_name ip_network = raise value_error
  identifier_value_from_general_name other_name = raise value_error

  unfoldable pub identifier_values_from_sans :
      List (GeneralName py) → Result (List (IdentifierValue py))
  unfolding identifier_value_from_general_name traverse
  identifier_values_from_sans = traverse identifier_value_from_general_name

  abbrev pub or_no_sans : Option (List (GeneralName py)) → List (GeneralName py)
  or_no_sans none = []
  or_no_sans (some sans) = sans

  unfoldable pub csr_san_identifier_values : Csr → Result (List (IdentifierValue py))
  unfolding identifier_values_from_sans
  csr_san_identifier_values csr = identifier_values_from_sans (or_no_sans (x509.csr_sans csr))

  abbrev first_common_name : List Str → Result (List (IdentifierValue py))
  first_common_name [] = raise value_error
  first_common_name (cn ∷ _) = do
    checked ← validate_dns_identifier py cn true
    ok (name checked ∷ [])

  unfoldable pub csr_ca_identifier_values : Csr → Result (List (IdentifierValue py))
  csr_ca_identifier_values csr = do
    values ← csr_san_identifier_values csr
    if not (is_empty values) then ok values else first_common_name (x509.csr_common_names csr)

  -- `str(value).lower()`
  abbrev value_text : IdentifierValue py → Str
  value_text (name s) = lower s
  value_text (address a) = lower (py.address_text a)

  unfoldable pub identifier_key_set : List (IdentifierValue py) → Result (List IdentifierKey)
  identifier_key_set = traverse (identifier_key_from_value py)

  unfoldable pub protocol_identifier_key_set : List WireIdentifier → Result (List IdentifierKey)
  protocol_identifier_key_set =
      traverse (λ w. identifier_key_from_protocol py (text w.kind) (text w.value))

  -- The test of the loop over the common names.
  unfoldable pub adds_common_name : List IdentifierKey → List Str → List IdentifierKey → Str → Bool
  adds_common_name expected_keys san_text represented common_name =
      let dns_key : IdentifierKey = (codes "dns", py.lower_text common_name) in
      (mem dns_key expected_keys && not (mem dns_key represented))
      || not (any (λ t. str_eq t (py.lower_text common_name)) san_text)

  -- The loop itself: the values and the keys that it leaves.
  unfoldable pub add_common_names :
      List IdentifierKey
      → List Str
      → List Str
      → List (IdentifierValue py)
      → List IdentifierKey
      → Result (List (IdentifierValue py) × List IdentifierKey)
  add_common_names expected_keys san_text [] values represented = ok (values, represented)
  add_common_names expected_keys san_text (cn ∷ cns) values represented =
      elim (adds_common_name expected_keys san_text represented cn) [
        | false ↦ add_common_names expected_keys san_text cns values represented
        | true ↦ validate_dns_identifier py cn true >>= λ checked.
            add_common_names expected_keys san_text cns (values ++ name checked ∷ [])
              ((codes "dns", py.lower_text cn) ∷ represented)
      ]

  unfoldable pub validate_csr_identifiers :
      Csr → List WireIdentifier → Result (List (IdentifierValue py))
  validate_csr_identifiers csr expected_identifiers = do
    expected_keys ← protocol_identifier_key_set expected_identifiers
    values ← csr_san_identifier_values csr
    represented_keys ← identifier_key_set values
    let san_text = map value_text values
    (all_values, all_keys) ←
        add_common_names expected_keys san_text (x509.csr_common_names csr) values represented_keys
    guard (not (is_empty all_values)) value_error
    guard (same_set all_keys expected_keys) value_error
    ok all_values

  -- `not isinstance(csr_b64, str) or not csr_b64`
  abbrev nonempty_text : Json → Bool
  nonempty_text (text s) = not (is_empty s)
  nonempty_text _ = false

  -- `none` stands for a payload with no `csr` member
  unfoldable pub decode_and_validate_csr :
      Option Json → List WireIdentifier → Result (Str × List (IdentifierValue py))
  decode_and_validate_csr none expected = raise value_error
  decode_and_validate_csr (some csr_b64) expected = do
    guard (nonempty_text csr_b64) value_error
    csr_der ← decode_field csr_b64
    csr ← or_value_error (x509.load_der_x509_csr csr_der)
    guard (x509.is_signature_valid csr) value_error
    represented ← validate_csr_identifiers csr expected
    values ← protocol_identifier_values py expected
    ok (csr_der, values)

  unfoldable pub certificate_identifier_values : Certificate → Result (List (IdentifierValue py))
  certificate_identifier_values certificate = do
    sans ← or_value_error (x509.certificate_sans certificate)
    values ← identifier_values_from_sans sans
    guard (not (is_empty values)) value_error
    ok values

-- ===== src/Identifiers/Bundle.antt =====
-- `certificate_bundle_identifier_values`: the typed identifiers of a stored bundle, in the order of its metadata.
pub mod Matching
use lacme.Prelude.{
  Bool, true, false, not, ◌&&◌, Option, none, some, List, [], ◌∷◌, if◌then◌else◌, Str, str_eq,
  Result, ok, raise, value_error, ◌>>=◌, ◌>>◌, guard,
}
use lacme.Prelude.Text.{is_empty, lower}
use lacme.Jose.{or_value_error}
use lacme.Identifiers.Platform.{Platform}
use lacme.Identifiers.X509.{X509}
use lacme.Identifiers.Values.{IdentifierValue, name, address}
use lacme.Identifiers.Csr.{certificate_identifier_values}

-- The fields of `CertBundle` that are read here.
pub record CertBundle : Type 0 where
  pub domain : Str
  pub domains : List Str
  pub cert_pem : Str

-- `bundle.domains and bundle.domain == bundle.domains[0]`
abbrev has_primary : Str → List Str → Bool
has_primary domain [] = false
has_primary domain (d ∷ ds) = str_eq domain d

module _ (py : Platform) where
  -- whether a value is what the metadata names
  abbrev pub is_named : IdentifierValue py → Str → Bool
  is_named (name value) domain = str_eq (lower value) (py.lower_text domain)
  is_named (address a) domain = str_eq (py.address_text a) domain

  abbrev keeping :
      IdentifierValue py
      → Option (IdentifierValue py × List (IdentifierValue py))
      → Option (IdentifierValue py × List (IdentifierValue py))
  keeping v none = none
  keeping v (some (match, rest)) = some (match, v ∷ rest)

  -- the first match, with `remaining` once it is popped
  unfoldable pub pop_match :
      Str → List (IdentifierValue py) → Option (IdentifierValue py × List (IdentifierValue py))
  pop_match domain [] = none
  pop_match domain (v ∷ remaining) =
      let rest = pop_match domain remaining in
      if is_named v domain then some (v, remaining) else keeping v rest

  -- the loop over `bundle.domains`, and the check that nothing remains
  unfoldable pub order_values :
      List Str → List (IdentifierValue py) → Result (List (IdentifierValue py))
  order_values [] [] = ok []
  order_values [] (v ∷ remaining) = raise value_error
  order_values (domain ∷ domains) remaining =
      or_value_error (pop_match domain remaining) >>= λ (match, rest).
      order_values domains rest >>= λ ordered. ok (match ∷ ordered)

  module _ (x509 : X509 py) where
    -- `expected one leaf certificate`
    abbrev the_one : List x509.Certificate → Result x509.Certificate
    the_one (certificate ∷ []) = ok certificate
    the_one _ = raise value_error

    unfoldable pub certificate_bundle_identifier_values :
        CertBundle → Result (List (IdentifierValue py))
    certificate_bundle_identifier_values bundle = do
      guard (has_primary bundle.domain bundle.domains) value_error
      certificates ← or_value_error (x509.load_pem_x509_certificates bundle.cert_pem)
      certificate ← the_one certificates
      values ← certificate_identifier_values py x509 certificate
      order_values bundle.domains values

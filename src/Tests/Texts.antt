-- ===== src/Tests/Texts.antt =====
-- Runs of the texts' encodings and checks.
use lacme.Prelude.{◌≡◌, ◌↔◌, refl, true, false, List, [], ◌∷◌, map, ok, raise, value_error}
use lacme.Prelude.Text.{codes}
use lacme.Base64.{IsBytes, b64url_encode, b64url_decode_strict}
use lacme.Base64.RoundTrip.{b64url_decode_strict-ok_iff}
use lacme.Json.{Fields, text, end}
use lacme.Jose.{object, empty, parse_unverified_jws}
use lacme.Jose.Accepts.{parse_unverified_jws-ok_iff, IsRequest}
use lacme.Identifiers.Dns.{validate_dns_identifier}
use lacme.Identifiers.Dns.Accepts.{validate_dns_identifier-ok_iff, IsCertificateName}
use lacme.Identifiers.Values.{
  many, IdentifierValue, name, address, normalize_identifier_values, normalize_protocol_identifiers,
  wire_of, protocol_identifier_values, identifier_key_from_value, identifier_key_from_protocol,
}
use lacme.Identifiers.Values.RoundTrip.{wire_roundtrip, identifiers_payload, IsValid}
use lacme.Identifiers.Values.Keys.{
  identifier_key-eq_iff, identifier_key_from_protocol-wire, SameIdentifier,
}
use lacme.Identifiers.Bundle.{CertBundle, certificate_bundle_identifier_values}
use lacme.Identifiers.Bundle.Matching.{Holds, certificate_bundle_identifier_values-Holds}
use lacme.Tests.Program.{program}
use lacme.Tests.World.{certificates, platform, decoders, envelope}

b64url_decode_strict-ok_iff_example :
    (b64url_decode_strict (codes "AQI") ≡ ok (1 ∷ 2 ∷ []))
    ↔ (IsBytes (1 ∷ 2 ∷ []) × (b64url_encode (1 ∷ 2 ∷ []) ≡ codes "AQI"))
b64url_decode_strict-ok_iff_example = b64url_decode_strict-ok_iff (codes "AQI") (1 ∷ 2 ∷ [])

-- the same bytes with other pad bits, and with padding
strict :
    (b64url_decode_strict (codes "AQI") ≡ ok (1 ∷ 2 ∷ []))
    × (b64url_decode_strict (codes "AQJ") ≡ raise value_error)
    × (b64url_decode_strict (codes "AQI=") ≡ raise value_error)
unfolding program
strict = (refl, refl, refl)

abbrev challenge_envelope : Fields
challenge_envelope = envelope (codes "c")

parse_unverified_jws-ok_iff_example :
    (parse_unverified_jws decoders empty (codes "E") ≡ ok (end, end))
    ↔ IsRequest decoders empty (codes "E") end end
parse_unverified_jws-ok_iff_example = parse_unverified_jws-ok_iff decoders empty (codes "E") end end

-- a POST-as-GET has an empty payload, and a POST has an object
jws_modes :
    (parse_unverified_jws decoders object (codes "E") ≡ raise value_error)
    × (parse_unverified_jws decoders empty (codes "C") ≡ raise value_error)
unfolding program
jws_modes = (refl, refl)

validate_dns_identifier-ok_iff_example :
    (validate_dns_identifier platform (codes "*.a.io") true ≡ ok (codes "*.a.io"))
    ↔ ((codes "*.a.io" ≡ codes "*.a.io") × IsCertificateName platform true (codes "*.a.io"))
validate_dns_identifier-ok_iff_example =
    validate_dns_identifier-ok_iff platform (codes "*.a.io") true (codes "*.a.io")

names :
    (validate_dns_identifier platform (codes "*.a.io") false ≡ raise value_error)
    × (validate_dns_identifier platform (codes "-a.io") true ≡ raise value_error)
unfolding program
names = (refl, refl)

abbrev both : List (IdentifierValue platform)
both = name (codes "a.io") ∷ address true ∷ []

both_accepted : normalize_identifier_values platform (many both) ≡ ok both
unfolding program
both_accepted = refl

wire_roundtrip_example :
    (both ≡ both)
    × (normalize_protocol_identifiers platform (identifiers_payload (map (wire_of platform) both))
        ≡ ok (map (wire_of platform) both))
    × (protocol_identifier_values platform (map (wire_of platform) both) ≡ ok both)
wire_roundtrip_example = wire_roundtrip platform (many both) both both_accepted

upper-IsValid : IsValid platform (name (codes "A.io"))
unfolding program
upper-IsValid = refl

lower-IsValid : IsValid platform (name (codes "a.io"))
unfolding program
lower-IsValid = refl

identifier_key-eq_iff_example :
    (identifier_key_from_value platform (name (codes "A.io"))
      ≡ identifier_key_from_value platform (name (codes "a.io")))
    ↔ SameIdentifier platform (name (codes "A.io")) (name (codes "a.io"))
identifier_key-eq_iff_example =
    identifier_key-eq_iff platform (name (codes "A.io")) (name (codes "a.io")) upper-IsValid
      lower-IsValid

identifier_key_from_protocol-wire_example :
    identifier_key_from_protocol platform
      (text (wire_of platform (name (codes "A.io"))).kind)
      (text (wire_of platform (name (codes "A.io"))).value)
    ≡ identifier_key_from_value platform (name (codes "A.io"))
identifier_key_from_protocol-wire_example =
    identifier_key_from_protocol-wire platform (name (codes "A.io")) upper-IsValid

abbrev bundle : CertBundle
bundle = record {
  domain = codes "A.io";
  domains = codes "A.io" ∷ codes "10.0.0.1" ∷ [];
  cert_pem = codes "C";
}

recovered :
    certificate_bundle_identifier_values platform certificates bundle
    ≡ ok (name (codes "a.io") ∷ address true ∷ [])
unfolding program
recovered = refl

certificate_bundle_identifier_values-Holds_example :
    Holds platform certificates bundle (name (codes "a.io") ∷ address true ∷ [])
certificate_bundle_identifier_values-Holds_example =
    certificate_bundle_identifier_values-Holds platform certificates bundle
      (name (codes "a.io") ∷ address true ∷ []) recovered

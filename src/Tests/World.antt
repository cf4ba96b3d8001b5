-- ===== src/Tests/World.antt =====
-- A small world: two addresses, a CSR for one name, and JSON texts of one letter.
use lacme.Prelude.{
  ◌≡◌, refl, Bool, true, false, Option, none, some, List, [], ◌∷◌, Str, str_eq, ltb, ◌&&◌,
  if◌then◌else◌,
}
use lacme.Prelude.Text.{codes, lower}
use lacme.Base64.{b64url_encode}
use lacme.Json.{Json, Fields, text, arr, obj, field, end, nil, cons}
use lacme.Jose.{Decoders}
use lacme.Identifiers.Platform.{Platform}
use lacme.Identifiers.X509.{X509, GeneralName, dns_name}
use lacme.Responder.State.{Config}

-- The address `true` is 10.0.0.1, and `false` is a scoped one.
unfoldable pub address_text : Bool → Str
address_text true = codes "10.0.0.1"
address_text false = codes "fe80::1%e"

unfoldable pub parse_address : Str → Option Bool
parse_address s =
    if str_eq s (codes "10.0.0.1")
    then some true
    else if str_eq s (codes "fe80::1%e")
    then some false
    else none

pub parse_address-text : (a : Bool) → parse_address (address_text a) ≡ some a
unfolding parse_address address_text str_eq
parse_address-text true = refl
parse_address-text false = refl

pub parse_address-nil : parse_address [] ≡ none
unfolding parse_address str_eq
parse_address-nil = refl

unfoldable pub is_scoped : Bool → Bool
is_scoped true = false
is_scoped false = true

abbrev pub platform : Platform
platform = record {
  Address = Bool;
  address_text = address_text;
  ip_address = parse_address;
  is_scoped = is_scoped;
  recode = λ label. some label;
  lower_text = lower;
  lower_text-ascii = λ s h. refl;
  ip_address-text = parse_address-text;
  ip_address-nil = parse_address-nil;
}

-- One CSR, whose DER is the byte 48.
unfoldable pub load_csr : Str → Option (Unit {0})
load_csr der = if str_eq der (codes "0") then some tt else none

abbrev csr_names : List (GeneralName platform)
csr_names = dns_name (codes "a.io") ∷ []

-- One certificate, for a.io and 10.0.0.1.
unfoldable pub load_pem : Str → Option (List (Unit {0}))
load_pem pem = if str_eq pem (codes "C") then some (tt ∷ []) else none

abbrev certificate_names : List (GeneralName platform)
certificate_names = GeneralName.ip_address true ∷ dns_name (codes "a.io") ∷ []

abbrev pub certificates : X509 platform
certificates = record {
  Csr = Unit;
  Certificate = Unit;
  load_der_x509_csr = load_csr;
  is_signature_valid = λ csr. true;
  csr_sans = λ csr. some csr_names;
  csr_common_names = λ csr. codes "a.io" ∷ [];
  load_pem_x509_certificates = load_pem;
  certificate_sans = λ certificate. some certificate_names;
}

abbrev key_json : Json
key_json = obj (
    field (codes "crv") (text (codes "P-256")) (
      field (codes "kty") (text (codes "EC"))
        (field (codes "x") (text (codes "x")) (field (codes "y") (text (codes "y")) end))))

-- A flattened JWS with the protected header P and the payload.
unfoldable pub envelope : Str → Fields
envelope payload = field (codes "protected") (text (b64url_encode (codes "P"))) (
    field (codes "payload") (text (b64url_encode payload))
      (field (codes "signature") (text (b64url_encode (codes "s"))) end))

-- A: newAccount, O: newOrder, C: a challenge, F: finalize, E: POST-as-GET
unfoldable pub loads : Str → Option Json
loads s =
    if str_eq s (codes "P")
    then some (obj (field (codes "jwk") key_json end))
    else if str_eq s (codes "o")
    then some (
        obj (
          field (codes "identifiers")
            (arr (
              cons
                (obj (
                  field (codes "type") (text (codes "dns"))
                    (field (codes "value") (text (codes "a.io")) end)))
                nil))
            end))
    else if str_eq s (codes "f")
    then some (obj (field (codes "csr") (text (b64url_encode (codes "0"))) end))
    else if str_eq s (codes "c")
    then some (obj end)
    else if str_eq s (codes "O")
    then some (obj (envelope (codes "o")))
    else if str_eq s (codes "F")
    then some (obj (envelope (codes "f")))
    else if str_eq s (codes "C")
    then some (obj (envelope (codes "c")))
    else if str_eq s (codes "E")
    then some (obj (envelope []))
    else none

abbrev pub decoders : Decoders
decoders = record { utf8 = λ s. some s; loads = loads }

abbrev pub issued_pem : Str
issued_pem = codes "PEM"

-- The validator accepts a.io from the second request on.
abbrev pub world : Config
world = record {
  py = platform;
  x509 = certificates;
  decoders = decoders;
  external_url = some (codes "https://ca");
  auto_approve = false;
  challenge_validator =
      some (λ n identifier kind token key. ltb 1 n && str_eq identifier (codes "a.io"));
  issue_from_csr = λ der identifiers. some issued_pem;
  token_bytes = λ n. codes "token";
  canonical_digest = λ crv kty x y. codes "digest";
  root_cert_pem = codes "ROOT";
}

-- ===== src/Identifiers/Values.antt =====
-- The public values of an identifier, its wire form and its key.
pub mod RoundTrip
pub mod Keys
use lacme.Prelude.{
  Bool, true, false, not, ◌||◌, Option, none, some, List, [], ◌∷◌, if◌then◌else◌, Str, str_eq,
  Result, ok, raise, value_error, unsupported_identifier_type, ◌>>=◌, ◌>>◌, guard,
}
use lacme.Prelude.Text.{codes, is_empty, lower}
use lacme.Json.{Json, Items, Fields, nil, cons, text, arr, obj, find}
use lacme.Jose.{or_value_error}
use lacme.Identifiers.Platform.{Platform}
use lacme.Identifiers.Dns.{validate_dns_identifier}

-- `IdentifierKey`
abbrev pub IdentifierKey : Type 0
IdentifierKey = Str × Str

-- An object `{"type": ..., "value": ...}`.
pub record WireIdentifier : Type 0 where
  pub kind : Str
  pub value : Str

-- a value or an iterable of values
pub data OneOrMany {ℓ} (A : Type ℓ) : Type ℓ where
  one : A → OneOrMany A
  many : List A → OneOrMany A

-- `[f(x) for x in xs]` where `f` may raise
unfoldable pub traverse {ℓ κ} :
    {A : Type ℓ} {B : Type κ} → (A → Result B) → List A → Result (List B)
traverse f [] = ok []
traverse f (x ∷ xs) = let rest = traverse f xs in do y ← f x; ys ← rest; ok (y ∷ ys)

module _ (py : Platform) where
  open py use {Address, address_text, ip_address, is_scoped}

  -- `IdentifierValue`: a `str`, an `IPv4Address` or an `IPv6Address`
  pub data IdentifierValue : Type 0 where
    name : Str → IdentifierValue
    address : Address → IdentifierValue

  unfoldable pub validate_identifier_value : IdentifierValue → Result IdentifierValue
  validate_identifier_value (name value) = do
    checked ← validate_dns_identifier py value true
    ok (name checked)
  validate_identifier_value (address value) = do
    guard (not (is_scoped value)) value_error
    ok (address value)

  abbrev pub candidates : OneOrMany IdentifierValue → List IdentifierValue
  candidates (one value) = value ∷ []
  candidates (many values) = values

  unfoldable pub normalize_identifier_values :
      OneOrMany IdentifierValue → Result (List IdentifierValue)
  normalize_identifier_values values = do
    guard (not (is_empty (candidates values))) value_error
    traverse validate_identifier_value (candidates values)

  abbrev pub key_of : IdentifierValue → IdentifierKey
  key_of (name value) = (codes "dns", lower value)
  key_of (address value) = (codes "ip", address_text value)

  abbrev pub wire_of : IdentifierValue → WireIdentifier
  wire_of (name value) = record { kind = codes "dns"; value = value }
  wire_of (address value) = record { kind = codes "ip"; value = address_text value }

  unfoldable pub identifier_key_from_value : IdentifierValue → Result IdentifierKey
  identifier_key_from_value value = do
    checked ← validate_identifier_value value
    ok (key_of checked)

  unfoldable pub protocol_identifier_from_value : IdentifierValue → Result WireIdentifier
  protocol_identifier_from_value value = do
    checked ← validate_identifier_value value
    ok (wire_of checked)

  -- the `ip` branch of `normalize_protocol_identifier`
  unfoldable pub normalize_ip : Str → Result WireIdentifier
  normalize_ip value = do
    parsed ← or_value_error (ip_address value)
    guard (not (is_scoped parsed)) value_error
    guard (str_eq (address_text parsed) value) value_error
    ok (record { kind = codes "ip"; value = value })

  unfoldable pub normalize_protocol_identifier : Json → Json → Result WireIdentifier
  normalize_protocol_identifier (text identifier_type) (text value) = do
    guard (not (is_empty value)) value_error
    guard (str_eq identifier_type (codes "dns") || str_eq identifier_type (codes "ip"))
        unsupported_identifier_type
    if str_eq identifier_type (codes "dns")
        then (do
          checked ← validate_dns_identifier py value true
          ok (record { kind = identifier_type; value = checked }))
        else normalize_ip value
  normalize_protocol_identifier _ _ = raise value_error

  unfoldable pub identifier_key_from_protocol : Json → Json → Result IdentifierKey
  identifier_key_from_protocol identifier_type value = do
    checked ← normalize_protocol_identifier identifier_type value
    ok (
      checked.kind,
      (if str_eq checked.kind (codes "dns") then lower checked.value else checked.value),
    )

  -- the body of the loop of `normalize_protocol_identifiers`
  unfoldable pub normalize_raw_identifier : Json → Result WireIdentifier
  normalize_raw_identifier (obj d) = do
    identifier_type ← or_value_error (find d (codes "type"))
    value ← or_value_error (find d (codes "value"))
    normalize_protocol_identifier identifier_type value
  normalize_raw_identifier _ = raise value_error

  unfoldable pub normalize_items : Items → Result (List WireIdentifier)
  unfolding normalize_raw_identifier
  normalize_items nil = ok []
  normalize_items (cons raw items) =
      let rest = normalize_items items in
      do
        identifier ← normalize_raw_identifier raw
        identifiers ← rest
        ok (identifier ∷ identifiers)

  unfoldable pub normalize_protocol_identifiers : Json → Result (List WireIdentifier)
  normalize_protocol_identifiers (arr nil) = raise value_error
  normalize_protocol_identifiers (arr (cons raw items)) = normalize_items (cons raw items)
  normalize_protocol_identifiers _ = raise value_error

  -- one round of the loop of `protocol_identifier_values`
  unfoldable pub value_from_wire : WireIdentifier → Result IdentifierValue
  value_from_wire identifier = do
    checked ← normalize_protocol_identifier (text identifier.kind) (text identifier.value)
    if str_eq checked.kind (codes "ip")
        then (do parsed ← or_value_error (ip_address checked.value); ok (address parsed))
        else ok (name checked.value)

  unfoldable pub protocol_identifier_values : List WireIdentifier → Result (List IdentifierValue)
  unfolding value_from_wire traverse
  protocol_identifier_values = traverse value_from_wire

-- ===== src/Identifiers/Values/RoundTrip.antt =====
-- What a client sends as identifiers is what the server reads: the wire form and back.
use lacme.Prelude.{
  true, false, not, some, List, [], ◌∷◌, map, ◌≡◌, refl, ap, sym, ◌∙◌, Str, str_eq, str_eq_refl,
  All, ok, value_error, guard-eq-ok, >>=-eq-ok, ok-injective,
}
use lacme.Prelude.Text.{codes, is_empty}
use lacme.Json.{Json, end, field, text, arr, obj, find, of_list}
use lacme.Identifiers.Platform.{Platform}
use lacme.Identifiers.Dns.{validate_dns_identifier}
use lacme.Identifiers.Dns.Accepts.{validate_dns_identifier-ok_iff, validate_dns_identifier-full}
use lacme.Identifiers.Values.{
  WireIdentifier, OneOrMany, traverse, IdentifierValue, name, address, validate_identifier_value,
  candidates, normalize_identifier_values, wire_of, normalize_ip, normalize_protocol_identifier,
  normalize_raw_identifier, normalize_items, normalize_protocol_identifiers, value_from_wire,
  protocol_identifier_values,
}

-- `Identifier.to_dict` of lacme/models.py
abbrev pub to_dict : WireIdentifier → Json
to_dict w = obj (field (codes "type") (text w.kind) (field (codes "value") (text w.value) end))

-- the `identifiers` of the payload that `Client.create_order` sends
abbrev pub identifiers_payload : List WireIdentifier → Json
identifiers_payload ws = arr (of_list (map to_dict ws))

module _ (py : Platform) where
  open py use {Address, address_text, ip_address, is_scoped}

  abbrev pub IsValid : IdentifierValue py → Type 0
  IsValid v = validate_identifier_value py v ≡ ok v

  pub validate_identifier_value-same :
      (v u : IdentifierValue py) → validate_identifier_value py v ≡ ok u → u ≡ v
  unfolding validate_identifier_value
  validate_identifier_value-same (name value) u h =
      let (checked, found, h₁) = >>=-eq-ok (validate_dns_identifier py value true) _ h in
      let (same, _) = (validate_dns_identifier-ok_iff py value true checked).0 found in
      sym (ok-injective h₁) ∙ ap name same
  validate_identifier_value-same (address a) u h =
      sym (ok-injective (guard-eq-ok (not (is_scoped a)) value_error _ h).1)

  address_text-full : (a : Address) → is_empty (address_text a) ≡ false
  address_text-full a = full (address_text a) (py.ip_address-text a)
    where
      full : (s : Str) → ip_address s ≡ some a → is_empty s ≡ false
      full [] h = cc (py.ip_address-nil)
      full (c ∷ s) h = refl

  normalize_ip-text :
      (a : Address)
      → not (is_scoped a) ≡ true
      → normalize_ip py (address_text a) ≡ ok (wire_of py (address a))
  unfolding normalize_ip
  normalize_ip-text a h = rw (py.ip_address-text a) (rw (h, str_eq_refl))

  pub normalize-wire :
      (v : IdentifierValue py)
      → IsValid v
      → normalize_protocol_identifier py (text (wire_of py v).kind) (text (wire_of py v).value)
        ≡ ok (wire_of py v)
  unfolding normalize_protocol_identifier validate_identifier_value str_eq
  normalize-wire (name value) h =
      let (checked, found, h₁) = >>=-eq-ok (validate_dns_identifier py value true) _ h in
      let (same, _) = (validate_dns_identifier-ok_iff py value true checked).0 found in
      rw (validate_dns_identifier-full py value true checked found) (rw found (rw same))
  normalize-wire (address a) h =
      rw (address_text-full a)
        (normalize_ip-text a (guard-eq-ok (not (is_scoped a)) value_error _ h).0)

  value_from_wire-of :
      (v : IdentifierValue py) → IsValid v → value_from_wire py (wire_of py v) ≡ ok v
  unfolding value_from_wire str_eq
  value_from_wire-of (name value) h = rw (normalize-wire (name value) h)
  value_from_wire-of (address a) h = rw (normalize-wire (address a) h) (rw (py.ip_address-text a))

  find-type :
      (w : WireIdentifier)
      → normalize_raw_identifier py (to_dict w)
        ≡ normalize_protocol_identifier py (text w.kind) (text w.value)
  unfolding normalize_raw_identifier find str_eq
  find-type w = refl

  normalize_items-wire :
      (vs : List (IdentifierValue py))
      → All IsValid vs
      → normalize_items py (of_list (map to_dict (map (wire_of py) vs))) ≡ ok (map (wire_of py) vs)
  unfolding normalize_items of_list
  normalize_items-wire [] h = refl
  normalize_items-wire (v ∷ vs) h =
      rw (find-type (wire_of py v)) (rw (normalize-wire v h.0) (rw (normalize_items-wire vs h.1)))

  traverse-value_from_wire :
      (vs : List (IdentifierValue py))
      → All IsValid vs
      → traverse (value_from_wire py) (map (wire_of py) vs) ≡ ok vs
  unfolding traverse
  traverse-value_from_wire [] h = refl
  traverse-value_from_wire (v ∷ vs) h =
      rw (value_from_wire-of v h.0) (rw (traverse-value_from_wire vs h.1))

  -- Validation changes no value, so what it returns is its input, valid throughout.
  traverse-IsValid :
      (vs us : List (IdentifierValue py))
      → traverse (validate_identifier_value py) vs ≡ ok us
      → (us ≡ vs) × All IsValid vs
  unfolding traverse
  traverse-IsValid [] us h = (sym (ok-injective h), tt)
  traverse-IsValid (v ∷ vs) us h =
      let (u, found, h₁) = >>=-eq-ok (validate_identifier_value py v) _ h in
      let (rest, more, h₂) = >>=-eq-ok (traverse (validate_identifier_value py) vs) _ h₁ in
      let same = validate_identifier_value-same v u found in
      let (same_rest, valid) = traverse-IsValid vs rest more in
      (
        sym (ok-injective h₂) ∙ ap (λ x. x ∷ rest) same ∙ ap (◌∷◌ v) same_rest,
        (found ∙ ap ok same, valid),
      )

  payload-accepted :
      (v : IdentifierValue py) (vs : List (IdentifierValue py))
      → All IsValid (v ∷ vs)
      → normalize_protocol_identifiers py (identifiers_payload (map (wire_of py) (v ∷ vs)))
        ≡ ok (map (wire_of py) (v ∷ vs))
  unfolding normalize_protocol_identifiers of_list
  payload-accepted v vs h = normalize_items-wire (v ∷ vs) h

  -- If `normalize_identifier_values` accepts the caller's values, it returns them unchanged, the
  -- `identifiers` array that the client builds of them passes `normalize_protocol_identifiers` on
  -- the server unchanged, and `protocol_identifier_values` turns it back into the caller's values.
  pub wire_roundtrip :
      (values : OneOrMany (IdentifierValue py)) (checked : List (IdentifierValue py))
      → normalize_identifier_values py values ≡ ok checked
      → (checked ≡ candidates py values)
        × (normalize_protocol_identifiers py (identifiers_payload (map (wire_of py) checked))
            ≡ ok (map (wire_of py) checked))
        × (protocol_identifier_values py (map (wire_of py) checked) ≡ ok checked)
  unfolding normalize_identifier_values protocol_identifier_values
  wire_roundtrip values checked h =
      let (some_value, h₁) = guard-eq-ok (not (is_empty (candidates py values))) value_error _ h in
      let (same, valid) = traverse-IsValid (candidates py values) checked h₁ in
      (
        same,
        rw same (accepted (candidates py values) some_value valid),
        rw same (traverse-value_from_wire (candidates py values) valid),
      )
    where
      accepted :
          (vs : List (IdentifierValue py))
          → not (is_empty vs) ≡ true
          → All IsValid vs
          → normalize_protocol_identifiers py (identifiers_payload (map (wire_of py) vs))
            ≡ ok (map (wire_of py) vs)
      accepted [] full valid = cc
      accepted (v ∷ vs) full valid = payload-accepted v vs valid

-- ===== src/Identifiers/Values/Keys.antt =====
-- When two values have the same key.
use lacme.Prelude.{false, ◌≡◌, ◌↔◌, refl, ap, sym, ◌∙◌, Str, str_eq, ok, ok-injective, arith}
use mathlib.Core.Option.{some-injective}
use lacme.Prelude.Text.{codes, lower}
use lacme.Json.{text}
use lacme.Identifiers.Platform.{Platform}
use lacme.Identifiers.Values.{
  IdentifierValue, IdentifierKey, name, address, key_of, wire_of, identifier_key_from_value,
  identifier_key_from_protocol,
}
use lacme.Identifiers.Values.RoundTrip.{IsValid, normalize-wire}

module _ (py : Platform) where
  -- The same identifier: names without regard to case, addresses as they are, never one of each.
  abbrev pub SameIdentifier : IdentifierValue py → IdentifierValue py → Type 0
  SameIdentifier (name s) (name t) = lower s ≡ lower t
  SameIdentifier (address a) (address b) = a ≡ b
  SameIdentifier _ _ = ⊥

  key-valid :
      (v : IdentifierValue py) → IsValid py v → identifier_key_from_value py v ≡ ok (key_of py v)
  unfolding identifier_key_from_value
  key-valid v h = rw h

  address_text-injective : (a b : py.Address) → py.address_text a ≡ py.address_text b → a ≡ b
  address_text-injective a b e =
      some-injective a b (sym (py.ip_address-text a) ∙ ap py.ip_address e ∙ py.ip_address-text b)

  ip-not-dns : str_eq (codes "ip") (codes "dns") ≡ false
  unfolding str_eq
  ip-not-dns = refl

  second-eq : (k s t : Str) → ◌≡◌ {A = IdentifierKey} (k, s) (k, t) → s ≡ t
  second-eq k s t e = ap (λ (p : IdentifierKey). p.1) e

  kinds_differ : (s t : Str) → ◌≡◌ {A = IdentifierKey} (codes "dns", s) (codes "ip", t) → ⊥
  kinds_differ s t e = let kinds = ap (λ (p : IdentifierKey). p.0) e in ground (arith, kinds)

  key_of-eq_iff : (v w : IdentifierValue py) → (key_of py v ≡ key_of py w) ↔ SameIdentifier v w
  key_of-eq_iff (name s) (name t) =
      (second-eq (codes "dns") (lower s) (lower t), λ e. ap (λ (x : Str). (codes "dns", x)) e)
  key_of-eq_iff (name s) (address b) = (kinds_differ _ _, λ e. absurd e)
  key_of-eq_iff (address a) (name t) = (λ e. kinds_differ _ _ (sym e), λ e. absurd e)
  key_of-eq_iff (address a) (address b) = (
    λ e. address_text-injective a b (second-eq (codes "ip") _ _ e),
    λ e. ap (λ x. (codes "ip", py.address_text x)) e,
  )

  -- Two valid values have the same key exactly when they are the same identifier.
  pub identifier_key-eq_iff :
      (v w : IdentifierValue py)
      → IsValid py v
      → IsValid py w
      → (identifier_key_from_value py v ≡ identifier_key_from_value py w) ↔ SameIdentifier v w
  identifier_key-eq_iff v w hv hw = (
    λ e. (key_of-eq_iff v w).0 (ok-injective (sym (key-valid v hv) ∙ e ∙ key-valid w hw)),
    λ same. key-valid v hv ∙ ap ok ((key_of-eq_iff v w).1 same) ∙ sym (key-valid w hw),
  )

  -- The key of a valid value's wire form is the key of the value: client and server agree on which
  -- identifier a certificate is for.
  pub identifier_key_from_protocol-wire :
      (v : IdentifierValue py)
      → IsValid py v
      → identifier_key_from_protocol py (text (wire_of py v).kind) (text (wire_of py v).value)
        ≡ identifier_key_from_value py v
  unfolding identifier_key_from_protocol str_eq
  identifier_key_from_protocol-wire (name s) h =
      rw (normalize-wire py (name s) h) (sym (key-valid (name s) h))
  identifier_key_from_protocol-wire (address a) h =
      rw (normalize-wire py (address a) h) (sym (key-valid (address a) h))

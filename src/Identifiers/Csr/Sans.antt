-- ===== src/Identifiers/Csr/Sans.antt =====
-- Every name that a CSR carries is counted: the keys of its subjectAltNames, and those of its common names.
use lacme.Prelude.{
  true, not, Option, none, some, List, [], ◌∷◌, map, ◌≡◌, refl, ap, sym, ◌∙◌, ◌⊎◌, Str, pair_Eq,
  str_Eq, ok, value_error, >>=-eq-ok, guard-eq-ok, ok-injective, Bool-cases, inl, inr, arith,
}
use lacme.Prelude.Text.{codes}
use lacme.Identifiers.Platform.{Platform}
use lacme.Identifiers.X509.{X509, GeneralName, dns_name, ip_address, ip_network, other_name}
use lacme.Identifiers.Dns.{validate_dns_identifier}
use lacme.Identifiers.Dns.Accepts.{validate_dns_identifier-ok_iff, validate_dns_identifier-ascii}
use lacme.Identifiers.Values.{
  IdentifierKey, IdentifierValue, name, address, traverse, validate_identifier_value,
  identifier_key_from_value,
}
use lacme.Identifiers.Csr.{
  mem, identifier_value_from_general_name, identifier_values_from_sans, identifier_key_set,
  adds_common_name, add_common_names,
}

module _ (py : Platform) (x509 : X509 py) where
  -- The key that a subjectAltName stands for; only names and addresses have one.
  abbrev pub san_key : GeneralName py → Option IdentifierKey
  san_key (dns_name value) = some (codes "dns", py.lower_text value)
  san_key (ip_address a) = some (codes "ip", py.address_text a)
  san_key ip_network = none
  san_key other_name = none

  abbrev pub common_name_key : Str → IdentifierKey
  common_name_key cn = (codes "dns", py.lower_text cn)

  pub name-key :
      (cn checked : Str)
      → validate_dns_identifier py cn true ≡ ok checked
      → identifier_key_from_value py (name checked) ≡ ok (codes "dns", py.lower_text cn)
  unfolding identifier_key_from_value validate_identifier_value
  name-key cn checked h =
      let (same, _) = (validate_dns_identifier-ok_iff py cn true checked).0 h in
      rw (py.lower_text-ascii cn (validate_dns_identifier-ascii py cn true checked h))
        (rw same (rw (rw same at h) refl))

  general_name-key :
      (san : GeneralName py) (v : IdentifierValue py) (key : IdentifierKey)
      → identifier_value_from_general_name py x509 san ≡ ok v
      → identifier_key_from_value py v ≡ ok key
      → san_key san ≡ some key
  unfolding identifier_value_from_general_name validate_identifier_value identifier_key_from_value
  general_name-key (dns_name value) v key h k =
      let (checked, valid, h₁) = >>=-eq-ok (validate_dns_identifier py value true) _ h in
      ap some (ok-injective (sym (name-key value checked valid) ∙ rw (← ok-injective h₁) at k))
  general_name-key (ip_address a) v key h k =
      let (plain, h₁) = guard-eq-ok (not (py.is_scoped a)) value_error _ h in
      let k' : identifier_key_from_value py (address a) ≡ ok key = rw (← ok-injective h₁) at k in
      ap some (ok-injective (rw plain at k'))
  general_name-key ip_network v key h k = cc h
  general_name-key other_name v key h k = cc h

  -- The keys of the values read from the subjectAltNames are theirs, one for each and in their order.
  pub sans-keys :
      (sans : List (GeneralName py)) (values : List (IdentifierValue py))
      (keys : List IdentifierKey)
      → identifier_values_from_sans py x509 sans ≡ ok values
      → identifier_key_set py x509 values ≡ ok keys
      → map san_key sans ≡ map some keys
  unfolding identifier_values_from_sans identifier_key_set traverse
  sans-keys [] values keys h k =
      let k' : identifier_key_set py x509 [] ≡ ok keys = rw (← ok-injective h) at k in
      rw (← ok-injective k') refl
  sans-keys (san ∷ sans) values keys h k =
      let (v, read, h₁) = >>=-eq-ok (identifier_value_from_general_name py x509 san) _ h in
      let (vs, rest, h₂) =
        >>=-eq-ok (traverse (identifier_value_from_general_name py x509) sans) _ h₁ in
      let k' : identifier_key_set py x509 (v ∷ vs) ≡ ok keys = rw (← ok-injective h₂) at k in
      let (key, of_v, k₁) = >>=-eq-ok (identifier_key_from_value py v) _ k' in
      let (ks, of_vs, k₂) = >>=-eq-ok (traverse (identifier_key_from_value py) vs) _ k₁ in
      rw (← ok-injective k₂)
        (cc (general_name-key san v key read of_v, sans-keys sans vs ks rest of_vs))

  -- The loop over the common names keeps what is represented, and adds nothing but their keys.
  pub add_common_names-drawn :
      (expected_keys : List IdentifierKey) (san_text cns : List Str)
      (values : List (IdentifierValue py)) (represented : List IdentifierKey)
      (all_values : List (IdentifierValue py)) (all_keys : List IdentifierKey)
      → add_common_names py x509 expected_keys san_text cns values represented
        ≡ ok (all_values, all_keys)
      → (k : IdentifierKey)
      → (mem k represented ≡ true → mem k all_keys ≡ true)
        × (mem k all_keys ≡ true
            → (mem k represented ≡ true) ⊎ (mem k (map common_name_key cns) ≡ true))
  unfolding add_common_names mem
  add_common_names-drawn expected_keys san_text [] values represented all_values all_keys h k =
      let e = ok-injective h in rw (← ap (λ p. p.1) e) (λ m. m, λ m. inl m)
  add_common_names-drawn expected_keys san_text (cn ∷ cns) values represented all_values all_keys h
        k =
      elim (Bool-cases (adds_common_name py x509 expected_keys san_text represented cn)) [
        | inr plain ↦
            let (more, drawn) =
              add_common_names-drawn expected_keys san_text cns values represented all_values
                all_keys (rw (plain, add_common_names) at h) k in
            (more, λ m. ground (arith, drawn m))
        | inl adds ↦
            let (checked, valid, h₁) =
              >>=-eq-ok (validate_dns_identifier py cn true) _ (rw (adds, add_common_names) at h) in
            let (more, drawn) =
              add_common_names-drawn expected_keys san_text cns _ _ all_values all_keys h₁ k in
            (λ m. more (ground arith), λ m. ground (arith, drawn m))
      ]

-- ===== src/Identifiers/Csr/Binding.antt =====
-- A CSR that passes is bound to the order: it stands for the order's identifiers and no others.
use lacme.Prelude.{
  true, false, not, ◌||◌, Option, none, some, List, [], ◌∷◌, ◌++◌, map, ◌≡◌, refl, ap, sym, ◌∙◌,
  ◌⊎◌, Str, pair_Eq, str_Eq, Result, ok, value_error, guard-eq-ok, >>=-eq-ok, ok-injective,
  Bool-cases, &&-eq-true, inl, inr, arith,
}
use lacme.Prelude.Text.{codes, is_empty}
use lacme.Base64.{b64url_encode}
use lacme.Base64.RoundTrip.{b64url_decode_strict-ok_iff}
use lacme.Json.{Json, text}
use lacme.Jose.{or_value_error, decode_field}
use lacme.Identifiers.Platform.{Platform}
use lacme.Identifiers.X509.{X509}
use lacme.Identifiers.Dns.{validate_dns_identifier}
use lacme.Identifiers.Values.{
  IdentifierKey, WireIdentifier, IdentifierValue, name, traverse, identifier_key_from_value,
  protocol_identifier_values,
}
use lacme.Identifiers.Csr.Sans.{
  san_key, common_name_key, name-key, sans-keys, add_common_names-drawn,
}
use lacme.Identifiers.Csr.{
  or_no_sans, mem, subset, same_set, identifier_key_set, protocol_identifier_key_set,
  csr_san_identifier_values, value_text, adds_common_name, add_common_names,
  validate_csr_identifiers, decode_and_validate_csr, nonempty_text,
}

subset_sound :
    (js ks : List IdentifierKey) (k : IdentifierKey)
    → subset js ks ≡ true
    → mem k js ≡ true
    → mem k ks ≡ true
unfolding subset mem
subset_sound [] ks k h m = cc
subset_sound (j ∷ js) ks k h m =
    let (first, rest) = &&-eq-true (mem j ks) (subset js ks) h in
    elim (Bool-cases (pair_Eq.beq k j)) [
      | inl same ↦ let e : k ≡ j = (pair_Eq.beq_iff k j).0 same in rw e first
      | inr other ↦ subset_sound js ks k rest (ground arith)
    ]

mem-append : (k j : IdentifierKey) (ks : List IdentifierKey) → mem k (ks ++ j ∷ []) ≡ mem k (j ∷ ks)
unfolding mem
mem-append k j [] = refl
mem-append k j (i ∷ ks) = ground (arith, mem-append k j ks)

traverse-append {ℓ κ} :
    {A : Type ℓ} {B : Type κ} (f : A → Result B) (xs : List A) (x : A) (ys : List B) (y : B)
    → traverse f xs ≡ ok ys
    → f x ≡ ok y
    → traverse f (xs ++ x ∷ []) ≡ ok (ys ++ y ∷ [])
unfolding traverse
traverse-append f [] x ys y h e = rw (e, ← ok-injective h) refl
traverse-append f (z ∷ xs) x ys y h e =
    let (v, fz, h₁) = >>=-eq-ok (f z) _ h in
    let (vs, rest, h₂) = >>=-eq-ok (traverse f xs) _ h₁ in
    rw (fz, traverse-append f xs x vs y rest e, ← ok-injective h₂) refl

same_set_sound :
    (js ks : List IdentifierKey) (k : IdentifierKey) → same_set js ks ≡ true → mem k js ≡ mem k ks
same_set_sound js ks k h = ground (arith, subset_sound js ks k, subset_sound ks js k)

pub or_value_error-ok {ℓ} :
    {A : Type ℓ} (o : Option A) (a : A) → or_value_error o ≡ ok a → o ≡ some a
or_value_error-ok none a h = cc
or_value_error-ok (some b) a h = ap some (ok-injective h)

decode_field-carried : (v : Json) (d : Str) → decode_field v ≡ ok d → v ≡ text (b64url_encode d)
unfolding decode_field
decode_field-carried v d h =
    elim v as (λ v. decode_field v ≡ ok d → v ≡ text (b64url_encode d)) [
      | text s ↦ λ h. ap text (sym ((b64url_decode_strict-ok_iff s d).0 h).1)
      | _ ↦ λ h. cc
    ]
      h

module _ (py : Platform) (x509 : X509 py) where
  -- The keys of the values are those of the list, as sets.
  pub record Keyed (values : List (IdentifierValue py)) (represented : List IdentifierKey)
      : Type 0 where
    pub keys : List IdentifierKey
    pub are : identifier_key_set py x509 values ≡ ok keys
    pub same : (k : IdentifierKey) → mem k keys ≡ mem k represented

  Keyed-add :
      (values : List (IdentifierValue py)) (represented : List IdentifierKey) (cn checked : Str)
      → validate_dns_identifier py cn true ≡ ok checked
      → Keyed values represented
      → Keyed (values ++ name checked ∷ []) ((codes "dns", py.lower_text cn) ∷ represented)
  unfolding identifier_key_set mem
  Keyed-add values represented cn checked h r = record {
    keys = r.keys ++ (codes "dns", py.lower_text cn) ∷ [];
    are =
        traverse-append (identifier_key_from_value py) values (name checked) r.keys
          (codes "dns", py.lower_text cn) r.are (name-key py x509 cn checked h);
    same = λ k. mem-append k (codes "dns", py.lower_text cn) r.keys ∙ ap (◌||◌ _) (r.same k);
  }

  add_common_names-Keyed :
      (expected_keys : List IdentifierKey) (san_text cns : List Str)
      (values : List (IdentifierValue py)) (represented : List IdentifierKey)
      (all_values : List (IdentifierValue py)) (all_keys : List IdentifierKey)
      → Keyed values represented
      → add_common_names py x509 expected_keys san_text cns values represented
        ≡ ok (all_values, all_keys)
      → Keyed all_values all_keys
  unfolding add_common_names
  add_common_names-Keyed expected_keys san_text [] values represented all_values all_keys r h =
      let e = ok-injective h in rw (← ap (λ p. p.0) e, ← ap (λ p. p.1) e) r
  add_common_names-Keyed expected_keys san_text (cn ∷ cns) values represented all_values all_keys r
        h =
      elim (Bool-cases (adds_common_name py x509 expected_keys san_text represented cn)) [
        | inr plain ↦
            add_common_names-Keyed expected_keys san_text cns values represented all_values all_keys
              r (rw (plain, add_common_names) at h)
        | inl adds ↦
            let (checked, valid, h₁) =
              >>=-eq-ok (validate_dns_identifier py cn true) _ (rw (adds, add_common_names) at h) in
            add_common_names-Keyed expected_keys san_text cns _ _ all_values all_keys
              (Keyed-add values represented cn checked valid r) h₁
      ]

  -- What it means that `values` stand for the identifiers of the order.
  pub record StandsFor (expected : List WireIdentifier) (values : List (IdentifierValue py))
      : Type 0 where
    pub nonempty : is_empty values ≡ false
    pub expected_keys : List IdentifierKey
    pub expects : protocol_identifier_key_set py x509 expected ≡ ok expected_keys
    pub keyed : Keyed values expected_keys

  -- The names of the CSR are those of the order: each subjectAltName is a name or an address, the key of each
  -- is expected, and each expected key is that of a subjectAltName or of a common name.
  pub record Names (csr : x509.Csr) (expected_keys : List IdentifierKey) : Type 0 where
    pub keys : List IdentifierKey
    pub readable : map (san_key py x509) (or_no_sans py x509 (x509.csr_sans csr)) ≡ map some keys
    pub expected : (k : IdentifierKey) → mem k keys ≡ true → mem k expected_keys ≡ true
    pub drawn :
        (k : IdentifierKey)
        → mem k expected_keys ≡ true
        → (mem k keys ≡ true)
          ⊎ (mem k (map (common_name_key py x509) (x509.csr_common_names csr)) ≡ true)

  pub validate_csr_identifiers-Names :
      (csr : x509.Csr) (expected : List WireIdentifier) (values : List (IdentifierValue py))
      (expected_keys : List IdentifierKey)
      → protocol_identifier_key_set py x509 expected ≡ ok expected_keys
      → validate_csr_identifiers py x509 csr expected ≡ ok values
      → Names csr expected_keys
  unfolding validate_csr_identifiers csr_san_identifier_values
  validate_csr_identifiers-Names csr expected values expected_keys expects h =
      let (expected_keys', expects', h₁) =
        >>=-eq-ok (protocol_identifier_key_set py x509 expected) _ h in
      let same : expected_keys' ≡ expected_keys = ok-injective (sym expects' ∙ expects) in
      let (sans, read, h₂) = >>=-eq-ok (csr_san_identifier_values py x509 csr) _ h₁ in
      let (keys, keyed, h₃) = >>=-eq-ok (identifier_key_set py x509 sans) _ h₂ in
      let ((all_values, all_keys), added, h₄) =
        >>=-eq-ok
          (add_common_names py x509 expected_keys' (map (value_text py x509) sans)
            (x509.csr_common_names csr) sans keys)
          _ h₃ in
      let (full, h₅) = guard-eq-ok (not (is_empty all_values)) value_error _ h₄ in
      let (agree, h₆) = guard-eq-ok (same_set all_keys expected_keys') value_error _ h₅ in
      let loop =
        add_common_names-drawn py x509 expected_keys' _ (x509.csr_common_names csr) sans keys
          all_values all_keys added in
      rw (← same) (record {
        keys = keys;
        readable = sans-keys py x509 (or_no_sans py x509 (x509.csr_sans csr)) sans keys read keyed;
        expected = λ k m. sym (same_set_sound all_keys expected_keys' k agree) ∙ (loop k).0 m;
        drawn = λ k m. (loop k).1 (same_set_sound all_keys expected_keys' k agree ∙ m);
      })

  pub validate_csr_identifiers-StandsFor :
      (csr : x509.Csr) (expected : List WireIdentifier) (values : List (IdentifierValue py))
      → validate_csr_identifiers py x509 csr expected ≡ ok values
      → StandsFor expected values
  unfolding validate_csr_identifiers
  validate_csr_identifiers-StandsFor csr expected values h =
      let (expected_keys, expects, h₁) =
        >>=-eq-ok (protocol_identifier_key_set py x509 expected) _ h in
      let (sans, read, h₂) = >>=-eq-ok (csr_san_identifier_values py x509 csr) _ h₁ in
      let (keys, keyed, h₃) = >>=-eq-ok (identifier_key_set py x509 sans) _ h₂ in
      let ((all_values, all_keys), added, h₄) =
        >>=-eq-ok
          (add_common_names py x509 expected_keys (map (value_text py x509) sans)
            (x509.csr_common_names csr) sans keys)
          _ h₃ in
      let (full, h₅) = guard-eq-ok (not (is_empty all_values)) value_error _ h₄ in
      let (agree, h₆) = guard-eq-ok (same_set all_keys expected_keys) value_error _ h₅ in
      let r =
        add_common_names-Keyed expected_keys _ (x509.csr_common_names csr) sans keys all_values
          all_keys (record { keys = keys; are = keyed; same = λ k. refl }) added in
      rw (← ok-injective h₆) (record {
        nonempty = ground (arith, full);
        expected_keys = expected_keys;
        expects = expects;
        keyed = record {
          keys = r.keys;
          are = r.are;
          same = λ k. r.same k ∙ same_set_sound all_keys expected_keys k agree;
        };
      })

  -- How the request's `csr` is bound to the order's identifiers.
  pub record Binds (csr_b64 : Option Json) (expected : List WireIdentifier) (der : Str)
      : Type 0 where
    pub csr : x509.Csr
    pub carried : csr_b64 ≡ some (text (b64url_encode der))
    pub loaded : x509.load_der_x509_csr der ≡ some csr
    pub signed : x509.is_signature_valid csr ≡ true
    pub values : List (IdentifierValue py)
    pub represents : validate_csr_identifiers py x509 csr expected ≡ ok values
    pub stands : StandsFor expected values
    pub names : Names csr stands.expected_keys

  -- If `decode_and_validate_csr` accepts a payload's `csr`, that is the base64url of the DER that it
  -- returns, the DER is that of a CSR with a valid signature, all subjectAltNames of the CSR are names or
  -- addresses of the order, each identifier of the order is a subjectAltName or a common name of the
  -- CSR, the values that it is checked by have as a set the keys of the order's identifiers, and the values
  -- returned are the order's identifiers.
  pub decode_and_validate_csr-Binds :
      (csr_b64 : Option Json) (expected : List WireIdentifier) (der : Str)
      (values : List (IdentifierValue py))
      → decode_and_validate_csr py x509 csr_b64 expected ≡ ok (der, values)
      → Binds csr_b64 expected der × (protocol_identifier_values py expected ≡ ok values)
  unfolding decode_and_validate_csr
  decode_and_validate_csr-Binds none expected der values h = absurd (cc)
  decode_and_validate_csr-Binds (some csr_b64) expected der values h =
      let (given, h₁) = guard-eq-ok (nonempty_text py x509 csr_b64) value_error _ h in
      let (csr_der, decoded, h₂) = >>=-eq-ok (decode_field csr_b64) _ h₁ in
      let (csr, loaded, h₃) = >>=-eq-ok (or_value_error (x509.load_der_x509_csr csr_der)) _ h₂ in
      let (signed, h₄) = guard-eq-ok (x509.is_signature_valid csr) value_error _ h₃ in
      let (represented, bound, h₅) =
        >>=-eq-ok (validate_csr_identifiers py x509 csr expected) _ h₄ in
      let (result, ordered, h₆) = >>=-eq-ok (protocol_identifier_values py expected) _ h₅ in
      let e = ok-injective h₆ in
      (
        rw (← ap (λ p. p.0) e) (record {
          csr = csr;
          carried = ap some (decode_field-carried csr_b64 csr_der decoded);
          loaded = or_value_error-ok (x509.load_der_x509_csr csr_der) csr loaded;
          signed = signed;
          values = represented;
          represents = bound;
          stands = validate_csr_identifiers-StandsFor csr expected represented bound;
          names =
              validate_csr_identifiers-Names csr expected represented _
                (validate_csr_identifiers-StandsFor csr expected represented bound).expects bound;
        }),
        ordered ∙ ap (λ (p : Str × List (IdentifierValue py)). ok p.1) e,
      )

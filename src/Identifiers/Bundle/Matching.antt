-- ===== src/Identifiers/Bundle/Matching.antt =====
-- What is recovered is what the certificate has, rearranged to the order of the names.
use lacme.Prelude.{
  true, ◌≡◌, ap, ◌∙◌, subst, ◌⊎◌, inl, inr, none, some, List, [], ◌∷◌, Str, ok, value_error,
  guard-eq-ok, >>=-eq-ok, ok-injective, Bool-cases, Option-cases,
}
use mathlib.Core.List.{Perm}
use mathlib.Core.List.Perm
use mathlib.Core.Option.{some-injective}
use lacme.Jose.{or_value_error}
use lacme.Identifiers.Platform.{Platform}
use lacme.Identifiers.X509.{X509}
use lacme.Identifiers.Values.{IdentifierValue}
use lacme.Identifiers.Csr.{certificate_identifier_values}
use lacme.Identifiers.Csr.Binding.{or_value_error-ok}
use lacme.Identifiers.Bundle.{
  CertBundle, has_primary, is_named, keeping, pop_match, order_values, the_one,
  certificate_bundle_identifier_values,
}

module _ (py : Platform) where
  pop_match-Perm :
      (domain : Str) (values : List (IdentifierValue py)) (v : IdentifierValue py)
      (rest : List (IdentifierValue py))
      → pop_match py domain values ≡ some (v, rest)
      → (is_named py v domain ≡ true) × Perm values (v ∷ rest)
  unfolding pop_match
  pop_match-Perm domain [] v rest h = absurd (cc)
  pop_match-Perm domain (u ∷ values) v rest h = elim (Bool-cases (is_named py u domain)) [
    | inl named ↦
        let e = some-injective (u, values) (v, rest) (rw (named, pop_match) at h) in
        let head : u ≡ v = ap (λ p. p.0) e in
        let tail : values ≡ rest = ap (λ p. p.1) e in
        (rw (← head) named, Perm.cons' head (subst (λ ws. Perm values ws) tail (Perm.refl values)))
    | inr other ↦
        deeper (pop_match-Perm domain values) (Option-cases (pop_match py domain values))
          (rw (other, pop_match) at h)
  ]
    where
      deeper :
          ((w : IdentifierValue py) (ws : List (IdentifierValue py))
            → pop_match py domain values ≡ some (w, ws)
            → (is_named py w domain ≡ true) × Perm values (w ∷ ws))
          → (pop_match py domain values ≡ none) ⊎ ((p : _) × (pop_match py domain values ≡ some p))
          → keeping py u (pop_match py domain values) ≡ some (v, rest)
          → (is_named py v domain ≡ true) × Perm (u ∷ values) (v ∷ rest)
      deeper below (inl p) k = absurd (cc (rw p at k))
      deeper below (inr ((w, ws), p)) k =
          let e = some-injective (w, u ∷ ws) (v, rest) (rw p at k) in
          let (named, moved) = below w ws p in
          let head : w ≡ v = ap (λ q. q.0) e in
          let tail : u ∷ ws ≡ rest = ap (λ q. q.1) e in
          (
            rw (← head) named,
            rw (← tail) (rw (← head) (Perm.trans (Perm.cons u moved) (Perm.swap w u ws))),
          )

  -- Value by value, what the names call for.
  abbrev pub Named : List (IdentifierValue py) → List Str → Type 0
  Named [] [] = Unit
  Named (v ∷ vs) (d ∷ ds) = (is_named py v d ≡ true) × Named vs ds
  Named _ _ = ⊥

  order_values-Perm :
      (domains : List Str) (values ordered : List (IdentifierValue py))
      → order_values py domains values ≡ ok ordered
      → Perm values ordered × Named ordered domains
  unfolding order_values
  order_values-Perm [] [] ordered h = rw (← ok-injective h) (Perm.refl [], tt)
  order_values-Perm [] (v ∷ values) ordered h = cc
  order_values-Perm (domain ∷ domains) values ordered h =
      let ((match, rest), found, h₁) =
        >>=-eq-ok (or_value_error (pop_match py domain values)) _ h in
      let (others, more, h₂) = >>=-eq-ok (order_values py domains rest) _ h₁ in
      let (named, moved) =
        pop_match-Perm domain values match rest
          (or_value_error-ok (pop_match py domain values) (match, rest) found) in
      let (rearranged, all_named) = order_values-Perm domains rest others more in
      rw (← ok-injective h₂) (Perm.trans moved (Perm.cons match rearranged), (named, all_named))

  module _ (x509 : X509 py) where
    -- The certificate that a bundle holds, with the identifiers it is for.
    pub record Holds (bundle : CertBundle) (ordered : List (IdentifierValue py)) : Type 0 where
      pub certificate : x509.Certificate
      pub loaded : x509.load_pem_x509_certificates bundle.cert_pem ≡ some (certificate ∷ [])
      pub values : List (IdentifierValue py)
      pub read : certificate_identifier_values py x509 certificate ≡ ok values
      pub rearranged : Perm values ordered
      pub named : Named ordered bundle.domains

    the_one-ok :
        (cs : List x509.Certificate) (c : x509.Certificate)
        → the_one py x509 cs ≡ ok c
        → cs ≡ c ∷ []
    the_one-ok [] c h = cc
    the_one-ok (d ∷ []) c h = ap (λ e. e ∷ []) (ok-injective h)
    the_one-ok (d ∷ e ∷ cs) c h = cc

    -- If the identifiers of a bundle are recovered, the bundle holds exactly one certificate, the values
    -- are a permutation of the identifiers in its SANs, and one by one they are what the bundle's
    -- `domains` name, in that order.
    pub certificate_bundle_identifier_values-Holds :
        (bundle : CertBundle) (ordered : List (IdentifierValue py))
        → certificate_bundle_identifier_values py x509 bundle ≡ ok ordered
        → Holds bundle ordered
    unfolding certificate_bundle_identifier_values
    certificate_bundle_identifier_values-Holds bundle ordered h =
        let (primary, h₁) =
          guard-eq-ok (has_primary bundle.domain bundle.domains) value_error _ h in
        let (cs, loaded, h₂) =
          >>=-eq-ok (or_value_error (x509.load_pem_x509_certificates bundle.cert_pem)) _ h₁ in
        let (c, one, h₃) = >>=-eq-ok (the_one py x509 cs) _ h₂ in
        let (values, read, h₄) = >>=-eq-ok (certificate_identifier_values py x509 c) _ h₃ in
        let (rearranged, named) = order_values-Perm bundle.domains values ordered h₄ in
        record {
          certificate = c;
          loaded =
              or_value_error-ok (x509.load_pem_x509_certificates bundle.cert_pem) cs loaded
              ∙ ap some (the_one-ok cs c one);
          values = values;
          read = read;
          rearranged = rearranged;
          named = named;
        }

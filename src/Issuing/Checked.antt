-- ===== src/Issuing/Checked.antt =====
-- What a bundle that `issue` returns was checked for, and what stops it before the first request.
use lacme.Prelude.{
  ◌≡◌, ◌∙◌, ◌⊎◌, inl, inr, refl, sym, ap, subst, ok-injective, Option-cases, Bool, true, false,
  Option, none, some, List, [], ◌∷◌, map, Str, str_eq, Result,
}
use lacme.Jose.{or_value_error}
use lacme.Identifiers.Platform.{Platform}
use lacme.Identifiers.X509.{X509}
use lacme.Identifiers.Values.{IdentifierValue, IdentifierKey}
use lacme.Identifiers.Csr.{certificate_identifier_values, identifier_key_set, same_set}
use lacme.Issuing.Monad.{
  Answer, done, threw, Raised, from_call, rate_limit_prevented, Progress, Step, check, require,
  ◌>>=◌, ◌>>◌,
}
use lacme.Issuing.Calls.{IssuedBundle, Reply, value, exception, Calls, call, change}
use lacme.Issuing.Triples.{Reply-cases}
use lacme.Issuing.Effective.{Plan, Arguments, plan}
use lacme.Issuing.Issue.{
  check_limits, rate_limit_domains, leaf_of, or_acme_error, build_bundle, save, record_domains,
  conclude, ensure_account, obtain, issue_plan, issue_within_limits, issue_certificate,
}

module _ {W H E : Type 0} where
  -- what holds of the value, if the step ends with one
  abbrev Ends {ℓ κ} : {B : Type ℓ} → (B → Type κ) → Step W H E B → Type (ℓ ⊔ κ)
  Ends {B = B} Q m = (s : Progress W H) (b : B) (s' : Progress W H) → m s ≡ (done b, s') → Q b

  module _ {ℓ κ μ} {A : Type ℓ} {B : Type κ} {Q : B → Type μ} where
    answer-Ends :
        (r : Answer E A) (s : Progress W H) (f : A → Step W H E B)
        → ((a : A) → r ≡ done a → Ends Q (f a))
        → (b : B) (s' : Progress W H)
        → elim r [ done a ↦ f a s | threw e ↦ (threw e, s) ] ≡ (done b, s')
        → Q b
    answer-Ends (done a) s f next b s' ends = next a refl s b s' ends
    answer-Ends (threw e) s f next b s' ends = cc (ap (λ r. r.0) ends)

    >>=-Ends :
        (m : Step W H E A) (f : A → Step W H E B) → ((a : A) → Ends Q (f a)) → Ends Q (m >>= f)
    unfolding ◌>>=◌
    >>=-Ends m f next s = answer-Ends (m s).0 (m s).1 f (λ a given. next a)

    >>=-Knows {ν} :
        {R : A → Type ν} (m : Step W H E A) (f : A → Step W H E B)
        → Ends R m
        → ((a : A) → R a → Ends Q (f a))
        → Ends Q (m >>= f)
    unfolding ◌>>=◌
    >>=-Knows m f first next s =
        answer-Ends (m s).0 (m s).1 f
          λ a given. next a (first s a (m s).1 (ap (λ r. (r, (m s).1)) given))

    check-Ends :
        (r : Result A) (f : A → Step W H E B)
        → ((a : A) → r ≡ Result.ok a → Ends Q (f a))
        → Ends Q (check r >>= f)
    unfolding ◌>>=◌
    check-Ends (Result.ok a) f next s b s' ends = next a refl s b s' ends
    check-Ends (Result.raise e) f next s b s' ends = cc (ap (λ r. r.0) ends)

  require-Ends {κ μ} :
      {B : Type κ} {Q : B → Type μ} (b : Bool) (e : Raised E) (k : Step W H E B)
      → (b ≡ true → Ends Q k)
      → Ends Q (require b e >> k)
  unfolding ◌>>=◌
  require-Ends true e k next s b s' ends = next refl s b s' ends
  require-Ends false e k next s b s' ends = cc (ap (λ r. r.0) ends)

module _ {ℓ κ} {W H E : Type 0} {A : Type ℓ} {B : Type κ} where
  >>=-threw :
      (m : Step W H E A) (f : A → Step W H E B) {s s' : Progress W H} {e : Raised E}
      → m s ≡ (threw e, s')
      → (m >>= f) s ≡ (threw e, s')
  unfolding ◌>>=◌
  >>=-threw m f h = ap (λ r. elim r.0 [ done a ↦ f a r.1 | threw e ↦ (threw e, r.1) ]) h

  >>=-done :
      (m : Step W H E A) (f : A → Step W H E B) {s s' : Progress W H} {a : A}
      → m s ≡ (done a, s')
      → (m >>= f) s ≡ f a s'
  unfolding ◌>>=◌
  >>=-done m f h = ap (λ r. elim r.0 [ done a ↦ f a r.1 | threw e ↦ (threw e, r.1) ]) h

call-value {ℓ} :
    {W H E : Type 0} {A : Type ℓ} (f : W → Reply E A × W) (s : Progress W H) {a : A} {w : W}
    → f s.world ≡ (value a, w)
    → ◌≡◌ {A = Answer E A × Progress W H} (call f s) (done a, record s { world = w })
call-value f s h =
    ap
      (λ r. elim r.0 [
        | value a ↦ (done a, record s { world = r.1 })
        | exception e ↦ (threw (from_call e), record s { world = r.1 })
      ])
      h

done-injective {ℓ} :
    {E : Type 0} {A : Type ℓ} {a b : A} → ◌≡◌ {A = Answer E A} (done a) (done b) → a ≡ b
done-injective h = cc

call-done {ℓ} :
    {W H E : Type 0} {A : Type ℓ} (f : W → Reply E A × W) (s : Progress W H) (a : A)
    (s' : Progress W H)
    → ◌≡◌ {A = Answer E A × Progress W H} (call f s) (done a, s')
    → f s.world ≡ (value a, (f s.world).1)
call-done {W} {H} {E} {A} f s a s' ends = elim (Reply-cases (f s.world).0) [
  | inl (b, replied) ↦
      ap (λ r. (r, (f s.world).1))
        (replied
          ∙ ap value (
              done-injective
                (ap (λ (r : Answer E A × Progress W H). r.0) (rw (replied, call) at ends))))
  | inr (e, raised) ↦ cc (ap (λ (r : Answer E A × Progress W H). r.0) (rw (raised, call) at ends))
]

or_value_error-some {ℓ} :
    {A : Type ℓ} (o : Option A) (a : A) → or_value_error o ≡ Result.ok a → o ≡ some a
or_value_error-some none a h = cc h
or_value_error-some (some x) a h = ap some (ok-injective h)

module _ (py : Platform) (x509 : X509 py) {W H E Key : Type 0}
    (calls : Calls py x509 W H E Key) where
  leaf_of-cons :
      (chain : List x509.Certificate) (leaf : x509.Certificate)
      → leaf_of py x509 calls chain ≡ Result.ok leaf
      → (rest : List x509.Certificate) × (chain ≡ leaf ∷ rest)
  leaf_of-cons [] leaf h = cc h
  leaf_of-cons (c ∷ rest) leaf h = (rest, ap (λ c. c ∷ rest) (ok-injective h))

  acme_error-Ends {κ μ} :
      {A B : Type κ} {Q : B → Type μ} (r : Result A) (f : A → Step W H E B)
      → ((a : A) → r ≡ Result.ok a → Ends Q (f a))
      → Ends Q (or_acme_error py x509 calls r >>= f)
  unfolding ◌>>=◌
  acme_error-Ends (Result.ok a) f next s b s' ends = next a refl s b s' ends
  acme_error-Ends (Result.raise e) f next s b s' ends = cc (ap (λ r. r.0) ends)

  -- The certificate of a bundle is the first of the chain, it is for the key of the bundle, and its
  -- identifiers are those of the plan.
  abbrev pub IsChecked : Plan py H → IssuedBundle → Type 0
  IsChecked p b =
      (key : Key) × (leaf : x509.Certificate) × (rest : List x509.Certificate) × (found : List
        (IdentifierValue py))
      × (found_keys : List IdentifierKey) × (wanted_keys : List IdentifierKey)
      × (x509.load_pem_x509_certificates b.fullchain_pem ≡ some (leaf ∷ rest))
      × (b.cert_pem ≡ calls.certificate_pem leaf)
      × (b.key_pem ≡ calls.private_key_pem key)
      × (str_eq (calls.certificate_public_key leaf) (calls.local_public_key key) ≡ true)
      × (certificate_identifier_values py x509 leaf ≡ Result.ok found)
      × (identifier_key_set py x509 found ≡ Result.ok found_keys)
      × (identifier_key_set py x509 p.values ≡ Result.ok wanted_keys)
      × (same_set found_keys wanted_keys ≡ true)
      × (b.domains ≡ map (λ i. i.value) p.identifiers)

  build_bundle-IsChecked :
      (p : Plan py H) (key : Key) (fullchain : Str)
      → Ends (IsChecked p) (build_bundle py x509 calls p key fullchain)
  unfolding build_bundle
  build_bundle-IsChecked p key fullchain = require-Ends _ _ _ λ ascii.
      check-Ends _ _ λ chain loaded. check-Ends _ _ λ leaf first.
        acme_error-Ends _ _ λ found identified. check-Ends _ _ λ found_keys of_found.
          check-Ends _ _ λ wanted_keys of_wanted. require-Ends _ _ _ λ same.
            require-Ends _ _ _ λ same_key s b s' ends.
              let (rest, leads) = leaf_of-cons chain leaf first in
              subst (IsChecked p) (done-injective (ap (λ r. r.0) ends)) (
                key,
                leaf,
                rest,
                found,
                found_keys,
                wanted_keys,
                or_value_error-some _ _ loaded ∙ ap some leads,
                refl,
                refl,
                same_key,
                identified,
                of_found,
                of_wanted,
                same,
                refl,
              )

  -- What becomes of the bundle that was built: it is returned, or what the store returns for it is.
  abbrev pub IsSaved : IssuedBundle → IssuedBundle → Type 0
  IsSaved built b =
      ((calls.save_cert ≡ none) × (b ≡ built))
      ⊎ ((f : IssuedBundle → W → Reply E IssuedBundle × W) × (w : W) × (w' : W) × (calls.save_cert
            ≡ some f)
          × (f built w ≡ (value b, w')))

  -- A bundle was checked, and what comes of it is the result.
  abbrev pub IsIssued : Plan py H → IssuedBundle → Type 0
  IsIssued p b = (built : IssuedBundle) × IsChecked p built × IsSaved built b

  save-IsSaved : (bundle : IssuedBundle) → Ends (IsSaved bundle) (save py x509 calls bundle)
  save-IsSaved bundle s b s' ends = elim (Option-cases calls.save_cert) [
    | inl no_store ↦ inl (
      no_store,
      sym (
          done-injective
            (ap (λ (r : Answer E IssuedBundle × Progress W H). r.0) (rw (no_store, save) at ends))),
    )
    | inr (f, store) ↦ inr (
      f,
      s.world,
      (f bundle s.world).1,
      store,
      call-done (f bundle) s b s' (rw (store, save) at ends),
    )
  ]

  conclude-IsIssued :
      (p : Plan py H) (got : Key × Str) → Ends (IsIssued p) (conclude py x509 calls p got)
  unfolding conclude
  conclude-IsIssued p got = >>=-Knows _ _ (build_bundle-IsChecked p got.0 got.1) λ built checked.
      >>=-Knows _ _ (save-IsSaved built) λ saved kept.
        >>=-Ends (record_domains py x509 calls (rate_limit_domains py x509 calls p.identifiers)) _
          λ _. >>=-Ends (change (calls.emit_issued saved)) _ λ _ s b s' ends.
            subst (IsIssued p) (done-injective (ap (λ r. r.0) ends)) (built, checked, kept)

  issue_plan-IsIssued : (p : Plan py H) → Ends (IsIssued p) (issue_plan py x509 calls p)
  unfolding issue_plan issue_within_limits
  issue_plan-IsIssued p =
      >>=-Ends (check_limits py x509 calls (rate_limit_domains py x509 calls p.identifiers)) _ λ _.
        >>=-Ends (call calls.ensure_account_key) _ λ _.
          >>=-Ends (ensure_account py x509 calls) _
            λ _. >>=-Ends (obtain py x509 calls p) (conclude py x509 calls p) (conclude-IsIssued p)

  -- If `issue_certificate` ends with a bundle, then the arguments have a plan, and a bundle was built whose
  -- certificate is the first of its chain, with the public key of its private key, with identifiers that
  -- have the same keys as the plan's values, and whose domains are the plan's identifiers. The result is
  -- that bundle if there is no store, and otherwise what the store's `save_cert` returned for it.
  pub issue_certificate-IsChecked :
      (args : Arguments py H) (s s' : Progress W H) (b : IssuedBundle)
      → issue_certificate py x509 calls args s ≡ (done b, s')
      → (p : Plan py H) × (plan py args ≡ Result.ok p) × IsIssued p b
  unfolding issue_certificate
  issue_certificate-IsChecked args s s' b =
      check-Ends {Q = λ b. (p : Plan py H) × (plan py args ≡ Result.ok p) × IsIssued p b}
        (plan py args) (issue_plan py x509 calls)
        (λ p planned s b s' ends. (p, planned, issue_plan-IsIssued p s b s' ends)) s b s'

  check_limits-refuses :
      (domains : List Str) (s : Progress W H) (allows : List Str → W → Reply E Bool × W) (w : W)
      → calls.rate_limit_allows ≡ some allows
      → allows domains s.world ≡ (value false, w)
      → check_limits py x509 calls domains s ≡ (threw rate_limit_prevented, record s { world = w })
  check_limits-refuses domains s allows w tracked refused =
      rw (tracked, check_limits)
        (>>=-done (call (allows domains)) (λ allowed. require allowed rate_limit_prevented)
          {s' = record s { world = w }} {a = false} (call-value (allows domains) s refused))

  -- If the arguments have a plan and the tracker of rate limits says that the plan's DNS names are not
  -- allowed, then `issue_certificate` raises RateLimitPreventedError, and nothing but the tracker ran: the
  -- world is as the tracker left it and nothing was provisioned.
  pub issue_certificate-rate_limited :
      (args : Arguments py H) (s : Progress W H) (p : Plan py H)
      (allows : List Str → W → Reply E Bool × W) (w : W)
      → plan py args ≡ Result.ok p
      → calls.rate_limit_allows ≡ some allows
      → allows (rate_limit_domains py x509 calls p.identifiers) s.world ≡ (value false, w)
      → issue_certificate py x509 calls args s
        ≡ (threw rate_limit_prevented, record s { world = w })
  unfolding issue_certificate issue_plan ◌>>=◌
  issue_certificate-rate_limited args s p allows w planned tracked refused =
      rw (planned, check)
        (>>=-threw (check_limits py x509 calls (rate_limit_domains py x509 calls p.identifiers))
          (λ _. issue_within_limits py x509 calls p)
          (check_limits-refuses _ s allows w tracked refused))

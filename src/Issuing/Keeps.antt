-- ===== src/Issuing/Keeps.antt =====
-- The steps of `issue` call `provision` in one place only, and change `provisioned` in one place only.
use lacme.Prelude.{
  ◌≡◌, refl, sym, ◌∙◌, Bool, true, false, some, List, [], ◌∷◌, ◌++◌, Str, Result, Option-cases,
  Bool-cases, inl, inr, str_Eq, pair_Eq, if◌then◌else◌,
}
use lacme.Prelude.Dict
use mathlib.Core.List.{append_assoc, append-nil}
use lacme.Prelude.Dict.{Dict}
use lacme.Identifiers.Platform.{Platform}
use lacme.Identifiers.X509.{X509}
use lacme.Identifiers.Values.{IdentifierKey}
use lacme.Issuing.Monad.{Provisioned, Progress, Step}
use lacme.Issuing.Calls.{Authorization, Order, Calls, IssuedBundle}
use lacme.Issuing.Effective.{Effective, Plan, route_of}
use lacme.Issuing.Issue.{
  check_limits, ensure_account, get_authorizations, authorize_key, ask, solve_one, or_acme_error,
  solve_each, poll_one, poll_each, is_ready, is_valid, certificate_url, collect, solve,
  deprovision_each, build_bundle, save, record_domains, rate_limit_domains, conclude,
}
use lacme.Issuing.Routes.{route_of-IsListed}
use lacme.Issuing.Triples.{
  Reply-cases, OfLists, Triple, >>=-Triple, call-Triple, check-Triple, check-then, require-Triple,
}

module _ (py : Platform) (x509 : X509 py) {W H E Key : Type 0}
    (calls : Calls py x509 W H E Key) where
  module _ {κ}
      (P : List (Provisioned H) → List (Provisioned H) → List (Provisioned H) → Type κ) where
    pub get_authorizations-Keeps :
        (urls : List Str) → Triple (OfLists P) (OfLists P) (get_authorizations py x509 calls urls)
    unfolding get_authorizations
    get_authorizations-Keeps [] = λ s p. p
    get_authorizations-Keeps (url ∷ urls) =
        >>=-Triple _ _ (λ s p. p) (call-Triple P _)
          λ authz. >>=-Triple _ _ (λ s p. p) (get_authorizations-Keeps urls) λ rest s p. p

    pub check_limits-Keeps :
        (domains : List Str) → Triple (OfLists P) (OfLists P) (check_limits py x509 calls domains)
    check_limits-Keeps domains s p = elim (Option-cases calls.rate_limit_allows) [
      | inl none_set ↦ rw (none_set, check_limits) p
      | inr (allows, set) ↦
          rw (set, check_limits)
            (>>=-Triple _ _ (λ s p. p) (call-Triple P _) (λ allowed. require-Triple P allowed _) s
              p)
    ]

    pub ensure_account-Keeps : Triple (OfLists P) (OfLists P) (ensure_account py x509 calls)
    ensure_account-Keeps s p = elim (Bool-cases (calls.has_account_url s.world)) [
      | inl there ↦ rw (there, ensure_account) p
      | inr missing ↦ rw (missing, ensure_account) (call-Triple P calls.create_account s p)
    ]

    authorize_key-Keeps :
        (token : Str) → Triple (OfLists P) (OfLists P) (authorize_key py x509 calls token)
    authorize_key-Keeps token s p = elim (Option-cases (calls.key_authorization token s.world)) [
      | inl missing ↦ rw (missing, authorize_key) p
      | inr (ka, there) ↦ rw (there, authorize_key) p
    ]

    poll_one-Keeps :
        (routes : Dict Str (Effective H)) (authz : Authorization)
        → Triple (OfLists P) (OfLists P) (poll_one py x509 calls routes authz)
    poll_one-Keeps routes authz s p =
        elim (Reply-cases (calls.poll_authorization authz.url s.world).0) [
          | inl (a, ends) ↦ rw (ends, poll_one) p
          | inr (e, ends) ↦ rw (ends, poll_one) p
        ]

    poll_each-Keeps :
        (routes : Dict Str (Effective H)) (authzs : List Authorization)
        → Triple (OfLists P) (OfLists P) (poll_each py x509 calls routes authzs)
    unfolding poll_each
    poll_each-Keeps routes [] = λ s p. p
    poll_each-Keeps routes (authz ∷ authzs) =
        >>=-Triple _ _ (λ s p. p) (poll_one-Keeps routes authz) λ _. poll_each-Keeps routes authzs

    finalized-Keeps :
        (b : Bool) (m n : Step W H E Order)
        → Triple (OfLists P) (OfLists P) m
        → Triple (OfLists P) (OfLists P) n
        → Triple (OfLists P) (OfLists P) (if b then m else n)
    finalized-Keeps true m n h k = h
    finalized-Keeps false m n h k = k

    certificate_url-Keeps :
        (order : Order) → Triple (OfLists P) (OfLists P) (certificate_url py x509 calls order)
    certificate_url-Keeps order s p = elim (Option-cases order.certificate) [
      | inl missing ↦ rw missing p
      | inr (url, there) ↦ rw there p
    ]

    -- What is appended to `provisioned` and to `asked` keeps the condition.
    abbrev pub Grows : Dict IdentifierKey (Effective H) → Type κ
    Grows effective =
        (ps ds qs : List (Provisioned H)) (key : IdentifierKey) (route : Effective H) (token : Str)
        → Dict.get effective key ≡ some route
        → P ps ds qs
        → P (ps ++ record { domain = route.value; token = token; handler = route.handler } ∷ []) ds
            qs
          × P ps ds
              (qs ++ record { domain = route.value; token = token; handler = route.handler } ∷ [])

    ask-Keeps :
        (route : Effective H) (token ka : Str)
        → ((ps ds qs : List (Provisioned H))
            → P ps ds qs
            → P ps ds (
                qs ++ record { domain = route.value; token = token; handler = route.handler } ∷ []))
        → Triple (OfLists P) (OfLists P) (ask py x509 calls route.handler route.value token ka)
    unfolding ask
    ask-Keeps route token ka grows s p =
        call-Triple P (calls.provision route.handler route.value token ka)
          (record s {
            asked =
                s.asked
                ++ record { domain = route.value; token = token; handler = route.handler } ∷ [];
          })
          (grows s.provisioned s.deprovisioned s.asked p)

    module _ (effective : Dict IdentifierKey (Effective H)) (grows : Grows effective) where
      solve_one-Keeps :
          (authz : Authorization)
          → Triple (OfLists P) (OfLists P) (solve_one py x509 calls effective authz)
      unfolding solve_one
      solve_one-Keeps authz =
          check-then E (route_of py effective authz) _ (λ s p. p)
            λ found routed.
              let (key, looked_up) = route_of-IsListed py effective authz found routed in
              >>=-Triple _ _ (λ s p. p) (authorize_key-Keeps _)
                λ ka.
                  >>=-Triple _ _ (λ s p. p)
                    (ask-Keeps found.0 found.1.token ka
                      λ ps ds qs p. (grows ps ds qs key found.0 found.1.token looked_up p).1)
                    λ _.
                      >>=-Triple _ _ (λ s p. p)
                        (λ s p.
                          (grows s.provisioned s.deprovisioned s.asked key found.0 found.1.token
                            looked_up p).0)
                        λ _. >>=-Triple _ _ (λ s p. p) (call-Triple P _) λ _ s p. p

      solve_each-Keeps :
          (authzs : List Authorization) (routes : Dict Str (Effective H))
          → Triple (OfLists P) (OfLists P) (solve_each py x509 calls effective authzs routes)
      unfolding solve_each
      solve_each-Keeps [] routes = λ s p. p
      solve_each-Keeps (authz ∷ authzs) routes =
          >>=-Triple _ _ (λ s p. p) (solve_one-Keeps authz) λ route. solve_each-Keeps authzs _

    collect-Keeps :
        (p : Plan py H) (ready : Order) (key : Key)
        → Triple (OfLists P) (OfLists P) (collect py x509 calls p ready key)
    unfolding collect
    collect-Keeps p ready key =
        >>=-Triple _ _ (λ s p. p) (call-Triple P _)
          λ csr_der.
            >>=-Triple _ _ (λ s p. p)
              (finalized-Keeps (is_ready py x509 calls ready) _ _ (call-Triple P _) (λ s p. p))
              λ finalized.
                >>=-Triple _ _ (λ s p. p)
                  (finalized-Keeps (is_valid py x509 calls finalized) _ _ (λ s p. p)
                    (call-Triple P _))
                  λ valid.
                    >>=-Triple _ _ (λ s p. p) (certificate_url-Keeps valid)
                      λ url. >>=-Triple _ _ (λ s p. p) (call-Triple P _) λ fullchain s p. p

    pub solve-Keeps :
        (p : Plan py H) (order : Order) (authzs : List Authorization)
        → Grows p.effective
        → Triple (OfLists P) (OfLists P) (solve py x509 calls p order authzs)
    unfolding solve
    solve-Keeps p order authzs grows =
        >>=-Triple _ _ (λ s p. p) (solve_each-Keeps p.effective grows authzs [])
          λ routes.
            >>=-Triple _ _ (λ s p. p) (poll_each-Keeps routes authzs)
              λ _.
                >>=-Triple _ _ (λ s p. p) (call-Triple P _)
                  λ ready. >>=-Triple _ _ (λ s p. p) (λ s p. p) (collect-Keeps p ready)

    acme_error-Keeps :
        {A : Type 0} (r : Result A) → Triple (OfLists P) (OfLists P) (or_acme_error py x509 calls r)
    acme_error-Keeps (Result.ok a) s p = p
    acme_error-Keeps (Result.raise e) s p = p

    pub build_bundle-Keeps :
        (p : Plan py H) (key : Key) (fullchain : Str)
        → Triple (OfLists P) (OfLists P) (build_bundle py x509 calls p key fullchain)
    unfolding build_bundle
    build_bundle-Keeps p key fullchain =
        >>=-Triple _ _ (λ s p. p) (require-Triple P _ _)
          λ _.
            >>=-Triple _ _ (λ s p. p) (check-Triple E P _)
              λ chain.
                >>=-Triple _ _ (λ s p. p) (check-Triple E P _)
                  λ certificate.
                    >>=-Triple _ _ (λ s p. p) (acme_error-Keeps _)
                      λ found.
                        >>=-Triple _ _ (λ s p. p) (check-Triple E P _)
                          λ found_keys.
                            >>=-Triple _ _ (λ s p. p) (check-Triple E P _)
                              λ wanted_keys.
                                >>=-Triple _ _ (λ s p. p) (require-Triple P _ _)
                                  λ _. >>=-Triple _ _ (λ s p. p) (require-Triple P _ _) λ _ s p. p

    pub save-Keeps :
        (bundle : IssuedBundle) → Triple (OfLists P) (OfLists P) (save py x509 calls bundle)
    save-Keeps bundle s p = elim (Option-cases calls.save_cert) [
      | inl no_store ↦ rw (no_store, save) p
      | inr (f, store) ↦ rw (store, save) (call-Triple P (f bundle) s p)
    ]

    pub record_domains-Keeps :
        (domains : List Str) → Triple (OfLists P) (OfLists P) (record_domains py x509 calls domains)
    record_domains-Keeps domains s p = elim (Option-cases calls.record_issuance) [
      | inl no_tracker ↦ rw (no_tracker, record_domains) p
      | inr (f, tracker) ↦ rw (tracker, record_domains) (call-Triple P (f domains) s p)
    ]

    pub conclude-Keeps :
        (p : Plan py H) (got : Key × Str)
        → Triple (OfLists P) (OfLists P) (conclude py x509 calls p got)
    unfolding conclude
    conclude-Keeps p got =
        >>=-Triple _ _ (λ s p. p) (build_bundle-Keeps p got.0 got.1)
          λ bundle.
            >>=-Triple _ _ (λ s p. p) (save-Keeps bundle)
              λ saved.
                >>=-Triple _ _ (λ s p. p)
                  (record_domains-Keeps (rate_limit_domains py x509 calls p.identifiers))
                  λ _. >>=-Triple _ _ (λ s p. p) (λ s p. p) λ _ s p. p

  -- The loop of the `finally` block reaches every entry.
  pub deprovision_each-lists :
      (ps : List (Provisioned H)) (s : Progress W H)
      → ((deprovision_each py x509 calls ps s).provisioned ≡ s.provisioned)
        × ((deprovision_each py x509 calls ps s).asked ≡ s.asked)
        × ((deprovision_each py x509 calls ps s).deprovisioned ≡ s.deprovisioned ++ ps)
  unfolding deprovision_each
  deprovision_each-lists [] s = (refl, refl, sym (append-nil s.deprovisioned))
  deprovision_each-lists (p ∷ ps) s =
      let (same, same_asked, more) = deprovision_each-lists ps (record s {
        world = (calls.deprovision p.handler p.domain p.token s.world).1;
        deprovisioned = s.deprovisioned ++ p ∷ [];
      }) in
      (same, same_asked, more ∙ append_assoc s.deprovisioned (p ∷ []) ps)

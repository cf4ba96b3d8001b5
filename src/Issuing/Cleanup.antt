-- ===== src/Issuing/Cleanup.antt =====
-- What `issue` provisions, it takes down again, and it provisions only as planned.
use lacme.Prelude.{
  ◌≡◌, refl, sym, ap, ◌∙◌, subst, List, [], ◌∷◌, ◌++◌, All, All-append, str_Eq, pair_Eq, some,
}
use lacme.Prelude.Dict
use mathlib.Core.List.{append_assoc, append-nil}
use lacme.Prelude.Dict.{Dict}
use lacme.Identifiers.Platform.{Platform}
use lacme.Identifiers.X509.{X509}
use lacme.Identifiers.Values.{IdentifierKey}
use lacme.Issuing.Monad.{Provisioned, Progress, finally}
use lacme.Issuing.Calls.{Calls}
use lacme.Issuing.Effective.{Effective, Plan}
use lacme.Issuing.Issue.{
  deprovision_all, obtain, rate_limit_domains, conclude, issue_plan, issue_within_limits,
}
use lacme.Issuing.Triples.{OfLists, Triple, >>=-Triple, >>=-after, call-Triple}
use lacme.Issuing.Keeps.{
  get_authorizations-Keeps, check_limits-Keeps, ensure_account-Keeps, Grows, solve-Keeps,
  conclude-Keeps, deprovision_each-lists,
}

-- An entry of `provisioned` or `asked` whose name and handler are an entry of `effective`.
abbrev pub IsPlanned : {H : Type 0} → Dict IdentifierKey (Effective H) → Provisioned H → Type 0
IsPlanned {H} effective q =
    (key : IdentifierKey) × (route : Effective H) × (Dict.get effective key ≡ some route)
    × (q.domain ≡ route.value)
    × (q.handler ≡ route.handler)

module _ {H : Type 0} (before : List (Provisioned H)) where
  -- before `issue`, when the calls of `provision` are those of earlier times
  abbrev AtStart : List (Provisioned H) → List (Provisioned H) → List (Provisioned H) → Type 0
  AtStart ps ds qs = (ps ≡ []) × (ds ≡ []) × (qs ≡ before)

  module _ (effective : Dict IdentifierKey (Effective H)) where
    -- what `provision` was called with since
    abbrev pub AreAsked : List (Provisioned H) → Type 0
    AreAsked qs =
        (new : List (Provisioned H)) × (qs ≡ before ++ new) × All (IsPlanned effective) new

    -- while the challenges are up
    abbrev IsUp : List (Provisioned H) → List (Provisioned H) → List (Provisioned H) → Type 0
    IsUp ps ds qs = (ds ≡ []) × All (IsPlanned effective) ps × AreAsked qs

    -- when `issue` has ended
    abbrev pub IsDown : List (Provisioned H) → List (Provisioned H) → List (Provisioned H) → Type 0
    IsDown ps ds qs = (ds ≡ ps) × All (IsPlanned effective) ps × AreAsked qs

    nothing-AreAsked : (qs : List (Provisioned H)) → qs ≡ before → AreAsked qs
    nothing-AreAsked qs same = ([], same ∙ sym (append-nil before), tt)

    nothing-IsUp : (ps ds qs : List (Provisioned H)) → AtStart ps ds qs → IsUp ps ds qs
    nothing-IsUp ps ds qs (none_up, none_down, same) =
        (none_down, rw none_up tt, nothing-AreAsked qs same)

    nothing-IsDown : (ps ds qs : List (Provisioned H)) → AtStart ps ds qs → IsDown ps ds qs
    nothing-IsDown ps ds qs (none_up, none_down, same) =
        (none_down ∙ sym none_up, rw none_up tt, nothing-AreAsked qs same)

    append-AreAsked :
        (qs : List (Provisioned H)) (q : Provisioned H)
        → IsPlanned effective q
        → AreAsked qs
        → AreAsked (qs ++ q ∷ [])
    append-AreAsked qs q is_planned (new, since, planned) = (
      new ++ q ∷ [],
      ap (λ l. l ++ q ∷ []) since ∙ append_assoc before new (q ∷ []),
      All-append (IsPlanned effective) new _ planned (is_planned, tt),
    )

module _ {H : Type 0} where
  abbrev AreSame : List (Provisioned H) → List (Provisioned H) → List (Provisioned H) → Type 0
  AreSame ps ds qs = (ds ≡ ps)

module _ (py : Platform) (x509 : X509 py) {W H E Key : Type 0} (calls : Calls py x509 W H E Key)
    (before : List (Provisioned H)) where
  IsUp-Grows :
      (effective : Dict IdentifierKey (Effective H))
      → Grows py x509 calls (IsUp before effective) effective
  IsUp-Grows effective ps ds qs key route token looked_up (none_down, planned, asked) = (
    (
      none_down,
      All-append (IsPlanned effective) ps _ planned ((key, route, looked_up, refl, refl), tt),
      asked,
    ),
    (
      none_down,
      planned,
      append-AreAsked before effective qs _ (key, route, looked_up, refl, refl) asked,
    ),
  )

  deprovision_all-IsDown :
      (effective : Dict IdentifierKey (Effective H)) (s : Progress W H)
      → OfLists (IsUp before effective) s
      → OfLists (IsDown before effective) (deprovision_all py x509 calls s)
  deprovision_all-IsDown effective s (none_down, planned, asked) =
      let (same, same_asked, appended) = deprovision_each-lists py x509 calls s.provisioned s in
      (
        appended ∙ ap (λ l. l ++ s.provisioned) none_down ∙ sym same,
        subst (All (IsPlanned effective)) (sym same) planned,
        subst (AreAsked before effective) (sym same_asked) asked,
      )

  obtain-IsDown :
      (p : Plan py H)
      → Triple
          (OfLists (AtStart before))
          (OfLists (IsDown before p.effective))
          (obtain py x509 calls p)
  unfolding finally
  obtain-IsDown p = >>=-Triple _ _ weaken (call-Triple (AtStart before) _) λ order.
      >>=-Triple _ _ weaken
        (get_authorizations-Keeps py x509 calls (AtStart before) order.authorizations)
        λ authzs s start. deprovision_all-IsDown p.effective _ (
          solve-Keeps py x509 calls (IsUp before p.effective) p order authzs
            (IsUp-Grows p.effective) s (nothing-IsUp before p.effective _ _ _ start))
    where
      weaken :
          (s : Progress W H) → OfLists (AtStart before) s → OfLists (IsDown before p.effective) s
      weaken s = nothing-IsDown before p.effective s.provisioned s.deprovisioned s.asked

  issue_plan-IsDown :
      (p : Plan py H)
      → Triple
          (OfLists (AtStart before))
          (OfLists (IsDown before p.effective))
          (issue_plan py x509 calls p)
  unfolding issue_plan issue_within_limits
  issue_plan-IsDown p =
      >>=-Triple _ _ weaken
        (check_limits-Keeps py x509 calls (AtStart before)
          (rate_limit_domains py x509 calls p.identifiers))
        λ _. >>=-Triple _ _ weaken (call-Triple (AtStart before) calls.ensure_account_key) λ _.
          >>=-Triple _ _ weaken (ensure_account-Keeps py x509 calls (AtStart before)) λ _.
            >>=-after {Q = OfLists (IsDown before p.effective)} (obtain py x509 calls p)
              (conclude py x509 calls p) (obtain-IsDown p)
              (conclude-Keeps py x509 calls (IsDown before p.effective) p)
    where
      weaken :
          (s : Progress W H) → OfLists (AtStart before) s → OfLists (IsDown before p.effective) s
      weaken s = nothing-IsDown before p.effective s.provisioned s.deprovisioned s.asked

module _ (py : Platform) (x509 : X509 py) {W H E Key : Type 0}
    (calls : Calls py x509 W H E Key) where
  -- However `issue_plan` ends, if the lists were empty before it then each call of a handler's `provision`
  -- that it made, the one that raised included, was for a name of the plan and on the handler that the
  -- plan has for that name; and so is each challenge that it counts as provisioned.
  pub issue_plan-ArePlanned :
      (p : Plan py H) (s : Progress W H)
      → s.provisioned ≡ []
      → s.deprovisioned ≡ []
      → s.asked ≡ []
      → All (IsPlanned p.effective) (issue_plan py x509 calls p s).1.asked
        × All (IsPlanned p.effective) (issue_plan py x509 calls p s).1.provisioned
  issue_plan-ArePlanned p s none_up none_down none_asked =
      let (ended, planned, (new, since, asked)) =
        issue_plan-IsDown py x509 calls [] p s (none_up, none_down, none_asked) in
      (subst (All (IsPlanned p.effective)) (sym since) asked, planned)

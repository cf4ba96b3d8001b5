-- ===== src/Responder/Steps/Provenance/Grants.antt =====
-- What makes an authorization cover an identifier, and what approves it.
use lacme.Prelude.{
  ℕ, suc, ◌≡◌, refl, subst, inl, inr, true, false, List, [], ◌∷◌, ◌++◌, Str, str_Eq, drop, arith,
  Bool-cases, Option-cases, &&-eq-true,
}
use lacme.Prelude.Text.{codes, strip_prefix, starts_with, append-strip_prefix}
use lacme.Prelude.Dict.{Dict, Entries, Entries-put}
use lacme.Identifiers.Values.{WireIdentifier}
use lacme.Responder.State.{Authorization, AuthzStatus, Order, State, Config}
use lacme.Responder.Orders.{is_wildcard, new_authorization, add_authorizations, promote, all_valid}
use lacme.Responder.Challenges.{callback_identifier, answer_challenge}
use lacme.Responder.Steps.Authorizations.{Created}
use lacme.Responder.Steps.Preserves.{promote-cases}
use lacme.Responder.Steps.Advances.{answer_challenge-Same}
use lacme.Responder.Steps.Provenance.{Approved, Approved-Same, IsFor, Covers, past_pending}

wildcard_name :
    (value : Str) → starts_with value (codes "*.") ≡ true → codes "*." ++ drop 2 value ≡ value
unfolding starts_with drop
wildcard_name value h = elim (Option-cases (strip_prefix (codes "*.") value)) [
  | inl plain ↦ absurd (ground arith)
  | inr (rest, found) ↦ let e = append-strip_prefix (codes "*.") value rest found in rw e refl
]

module _ (cfg : Config) where
  new_authorization-IsFor :
      (base : Str) (n : ℕ) (ident : WireIdentifier)
      → IsFor cfg (new_authorization cfg base n ident) ident
  unfolding new_authorization
  new_authorization-IsFor base n ident = record { value = is_for; kind = refl }
    where
      is_for : callback_identifier (new_authorization cfg base n ident) ≡ ident.value
      is_for = elim (Bool-cases (is_wildcard ident)) [
        | inl w ↦ rw w (wildcard_name ident.value (&&-eq-true _ _ w).1)
        | inr w ↦ rw w refl
      ]

  pub Created-Covers :
      (base : Str) (auths : Dict Str Authorization) (n : ℕ) (urls : List Str)
      (ids : List WireIdentifier)
      → Created cfg base auths n urls ids
      → Covers cfg false auths urls ids
  Created-Covers base auths n [] [] h = tt
  Created-Covers base auths n [] (ident ∷ ids) h = absurd h
  Created-Covers base auths n (url ∷ urls) [] h = absurd h
  Created-Covers base auths n (url ∷ urls) (ident ∷ ids) (_, found, rest) = (
    (_, found, new_authorization-IsFor base (suc n) ident, λ e. absurd (cc)),
    Created-Covers base auths (suc n) urls ids rest,
  )

  -- Only what is approved is valid.
  abbrev pub Sound : Authorization → Type 0
  Sound a = a.status ≡ AuthzStatus.valid → Approved cfg a

  pub add_authorizations-Sound :
      (base : Str) (ids : List WireIdentifier) (s : State)
      → Entries (λ u. Sound) s.authorizations
      → Entries (λ u. Sound) (add_authorizations cfg base ids s).1.authorizations
  unfolding add_authorizations new_authorization
  add_authorizations-Sound base [] s h = h
  add_authorizations-Sound base (ident ∷ ids) s h =
      add_authorizations-Sound base ids _
        (Entries-put (λ u. Sound) s.authorizations _ _ h (λ e. absurd (cc)))

  pub answer_challenge-Sound :
      (n : ℕ) (a : Authorization) → Sound a → Sound (answer_challenge cfg n a)
  unfolding Approved answer_challenge
  answer_challenge-Sound n a h e = elim (Bool-cases cfg.auto_approve) [
    | inl auto ↦ inl auto
    | inr manual ↦ elim (Option-cases cfg.challenge_validator) [
      | inl absent ↦
          Approved-Same cfg a (answer_challenge cfg n a) (answer_challenge-Same cfg n a)
            (h (rw (manual, absent, answer_challenge) at e))
      | inr (validate, given) ↦
          elim (Bool-cases
            (validate n (callback_identifier a) a.identifier_type a.token a.key_authorization)) [
              | inl accepts ↦
                  Approved-Same cfg a (answer_challenge cfg n a) (answer_challenge-Same cfg n a)
                    (inr (validate, n, given, accepts))
              | inr refuses ↦ absurd (cc (rw (manual, given, refuses, answer_challenge) at e))
            ]
    ]
  ]

  all_valid-Covers :
      (s : State) (urls : List Str) (ids : List WireIdentifier)
      → Entries (λ u. Sound) s.authorizations
      → all_valid s urls ≡ true
      → Covers cfg false s.authorizations urls ids
      → Covers cfg true s.authorizations urls ids
  unfolding all_valid
  all_valid-Covers s [] [] sound h c = tt
  all_valid-Covers s [] (ident ∷ ids) sound h c = absurd c
  all_valid-Covers s (url ∷ urls) [] sound h c = absurd c
  all_valid-Covers s (url ∷ urls) (ident ∷ ids) sound h ((a, found, is_for, _), rest) =
      let (this, others) = &&-eq-true _ (all_valid s urls) h in
      (
        (a, found, is_for, λ _. sound url a found (ground (arith, found, this))),
        all_valid-Covers s urls ids sound others rest,
      )

  pub promote-Covers :
      (s : State) (o : Order)
      → Entries (λ u. Sound) s.authorizations
      → Covers cfg (past_pending o.status) s.authorizations o.authz_urls o.identifiers
      → Covers cfg
          (past_pending (promote s o).status)
          s.authorizations
          (promote s o).authz_urls
          (promote s o).identifiers
  promote-Covers s o sound c = elim (promote-cases s o) [
    | inl same ↦ rw same c
    | inr (pending, all, e) ↦ rw e (
        all_valid-Covers s o.authz_urls o.identifiers sound all (
          subst (λ st. Covers cfg (past_pending st) s.authorizations o.authz_urls o.identifiers)
            pending c))
  ]

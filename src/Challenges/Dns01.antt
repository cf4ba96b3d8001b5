-- ===== src/Challenges/Dns01.antt =====
-- `DNS01Handler` of challenges/dns01.py. The provider and the propagation checker are parameters, and the
-- rounds that the waiting meets an arbitrary list. Times are in milliseconds.
use lacme.Prelude.{
  ◌≡◌, refl, ap, ◌∙◌, subst, ℕ, ◌≤◌, arith, Bool, true, false, leb, Option, none, some, List, [],
  ◌∷◌, ◌++◌, Str, str_Eq, pair_Eq, if◌then◌else◌, Bool-cases, inl, inr,
}
use lacme.Prelude.Text.{codes, strip_prefix}
use lacme.Prelude.Dict
use lacme.Prelude.Dict.{Dict}
use lacme.Base64.{b64url_encode}

-- `_acme_challenge_domain`
unfoldable pub acme_challenge_domain : Str → Str
unfolding strip_prefix
acme_challenge_domain domain =
    codes "_acme-challenge."
    ++ elim (strip_prefix (codes "*.") domain) [ none ↦ domain | some rest ↦ rest ]

-- What a call of the provider does to the world; `some` is an exception.
pub record Provider (W E : Type 0) : Type 0 where
  pub create_txt_record : Str → Str → W → Option E × W
  pub delete_txt_record : Str → Str → W → Option E × W

-- What one round of the waiting meets: the checker's answer, or its exception, and the time since the start.
pub data Checked (E : Type 0) : Type 0 where
  seen : Bool → Checked E
  failed : E → Checked E

-- How `provision` ends.
pub data Ending (E : Type 0) : Type 0 where
  provisioned : Ending E
  raised : E → Ending E
  timed_out : Ending E

-- `_records`, and the world of the provider
pub record State (W : Type 0) : Type 0 where
  pub records : Dict (Str × Str) (Str × Str)
  pub world : W

le→leb : (a b : ℕ) → a ≤ b → leb a b ≡ true
le→leb a b h = ground arith

module _ {W E : Type 0} (sha256 : Str → Str) (provider : Provider W E) where
  -- `_dns01_digest`
  abbrev pub dns01_digest : Str → Str
  dns01_digest key_authorization = b64url_encode (sha256 key_authorization)

  -- `_wait_for_propagation` on the rounds that it meets; `none` if these do not suffice for an end
  unfoldable pub wait_for_propagation : ℕ → List (Checked E × ℕ) → Option (Ending E)
  wait_for_propagation timeout [] = none
  wait_for_propagation timeout ((failed e, elapsed) ∷ rounds) = some (raised e)
  wait_for_propagation timeout ((seen visible, elapsed) ∷ rounds) =
      let rest = wait_for_propagation timeout rounds in
      if visible then some provisioned else if leb timeout elapsed then some timed_out else rest

  abbrev pub created :
      Str × Str
      → Str × Str
      → State W
      → Option (Ending E)
      → Option E × W
      → Option (Ending E) × State W
  created key record_ s waited (some e, w) = (some (raised e), record s { world = w })
  created key record_ s waited (none, w) =
      (waited, record { records = Dict.put s.records key record_; world = w })

  -- `provision`, with a checker and the rounds that it meets, or without one
  unfoldable pub provision_record :
      ℕ → Option (List (Checked E × ℕ)) → Str → Str → Str → State W → Option (Ending E) × State W
  unfolding acme_challenge_domain wait_for_propagation Dict.put
  provision_record timeout checks domain token key_authorization s =
      let name = acme_challenge_domain domain in
      let digest = dns01_digest key_authorization in
      created (domain, token) (name, digest) s
        (elim checks [
          | none ↦ some provisioned
          | some rounds ↦ wait_for_propagation timeout rounds
        ])
        (provider.create_txt_record name digest s.world)

  abbrev pub delete_record : Option (Str × Str) → State W → Option E × State W
  delete_record none s = (none, s)
  delete_record (some (name, digest)) s =
      let (reply, w) = provider.delete_txt_record name digest s.world in
      (reply, record s { world = w })

  unfoldable pub deprovision_record : Str → Str → State W → Option E × State W
  unfolding Dict.get Dict.pop
  deprovision_record domain token s =
      delete_record (Dict.get s.records (domain, token))
        (record s { records = Dict.pop s.records (domain, token) })

  -- The waiting ends at the latest with the first round at or after the timeout.
  pub wait_for_propagation-ends :
      (timeout : ℕ) (before after : List (Checked E × ℕ)) (c : Checked E) (elapsed : ℕ)
      → timeout ≤ elapsed
      → (ending : Ending E) × (wait_for_propagation timeout (before ++ (c, elapsed) ∷ after)
          ≡ some ending)
  unfolding wait_for_propagation
  wait_for_propagation-ends timeout [] after (failed e) elapsed late = (raised e, refl)
  wait_for_propagation-ends timeout [] after (seen true) elapsed late = (provisioned, refl)
  wait_for_propagation-ends timeout [] after (seen false) elapsed late =
      (timed_out, rw (le→leb timeout elapsed late) refl)
  wait_for_propagation-ends timeout ((failed e, t) ∷ before) after c elapsed late = (raised e, refl)
  wait_for_propagation-ends timeout ((seen true, t) ∷ before) after c elapsed late =
      (provisioned, refl)
  wait_for_propagation-ends timeout ((seen false, t) ∷ before) after c elapsed late =
      elim (Bool-cases (leb timeout t)) [
        | inl now ↦ (timed_out, rw now refl)
        | inr early ↦
            let (ending, ends) = wait_for_propagation-ends timeout before after c elapsed late in
            (ending, rw early ends)
      ]

  -- What follows from a record that is tracked.
  abbrev IsTaken : Str × Str → Str → Str → State W → W → Type 0
  IsTaken record_ domain token s w =
      ((deprovision_record domain token s).0 ≡ (provider.delete_txt_record record_.0 record_.1 w).0)
      × ((deprovision_record domain token s).1.world
          ≡ (provider.delete_txt_record record_.0 record_.1 w).1)
      × ((deprovision_record domain token (deprovision_record domain token s).1).0 ≡ none)
      × ((deprovision_record domain token (deprovision_record domain token s).1).1.world
          ≡ (deprovision_record domain token s).1.world)

  deprovision_record-untracked :
      (domain token : Str) (s : State W)
      → Dict.get s.records (domain, token) ≡ none
      → ((deprovision_record domain token s).0 ≡ none)
        × ((deprovision_record domain token s).1.world ≡ s.world)
  unfolding deprovision_record
  deprovision_record-untracked domain token s gone = rw (gone, deprovision_record) (refl, refl)

  deprovision_record-IsTaken :
      (record_ : Str × Str) (domain token : Str) (s : State W)
      → Dict.get s.records (domain, token) ≡ some record_
      → IsTaken record_ domain token s s.world
  unfolding deprovision_record
  deprovision_record-IsTaken record_ domain token s tracked =
      let first : deprovision_record domain token s
          ≡ delete_record (some record_)
              (record s { records = Dict.pop s.records (domain, token) }) =
        ap (λ o. delete_record o (record s { records = Dict.pop s.records (domain, token) }))
          tracked in
      let gone : Dict.get (Dict.pop s.records (domain, token)) (domain, token) ≡ none =
        Dict.get-pop s.records (domain, token) (domain, token)
        ∙ rw (Dict.beq_refl {K = Str × Str} (domain, token)) refl in
      let again =
        deprovision_record-untracked domain token (deprovision_record domain token s).1
          (ap (λ r. Dict.get r.1.records (domain, token)) first ∙ gone) in
      (ap (λ r. r.0) first, ap (λ r. r.1.world) first, again.0, again.1)

  -- If the provider creates the record, then however `provision` ends, by a timeout as well, a call of
  -- `deprovision` for the same domain and token asks the provider to delete that record, by the name and
  -- the digest with which it was created, and a second call asks for nothing.
  pub provision_record-deprovision :
      (timeout : ℕ) (checks : Option (List (Checked E × ℕ))) (domain token key_authorization : Str)
      (s : State W) (w : W)
      → provider.create_txt_record
          (acme_challenge_domain domain)
          (dns01_digest key_authorization)
          s.world
        ≡ (none, w)
      → let name = acme_challenge_domain domain in
        let digest = dns01_digest key_authorization in
        let s' = (provision_record timeout checks domain token key_authorization s).1 in
        ((deprovision_record domain token s').0 ≡ (provider.delete_txt_record name digest w).0)
        × ((deprovision_record domain token s').1.world
            ≡ (provider.delete_txt_record name digest w).1)
        × ((deprovision_record domain token (deprovision_record domain token s').1).0 ≡ none)
        × ((deprovision_record domain token (deprovision_record domain token s').1).1.world
            ≡ (deprovision_record domain token s').1.world)
  unfolding provision_record deprovision_record
  provision_record-deprovision timeout checks domain token key_authorization s w there =
      let made : (provision_record timeout checks domain token key_authorization s).1 ≡ record {
        records =
            Dict.put s.records (domain, token)
              (acme_challenge_domain domain, dns01_digest key_authorization);
        world = w;
      } =
        ap
          (λ r.
            (created (domain, token) (acme_challenge_domain domain, dns01_digest key_authorization)
              s
              (elim checks [
                | none ↦ some provisioned
                | some rounds ↦ wait_for_propagation timeout rounds
              ])
              r).1)
          there in
      subst
        (IsTaken (acme_challenge_domain domain, dns01_digest key_authorization) domain token
          (provision_record timeout checks domain token key_authorization s).1)
        (ap (λ s. s.world) made)
        (deprovision_record-IsTaken (acme_challenge_domain domain, dns01_digest key_authorization)
          domain token _
          (ap (λ s. Dict.get s.records (domain, token)) made
            ∙ Dict.get-put_self s.records (domain, token)
                (acme_challenge_domain domain, dns01_digest key_authorization)))

-- ===== src/Renewal/Sweep.antt =====
-- What a sweep renews, and what it leaves in a store in memory.
use lacme.Prelude.{
  ◌≡◌, ℕ, true, false, Option, none, some, List, [], ◌∷◌, Str, str_eq, str_Eq, Error, ok, raise,
  if◌then◌else◌,
}
use lacme.Prelude.Dict.{get}
use lacme.Identifiers.Platform.{Platform}
use lacme.Identifiers.X509.{X509}
use lacme.Identifiers.Values.{IdentifierValue}
use lacme.Store.Platform.{StorePlatform}
use lacme.Store.Bundle.{CertBundle}
use lacme.Store.Interface.{Store, Memory, memory_cert_store}
use lacme.Renewal.{
  Renewer, needs_renewal, announce, report, call_back, renewal_values, issue_renewal,
}

-- The certificate of a domain after the bundles are saved in their order: the last one of the domain.
unfoldable pub last_saved :
    {disk : StorePlatform}
    → Str
    → List (CertBundle disk)
    → Option (CertBundle disk)
    → Option (CertBundle disk)
last_saved domain [] found = found
last_saved domain (b ∷ bs) found =
    last_saved domain bs (if str_eq b.domain domain then some b else found)

module _ {py : Platform} {x509 : X509 py} {disk : StorePlatform} {W H E Key : Type 0}
    (m : Renewer py x509 disk W H E Key) where
  abbrev pub memory : Store disk (Memory disk)
  memory = memory_cert_store disk

  -- What comes of the bundles in a sweep at `now`, from one world on: a bundle that is due is announced and
  -- renewed by what the client issues for its identifiers, in their order, which is then reported; a
  -- bundle is passed over only if it is not due, it has no identifiers to recover, or the client raises.
  pub data Renewals (now : ℕ) : W → List (CertBundle disk) → List (CertBundle disk) → Type 0 where
    at_end : {w : W} → Renewals now w [] []
    not_due :
        {b : CertBundle disk} {bs renewed : List (CertBundle disk)} {w : W}
        → needs_renewal memory m b now ≡ false
        → Renewals now w bs renewed
        → Renewals now w (b ∷ bs) renewed
    unreadable :
        {b : CertBundle disk} {bs renewed : List (CertBundle disk)} {w : W} (e : Error)
        → needs_renewal memory m b now ≡ true
        → renewal_values memory m b ≡ raise e
        → Renewals now (announce memory m b now w) bs renewed
        → Renewals now w (b ∷ bs) renewed
    refused :
        {b : CertBundle disk} {bs renewed : List (CertBundle disk)} {w : W}
        (vs : List (IdentifierValue py)) (w' : W)
        → needs_renewal memory m b now ≡ true
        → renewal_values memory m b ≡ ok vs
        → issue_renewal memory m vs (announce memory m b now w) ≡ (none, w')
        → Renewals now w' bs renewed
        → Renewals now w (b ∷ bs) renewed
    renewed_by :
        {b new_bundle : CertBundle disk} {bs renewed : List (CertBundle disk)} {w : W}
        (vs : List (IdentifierValue py)) (w' : W)
        → needs_renewal memory m b now ≡ true
        → renewal_values memory m b ≡ ok vs
        → issue_renewal memory m vs (announce memory m b now w) ≡ (some new_bundle, w')
        → Renewals now (call_back memory m new_bundle (report memory m new_bundle b w')) bs renewed
        → Renewals now w (b ∷ bs) (new_bundle ∷ renewed)

  -- What a sweep of the bundles from one state gives.
  abbrev Swept :
      ℕ
      → List (CertBundle disk)
      → Memory disk
      → W
      → List (CertBundle disk) × Memory disk × W
      → Type 0
  Swept now bs s w (renewed, s', w') =
      Renewals now w bs renewed
      × ((domain : Str) → get s'.certs domain ≡ last_saved domain renewed (get s.certs domain))

-- ===== src/Renewal.antt =====
-- renewal.py: `RenewalManager.check_and_renew` with a client, one sweep over the stored certificates. The
-- client has no store or another one than the manager. The loop of `run` and its task are not modelled,
-- nor is a manager that signs with a certificate authority.
pub mod Sweep
use lacme.Prelude.{
  ℕ, ◌+◌, ◌-◌, ◌*◌, ◌/◌, leb, Bool, true, false, Option, none, some, List, [], ◌∷◌, map, Str,
  Result, ok, raise, ◌>>=◌, value_error,
}
use lacme.Json.{Json, text}
use lacme.Identifiers.Platform.{Platform}
use lacme.Identifiers.X509.{X509}
use lacme.Identifiers.Values.{IdentifierValue, many}
use lacme.Identifiers.Bundle.{certificate_bundle_identifier_values}
use lacme.Issuing.Monad.{Answer, done, threw, Progress}
use lacme.Issuing.Calls.{IssuedBundle, Calls}
use lacme.Issuing.Effective.{Arguments}
use lacme.Issuing.Issue.{issue_certificate}
use lacme.Store.Platform.{StorePlatform}
use lacme.Store.Bundle.{CertBundle}
use lacme.Store.Interface.{Store}

-- the microseconds of a day
abbrev day : ℕ
day = 86400000000

-- The fields of the manager, but for its store, and those of its client. `W` is all of the world but the
-- manager's store.
pub record Renewer (py : Platform) (x509 : X509 py) (disk : StorePlatform) (W H E Key : Type 0)
    : Type 1 where
  pub calls : Calls py x509 W H E Key
  pub challenge_handler : Option H
  pub challenge_type : Str
  pub days_before_expiry : ℕ
  -- a datetime as microseconds, and back
  pub instant : disk.Datetime → ℕ
  pub datetime : ℕ → disk.Datetime
  -- the events CertificateExpiring, with the days remaining, and CertificateRenewed, for the new and the old
  -- bundle, if there is a dispatcher
  pub emit_expiring : Option (CertBundle disk → ℕ → W → W)
  pub emit_renewed : Option (CertBundle disk → CertBundle disk → W → W)
  -- `_on_renewed`, if there is one, whose exceptions are logged
  pub on_renewed : Option (CertBundle disk → W → W)

-- the names of the metadata, if all are texts; the lookup of a name that is none raises
unfoldable pub texts : List Json → Result (List Str)
texts [] = ok []
texts (text s ∷ vs) = let rest = texts vs in do names ← rest; ok (s ∷ names)
texts (v ∷ vs) = raise value_error

module _ {py : Platform} {x509 : X509 py} {disk : StorePlatform} {S W H E Key : Type 0}
    (store : Store disk S) (m : Renewer py x509 disk W H E Key) where
  abbrev pub needs_renewal : CertBundle disk → ℕ → Bool
  needs_renewal bundle now = leb (m.instant bundle.expires_at) (now + m.days_before_expiry * day)

  -- `max(0, (bundle.expires_at - now).days)`
  abbrev pub days_remaining : CertBundle disk → ℕ → ℕ
  days_remaining bundle now = (m.instant bundle.expires_at - now) / day

  abbrev pub announce : CertBundle disk → ℕ → W → W
  announce bundle now w = elim m.emit_expiring [
    | none ↦ w
    | some emit ↦ emit bundle (days_remaining bundle now) w
  ]

  abbrev pub report : CertBundle disk → CertBundle disk → W → W
  report new_bundle bundle w = elim m.emit_renewed [
    | none ↦ w
    | some emit ↦ emit new_bundle bundle w
  ]

  abbrev pub call_back : CertBundle disk → W → W
  call_back new_bundle w = elim m.on_renewed [ none ↦ w | some f ↦ f new_bundle w ]

  -- `certificate_bundle_identifier_values(bundle)`
  unfoldable pub renewal_values : CertBundle disk → Result (List (IdentifierValue py))
  unfolding texts certificate_bundle_identifier_values
  renewal_values bundle = do
    names ← texts bundle.domains
    certificate_bundle_identifier_values py x509
        (record { domain = bundle.domain; domains = names; cert_pem = bundle.cert_pem })

  -- The bundle that `issue` returns, as the store takes it.
  abbrev pub storable : IssuedBundle → CertBundle disk
  storable b = record {
    domain = b.domain;
    domains = map text b.domains;
    cert_pem = b.cert_pem;
    fullchain_pem = b.fullchain_pem;
    key_pem = b.key_pem;
    issued_at = m.datetime b.issued_at;
    expires_at = m.datetime b.expires_at;
    cert_path = none;
    fullchain_path = none;
    key_path = none;
  }

  abbrev pub or_failure : Answer E IssuedBundle → Option (CertBundle disk)
  or_failure (done b) = some (storable b)
  or_failure (threw e) = none

  -- `await self._client.issue(identifier_values, challenge_type=self._challenge_type)`; `none` if it raises
  unfoldable pub issue_renewal : List (IdentifierValue py) → W → Option (CertBundle disk) × W
  unfolding issue_certificate
  issue_renewal values w =
      let (answer, s) =
        issue_certificate py x509 m.calls
          (record {
            domains = many values;
            challenge_type = m.challenge_type;
            challenge_map = [];
            challenge_handler = m.challenge_handler;
          })
          (record { world = w; provisioned = []; deprovisioned = []; asked = [] }) in
      (or_failure answer, s.world)

  -- `save_cert` on the manager's store, and what follows if it does not raise
  abbrev pub keep :
      CertBundle disk
      → CertBundle disk
      → W
      → Result (CertBundle disk) × S
      → Option (CertBundle disk) × S × W
  keep new_bundle bundle w (raise e, s) = (none, s, w)
  keep new_bundle bundle w (ok saved, s) =
      (some new_bundle, s, call_back new_bundle (report new_bundle bundle w))

  abbrev pub keep_issued :
      CertBundle disk → Option (CertBundle disk) × W → S → Option (CertBundle disk) × S × W
  keep_issued bundle (none, w) s = (none, s, w)
  keep_issued bundle (some new_bundle, w) s =
      keep new_bundle bundle w (store.save_cert new_bundle s)

  -- the `try` block, and what follows it; an exception is logged
  unfoldable pub renew : CertBundle disk → S → W → Option (CertBundle disk) × S × W
  unfolding renewal_values issue_renewal
  renew bundle s w = elim (renewal_values bundle) [
    | raise e ↦ (none, s, w)
    | ok values ↦ keep_issued bundle (issue_renewal values w) s
  ]

  -- the loop over the bundles
  unfoldable pub sweep : ℕ → List (CertBundle disk) → S → W → List (CertBundle disk) × S × W
  unfolding renew
  sweep now [] s w = ([], s, w)
  sweep now (bundle ∷ bundles) s w = elim (needs_renewal bundle now) [
    | false ↦ sweep now bundles s w
    | true ↦
        let (new_bundle, s', w') = renew bundle s (announce bundle now w) in
        let (renewed, s'', w'') = sweep now bundles s' w' in
        (elim new_bundle [ none ↦ renewed | some b ↦ b ∷ renewed ], s'', w'')
  ]

  unfoldable pub check_and_renew : S → W → Result (List (CertBundle disk)) × S × W
  unfolding sweep
  check_and_renew s w = elim (store.list_certs s) [
    | raise e ↦ (raise e, s, w)
    | ok bundles ↦ let (renewed, s', w') = sweep (m.calls.now w) bundles s w in (ok renewed, s', w')
  ]

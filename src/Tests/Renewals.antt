-- ===== src/Tests/Renewals.antt =====
-- A sweep over two certificates, of which one is due; the client is that of the runs of `issue`.
use lacme.Tests.Program.{program}
use lacme.Prelude.{◌≡◌, refl, ◌*◌, ℕ, true, none, some, List, [], ◌∷◌, ◌++◌, Str, ok, str_Eq, map}
use lacme.Prelude.Text.{codes}
use lacme.Json.{text}
use lacme.Store.Bundle.{CertBundle}
use lacme.Store.Interface.{Memory, memory_cert_store}
use lacme.Renewal.{Renewer, check_and_renew}
use lacme.Tests.World.{platform, certificates}
use lacme.Tests.Disk.{disk_platform}
use lacme.Tests.Issuances.{outside}

abbrev bundle_until : Str → ℕ → CertBundle disk_platform
bundle_until domain expires_at = record {
  domain = domain;
  domains = text domain ∷ text (codes "10.0.0.1") ∷ [];
  cert_pem = codes "C";
  fullchain_pem = codes "C";
  key_pem = codes "K";
  issued_at = 5;
  expires_at = expires_at;
  cert_path = none;
  fullchain_path = none;
  key_path = none;
}

abbrev soon : CertBundle disk_platform
soon = bundle_until (codes "a.io") 3

abbrev late : CertBundle disk_platform
late = bundle_until (codes "b.io") 9

-- what the client issues for the first one
abbrev next : CertBundle disk_platform
next = record soon { expires_at = 90 }

-- a day is over at each tick, but the clock stands still
abbrev renewer : Renewer platform certificates disk_platform (List Str) Str (Unit {0}) (Unit {0})
renewer = record {
  calls = outside true true;
  challenge_handler = some (codes "webroot");
  challenge_type = codes "http-01";
  days_before_expiry = 3;
  instant = λ ticks. ticks * 86400000000;
  datetime = λ ticks. ticks;
  emit_expiring = some (λ b days log. log ++ codes "expiring" ∷ (days ∷ []) ∷ []);
  emit_renewed = some (λ b old log. log ++ codes "renewed" ∷ []);
  on_renewed = none;
}

abbrev two_certs : Memory disk_platform
two_certs = record {
  account_key = none;
  certs = (codes "a.io", soon) ∷ (codes "b.io", late) ∷ [];
  cas = [];
}

one_renewed : check_and_renew (memory_cert_store disk_platform) renewer two_certs [] ≡ (
  ok (next ∷ []),
  record two_certs { certs = (codes "a.io", next) ∷ (codes "b.io", late) ∷ [] },
  codes "expiring"
      ∷ (2 ∷ [])
      ∷ map codes (
          "limit" ∷ "key" ∷ "account" ∷ "order" ∷ "authz" ∷ "up" ∷ "respond" ∷ "poll" ∷ "ready"
          ∷ "csr" ∷ "finalize" ∷ "valid" ∷ "download" ∷ "down" ∷ "record" ∷ "issued" ∷ "renewed"
          ∷ []),
)
unfolding program
one_renewed = refl

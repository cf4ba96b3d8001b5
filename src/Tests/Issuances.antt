-- ===== src/Tests/Issuances.antt =====
-- Witnesses for `issue`: a server with one authorization, in a world that is a log.
use lacme.Tests.Program.{program}
use lacme.Prelude.{
  ◌≡◌, refl, Bool, true, false, none, some, List, [], ◌∷◌, ◌++◌, All, Str, map, Result,
}
use lacme.Prelude.Text.{codes}
use lacme.Identifiers.Values.{name, address, many}
use lacme.Client.Polling.{OrderStatus}
use lacme.Issuing.Monad.{done, threw, Progress, Provisioned, rate_limit_prevented, Raised}
use lacme.Issuing.Calls.{Authorization, Order, IssuedBundle, Reply, value, exception, Calls}
use lacme.Issuing.Effective.{Plan, Arguments, plan}
use lacme.Issuing.Issue.{issue_plan, issue_certificate}
use lacme.Issuing.Cleanup.{IsPlanned, issue_plan-ArePlanned}
use lacme.Issuing.Checked.{IsIssued, issue_certificate-IsChecked, issue_certificate-rate_limited}
use lacme.Tests.World.{platform, certificates}

abbrev pub logged : {A : Type 0} → Str → A → List Str → Reply (Unit {0}) A × List Str
logged what a log = (value a, log ++ what ∷ [])

-- a step that does or does not raise
abbrev pub perhaps : Bool → Str → List Str → Reply (Unit {0}) (Unit {0}) × List Str
perhaps true what log = (value tt, log ++ what ∷ [])
perhaps false what log = (exception tt, log ++ what ∷ [])

abbrev pub an_authorization : Authorization
an_authorization = record {
  identifier_type = codes "dns";
  identifier_value = codes "a.io";
  wildcard = false;
  challenges = record { kind = codes "http-01"; url = codes "/c"; token = codes "t" } ∷ [];
  url = codes "/z";
}

abbrev pub an_order : OrderStatus → Order
an_order status = record {
  status = status;
  authorizations = codes "/z" ∷ [];
  certificate = some (codes "/p");
  url = codes "/o";
}

-- the calls, with a server that approves challenges or not, and a tracker that allows more or not
abbrev pub outside : Bool → Bool → Calls platform certificates (List Str) Str (Unit {0}) (Unit {0})
outside approves allowed = record {
  rate_limit_allows = some (λ domains. logged (codes "limit") allowed);
  ensure_account_key = logged (codes "key") tt;
  has_account_url = λ log. false;
  create_account = logged (codes "account") tt;
  create_order = λ values. logged (codes "order") (an_order OrderStatus.pending);
  get_authorization = λ url. logged (codes "authz") an_authorization;
  key_authorization = λ token log. some token;
  provision = λ handler domain token ka. perhaps true (codes "up");
  deprovision = λ handler domain token. perhaps true (codes "down");
  respond_to_challenge = λ challenge. perhaps true (codes "respond");
  poll_authorization = λ url. perhaps approves (codes "poll");
  emit_challenge_failed = λ domain kind e log. log ++ codes "failed" ∷ [];
  poll_order_ready = λ url. logged (codes "ready") (an_order OrderStatus.ready);
  generate_key = λ log. (tt, log);
  generate_csr = λ key values. logged (codes "csr") (codes "0");
  finalize_order = λ order der. logged (codes "finalize") (an_order OrderStatus.processing);
  poll_order = λ url. logged (codes "valid") (an_order OrderStatus.valid);
  download_certificate = λ url. logged (codes "download") (codes "C");
  certificate_public_key = λ certificate. codes "k";
  local_public_key = λ key. codes "k";
  private_key_pem = λ key. codes "K";
  certificate_pem = λ certificate. codes "C";
  not_valid_after = λ certificate. 90;
  now = λ log. 5;
  save_cert = none;
  record_issuance = some (λ domains. logged (codes "record") tt);
  emit_issued = λ bundle log. log ++ codes "issued" ∷ [];
}

abbrev arguments : Arguments platform Str
arguments = record {
  domains = many (name (codes "a.io") ∷ address true ∷ []);
  challenge_type = codes "http-01";
  challenge_map = [];
  challenge_handler = some (codes "webroot");
}

abbrev at_start : Progress (List Str) Str
at_start = record { world = []; provisioned = []; deprovisioned = []; asked = [] }

abbrev an_entry : Provisioned Str
an_entry = record { domain = codes "a.io"; token = codes "t"; handler = codes "webroot" }

abbrev the_plan : Plan platform Str
the_plan = record {
  values = name (codes "a.io") ∷ address true ∷ [];
  identifiers =
      record { kind = codes "dns"; value = codes "a.io" }
      ∷ record { kind = codes "ip"; value = codes "10.0.0.1" }
      ∷ [];
  effective =
      (
        (codes "dns", codes "a.io"),
        record {
          value = codes "a.io";
          challenge_type = codes "http-01";
          handler = codes "webroot";
        },
      )
      ∷ (
        (codes "ip", codes "10.0.0.1"),
        record {
          value = codes "10.0.0.1";
          challenge_type = codes "http-01";
          handler = codes "webroot";
        },
      )
      ∷ [];
}

planned : plan platform arguments ≡ Result.ok the_plan
unfolding program
planned = refl

-- a run that fails in the polling cleans up as well
failing_run : issue_certificate platform certificates (outside false true) arguments at_start ≡ (
  threw (Raised.from_call tt),
  record {
    world = map codes (
        "limit" ∷ "key" ∷ "account" ∷ "order" ∷ "authz" ∷ "up" ∷ "respond" ∷ "poll" ∷ "failed"
        ∷ "down" ∷ []);
    provisioned = an_entry ∷ [];
    deprovisioned = an_entry ∷ [];
    asked = an_entry ∷ [];
  },
)
unfolding program
failing_run = refl

abbrev a_bundle : IssuedBundle
a_bundle = record {
  domain = codes "a.io";
  domains = codes "a.io" ∷ codes "10.0.0.1" ∷ [];
  cert_pem = codes "C";
  fullchain_pem = codes "C";
  key_pem = codes "K";
  issued_at = 5;
  expires_at = 90;
}

abbrev after_run : Progress (List Str) Str
after_run = record {
  world = map codes (
      "limit" ∷ "key" ∷ "account" ∷ "order" ∷ "authz" ∷ "up" ∷ "respond" ∷ "poll" ∷ "ready" ∷ "csr"
      ∷ "finalize" ∷ "valid" ∷ "download" ∷ "down" ∷ "record" ∷ "issued" ∷ []);
  provisioned = an_entry ∷ [];
  deprovisioned = an_entry ∷ [];
  asked = an_entry ∷ [];
}

run :
    issue_certificate platform certificates (outside true true) arguments at_start
    ≡ (done a_bundle, after_run)
unfolding program
run = refl

issue_plan-ArePlanned_example :
    All
      (IsPlanned the_plan.effective)
      (issue_plan platform certificates (outside true true) the_plan at_start).1.asked
    × All
        (IsPlanned the_plan.effective)
        (issue_plan platform certificates (outside true true) the_plan at_start).1.provisioned
issue_plan-ArePlanned_example =
    issue_plan-ArePlanned platform certificates (outside true true) the_plan at_start refl refl refl

issue_certificate-IsChecked_example :
    (p : Plan platform Str) × (plan platform arguments ≡ Result.ok p)
    × IsIssued platform certificates (outside true true) p a_bundle
issue_certificate-IsChecked_example =
    issue_certificate-IsChecked platform certificates (outside true true) arguments at_start
      after_run a_bundle run

issue_certificate-rate_limited_example :
    issue_certificate platform certificates (outside true false) arguments at_start
    ≡ (threw rate_limit_prevented, record at_start { world = codes "limit" ∷ [] })
issue_certificate-rate_limited_example =
    issue_certificate-rate_limited platform certificates (outside true false) arguments at_start
      the_plan (λ domains. logged (codes "limit") false) (codes "limit" ∷ []) planned refl refl

-- ===== src/Metrics/Counted.antt =====
-- The counters count the events.
use lacme.Prelude.{
  ◌≡◌, refl, ap, ◌∙◌, ℕ, suc, ◌+◌, Bool-cases, inl, inr, List, [], ◌∷◌, Str, str_eq, str_eq_iff,
  str_Eq, if◌then◌else◌, arith,
}
use lacme.Prelude.Dict
use lacme.Prelude.Dict.{Dict}
use lacme.Events.{Event, new_dispatcher, subscribe, callbacks_for, event_name, invoke_each, emit}
use lacme.Metrics.{MetricsCollector, value_or_zero, inc, handle, setup_metrics, emit_all}

abbrev pub count : Dict Str ℕ → Str → ℕ
count counter domain = value_or_zero (Dict.get counter domain)

-- the domains that a list of events counts for
unfoldable pub issued_for : List Event → List Str
issued_for [] = []
issued_for (Event.certificate_issued domain domains expires_at ∷ events) =
    domain ∷ issued_for events
issued_for (event ∷ events) = issued_for events

unfoldable pub renewed_for : List Event → List Str
renewed_for [] = []
renewed_for (Event.certificate_renewed domain domains expires_at previous ∷ events) =
    domain ∷ renewed_for events
renewed_for (event ∷ events) = renewed_for events

unfoldable pub failed_for : List Event → List Str
failed_for [] = []
failed_for (Event.challenge_failed domain kind error ∷ events) = domain ∷ failed_for events
failed_for (event ∷ events) = failed_for events

unfoldable pub occurrences : Str → List Str → ℕ
occurrences domain [] = 0
occurrences domain (d ∷ ds) =
    let rest = occurrences domain ds in if str_eq d domain then suc rest else rest

count-inc :
    (counter : Dict Str ℕ) (d domain : Str)
    → count (inc counter d) domain
      ≡ (if str_eq d domain then suc (count counter domain) else count counter domain)
unfolding inc
count-inc counter d domain =
    rw (Dict.get-put counter d domain _) (elim (Bool-cases (str_eq d domain)) [
      | inl same ↦ rw same (rw ((str_eq_iff d domain).0 same) refl)
      | inr other ↦ rw other refl
    ])

-- A counter that counts for some domains.
abbrev Counts : Dict Str ℕ → Dict Str ℕ → List Str → Type 0
Counts before after domains =
    (domain : Str) → count after domain ≡ count before domain + occurrences domain domains

nothing-Counts : (counter : Dict Str ℕ) → Counts counter counter []
unfolding occurrences
nothing-Counts counter domain = omega arith

inc-Counts :
    (before after : Dict Str ℕ) (d : Str) (ds : List Str)
    → Counts (inc before d) after ds
    → Counts before after (d ∷ ds)
unfolding occurrences
inc-Counts before after d ds h domain = elim (Bool-cases (str_eq d domain)) [
  | inl same ↦
      rw same (
        let counted = rw same at (count-inc before d domain) in let known = h domain in omega arith)
  | inr other ↦
      rw other
        (h domain ∙ ap (λ n. n + occurrences domain ds) (rw other at (count-inc before d domain)))
]

abbrev AllCounted : MetricsCollector → MetricsCollector → List Event → Type 0
AllCounted before after events =
    Counts before.certificates_issued after.certificates_issued (issued_for events)
    × Counts before.certificates_renewed after.certificates_renewed (renewed_for events)
    × Counts before.certificate_failures after.certificate_failures (failed_for events)

emit_all-AllCounted :
    (events : List Event) (c : MetricsCollector)
    → AllCounted c (emit_all (setup_metrics new_dispatcher) events c) events
unfolding emit_all emit issued_for renewed_for failed_for handle invoke_each callbacks_for
    event_name setup_metrics subscribe Dict.get Dict.put str_eq
emit_all-AllCounted [] c = (
  nothing-Counts c.certificates_issued,
  nothing-Counts c.certificates_renewed,
  nothing-Counts c.certificate_failures,
)
emit_all-AllCounted (Event.certificate_issued domain domains expires_at ∷ events) c =
    let (issued, renewed, failed) =
      emit_all-AllCounted events
        (record c { certificates_issued = inc c.certificates_issued domain }) in
    (inc-Counts _ _ domain _ issued, renewed, failed)
emit_all-AllCounted (Event.certificate_renewed domain domains expires_at previous ∷ events) c =
    let (issued, renewed, failed) =
      emit_all-AllCounted events
        (record c { certificates_renewed = inc c.certificates_renewed domain }) in
    (issued, inc-Counts _ _ domain _ renewed, failed)
emit_all-AllCounted (Event.challenge_failed domain kind error ∷ events) c =
    let (issued, renewed, failed) =
      emit_all-AllCounted events
        (record c { certificate_failures = inc c.certificate_failures domain }) in
    (issued, renewed, inc-Counts _ _ domain _ failed)
emit_all-AllCounted (Event.certificate_expiring domain domains expires_at days ∷ events) c =
    emit_all-AllCounted events _
emit_all-AllCounted (Event.rate_limit_warning domain n limit hours ∷ events) c =
    emit_all-AllCounted events c
emit_all-AllCounted (Event.certificate_authority_initialized cn expires_at ∷ events) c =
    emit_all-AllCounted events c
emit_all-AllCounted (Event.ca_certificate_issued n names is_client expires_at ∷ events) c =
    emit_all-AllCounted events c

-- However many events a dispatcher with only the collector's subscriptions emits, in whatever order, each
-- counter of a domain has grown by the number of the events of its type for that domain.
pub emit_all-counts :
    (events : List Event) (c : MetricsCollector) (domain : Str)
    → let c' = emit_all (setup_metrics new_dispatcher) events c in
      (count c'.certificates_issued domain
        ≡ count c.certificates_issued domain + occurrences domain (issued_for events))
      × (count c'.certificates_renewed domain
          ≡ count c.certificates_renewed domain + occurrences domain (renewed_for events))
      × (count c'.certificate_failures domain
          ≡ count c.certificate_failures domain + occurrences domain (failed_for events))
emit_all-counts events c domain =
    let (issued, renewed, failed) = emit_all-AllCounted events c in
    (issued domain, renewed domain, failed domain)

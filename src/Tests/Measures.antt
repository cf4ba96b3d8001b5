-- ===== src/Tests/Measures.antt =====
-- A run of the collector.
use lacme.Tests.Program.{program}
use lacme.Prelude.{◌≡◌, refl, ◌+◌, List, [], ◌∷◌}
use lacme.Prelude.Text.{codes}
use lacme.Events.{Event, new_dispatcher}
use lacme.Metrics.{MetricsCollector, setup_metrics, emit_all}
use lacme.Metrics.Counted.{count, issued_for, renewed_for, failed_for, occurrences, emit_all-counts}

abbrev some_events : List Event
some_events =
    Event.certificate_issued (codes "a.io") (codes "a.io" ∷ []) 9
    ∷ Event.challenge_failed (codes "b.io") (codes "http-01") (codes "no")
    ∷ Event.certificate_expiring (codes "a.io") (codes "a.io" ∷ []) 9 3
    ∷ Event.certificate_issued (codes "a.io") (codes "a.io" ∷ []) 12
    ∷ []

abbrev no_metrics : MetricsCollector
no_metrics = record {
  certificates_issued = [];
  certificates_renewed = [];
  certificate_failures = [];
  days_until_expiry = [];
}

measured : emit_all (setup_metrics new_dispatcher) some_events no_metrics ≡ record {
  certificates_issued = (codes "a.io", 2) ∷ [];
  certificates_renewed = [];
  certificate_failures = (codes "b.io", 1) ∷ [];
  days_until_expiry = (codes "a.io", 3) ∷ [];
}
unfolding program
measured = refl

emit_all-counts_example :
    let c' = emit_all (setup_metrics new_dispatcher) some_events no_metrics in
    (count c'.certificates_issued (codes "a.io")
      ≡ count no_metrics.certificates_issued (codes "a.io")
        + occurrences (codes "a.io") (issued_for some_events))
    × (count c'.certificates_renewed (codes "a.io")
        ≡ count no_metrics.certificates_renewed (codes "a.io")
          + occurrences (codes "a.io") (renewed_for some_events))
    × (count c'.certificate_failures (codes "a.io")
        ≡ count no_metrics.certificate_failures (codes "a.io")
          + occurrences (codes "a.io") (failed_for some_events))
emit_all-counts_example = emit_all-counts some_events no_metrics (codes "a.io")

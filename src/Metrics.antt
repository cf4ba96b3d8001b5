-- ===== src/Metrics.antt =====
-- metrics.py: the counters that listen to the dispatcher. The metric objects of prometheus_client are a
-- number for each label.
pub mod Counted
use lacme.Prelude.{ℕ, suc, Option, none, some, List, [], ◌∷◌, Str, str_Eq}
use lacme.Prelude.Text.{codes}
use lacme.Prelude.Dict
use lacme.Prelude.Dict.{Dict}
use lacme.Events.{Event, Dispatcher, subscribe, emit}

pub record MetricsCollector : Type 0 where
  pub certificates_issued : Dict Str ℕ
  pub certificates_renewed : Dict Str ℕ
  pub certificate_failures : Dict Str ℕ
  pub days_until_expiry : Dict Str ℕ

-- the callbacks of the collector
pub data Handler : Type 0 where
  on_issued on_renewed on_failed on_expiring : Handler

-- the value of a label, 0 at first
abbrev pub value_or_zero : Option ℕ → ℕ
value_or_zero none = 0
value_or_zero (some n) = n

-- `.labels(domain=domain).inc()`
unfoldable pub inc : Dict Str ℕ → Str → Dict Str ℕ
unfolding Dict.get Dict.put
inc counter domain = Dict.put counter domain (suc (value_or_zero (Dict.get counter domain)))

unfoldable pub handle : Handler → Event → MetricsCollector → MetricsCollector
unfolding inc Dict.put
handle Handler.on_issued (Event.certificate_issued domain domains expires_at) c = record c {
  certificates_issued = inc c.certificates_issued domain;
}
handle Handler.on_renewed (Event.certificate_renewed domain domains expires_at previous) c =
    record c { certificates_renewed = inc c.certificates_renewed domain }
handle Handler.on_failed (Event.challenge_failed domain kind error) c = record c {
  certificate_failures = inc c.certificate_failures domain;
}
handle Handler.on_expiring (Event.certificate_expiring domain domains expires_at days) c =
    record c { days_until_expiry = Dict.put c.days_until_expiry domain days }
handle handler event c = c

abbrev pub invoke_handler :
    Handler → Event → MetricsCollector → Option (Unit {0}) × MetricsCollector
invoke_handler handler event c = (none, handle handler event c)

-- the subscriptions of `MetricsCollector.__init__`
unfoldable pub setup_metrics : Dispatcher Handler → Dispatcher Handler
unfolding subscribe
setup_metrics d = subscribe Handler.on_expiring (some (codes "certificate_expiring")) (
    subscribe Handler.on_failed (some (codes "challenge_failed")) (
      subscribe Handler.on_renewed (some (codes "certificate_renewed"))
        (subscribe Handler.on_issued (some (codes "certificate_issued")) d)))

unfoldable pub emit_all : Dispatcher Handler → List Event → MetricsCollector → MetricsCollector
unfolding emit
emit_all d [] c = c
emit_all d (event ∷ events) c = emit_all d events (emit {E = Unit} invoke_handler d event c)

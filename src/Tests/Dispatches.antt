-- ===== src/Tests/Dispatches.antt =====
-- A run of the dispatcher, with callbacks that log their names.
use lacme.Tests.Program.{program}
use lacme.Prelude.{
  ◌≡◌, refl, Bool, not, Option, none, some, List, [], ◌∷◌, ◌++◌, filter, Str, str_eq, str_Eq,
}
use lacme.Prelude.Text.{codes}
use lacme.Events.{Event, new_dispatcher, invoke_each, emit, emit_sync}
use lacme.Events.Subscriptions.{
  Registration, subscribed, unsubscribed, register_all, heard, all_heard_by, emit-heard,
}

abbrev write_name : Str → Event → List Str → Option (Unit {0}) × List Str
write_name cb event log = (some tt, log ++ cb ∷ [])

abbrev registrations : List (Registration Str)
registrations =
    subscribed (codes "all") none
    ∷ subscribed (codes "gone") (some (codes "ca_initialized"))
    ∷ subscribed (codes "async") (some (codes "ca_initialized"))
    ∷ subscribed (codes "ca") (some (codes "ca_initialized"))
    ∷ subscribed (codes "other") (some (codes "challenge_failed"))
    ∷ unsubscribed (codes "gone")
    ∷ []

abbrev initialized : Event
initialized = Event.certificate_authority_initialized (codes "CA") 9

-- The callbacks that run, though each of them raises.
heard_names :
    emit write_name (register_all registrations new_dispatcher) initialized []
    ≡ codes "async" ∷ codes "ca" ∷ codes "all" ∷ []
unfolding program
heard_names = refl

abbrev is_named_async : Str → Bool
is_named_async cb = str_eq cb (codes "async")

emit-heard_example :
    (emit write_name (register_all registrations new_dispatcher) initialized []
      ≡ invoke_each write_name (heard initialized (all_heard_by registrations [])) initialized [])
    × (emit_sync write_name is_named_async
          (register_all registrations new_dispatcher)
          initialized
          []
        ≡ invoke_each write_name
            (filter
              (λ cb. not (is_named_async cb))
              (heard initialized (all_heard_by registrations [])))
            initialized
            [])
emit-heard_example = emit-heard write_name registrations initialized is_named_async []

-- ===== src/Events.antt =====
-- events.py: the events, and `EventDispatcher`. A type of events stands for itself by its name in
-- `_EVENT_NAMES`. The log is not modelled.
pub mod Subscriptions
use lacme.Prelude.{
  ℕ, Bool, true, false, not, Option, none, some, List, [], ◌∷◌, ◌++◌, filter, Str, str_Eq, Eq,
  if◌then◌else◌,
}
use lacme.Prelude.Text.{codes}
use lacme.Prelude.Dict
use lacme.Prelude.Dict.{Dict}

pub data Event : Type 0 where
  certificate_issued : (domain : Str) (domains : List Str) (expires_at : ℕ) → Event
  certificate_renewed :
      (domain : Str) (domains : List Str) (expires_at previous_expires_at : ℕ) → Event
  certificate_expiring : (domain : Str) (domains : List Str) (expires_at days_remaining : ℕ) → Event
  challenge_failed : (domain challenge_type error : Str) → Event
  rate_limit_warning : (registered_domain : Str) (current_count limit window_hours : ℕ) → Event
  certificate_authority_initialized : (cn : Str) (expires_at : ℕ) → Event
  ca_certificate_issued :
      (name : Str) (names : List Str) (is_client : Bool) (expires_at : ℕ) → Event

-- `_EVENT_NAMES[type(event)]`
unfoldable pub event_name : Event → Str
event_name (Event.certificate_issued domain domains expires_at) = codes "certificate_issued"
event_name (Event.certificate_renewed domain domains expires_at previous) =
    codes "certificate_renewed"
event_name (Event.certificate_expiring domain domains expires_at days) =
    codes "certificate_expiring"
event_name (Event.challenge_failed domain kind error) = codes "challenge_failed"
event_name (Event.rate_limit_warning domain count limit hours) = codes "rate_limit_warning"
event_name (Event.certificate_authority_initialized cn expires_at) = codes "ca_initialized"
event_name (Event.ca_certificate_issued n names is_client expires_at) =
    codes "ca_certificate_issued"

module _ (Cb : Type 0) where
  -- `_typed` and `_global`
  pub record Dispatcher : Type 0 where
    pub typed : Dict Str (List Cb)
    pub everything : List Cb

abbrev pub new_dispatcher : {Cb : Type 0} → Dispatcher Cb
new_dispatcher = record { typed = []; everything = [] }

abbrev pub or_empty {ℓ} : {A : Type ℓ} → Option (List A) → List A
or_empty none = []
or_empty (some l) = l

unfoldable pub subscribe : {Cb : Type 0} → Cb → Option Str → Dispatcher Cb → Dispatcher Cb
unfolding Dict.get Dict.put
subscribe cb none d = record d { everything = d.everything ++ cb ∷ [] }
subscribe cb (some kind) d = record d {
  typed = Dict.put d.typed kind (or_empty (Dict.get d.typed kind) ++ cb ∷ []);
}

module _ {Cb : Type 0} ⦃e : Eq Cb⦄ where
  unfoldable pub without : Cb → List Cb → List Cb
  unfolding filter
  without cb cbs = filter (λ other. not (e.beq other cb)) cbs

  unfoldable pub without_each : Cb → Dict Str (List Cb) → Dict Str (List Cb)
  without_each cb [] = []
  without_each cb ((kind, cbs) ∷ typed) = (kind, without cb cbs) ∷ without_each cb typed

  unfoldable pub unsubscribe : Cb → Dispatcher Cb → Dispatcher Cb
  unfolding without without_each
  unsubscribe cb d = record {
    typed = without_each cb d.typed;
    everything = without cb d.everything;
  }

-- the callbacks that `emit` takes under the lock
unfoldable pub callbacks_for : {Cb : Type 0} → Dispatcher Cb → Event → List Cb
unfolding Dict.get event_name
callbacks_for d event = or_empty (Dict.get d.typed (event_name event)) ++ d.everything

module _ {Cb W E : Type 0} (invoke : Cb → Event → W → Option E × W) where
  -- An exception of a callback (`some`) is logged, and the loop goes on.
  unfoldable pub invoke_each : List Cb → Event → W → W
  invoke_each [] event w = w
  invoke_each (cb ∷ cbs) event w = invoke_each cbs event (invoke cb event w).1

  unfoldable pub emit : Dispatcher Cb → Event → W → W
  unfolding callbacks_for invoke_each
  emit d event w = invoke_each (callbacks_for d event) event w

  -- `emit_sync`, which skips the coroutine functions
  unfoldable pub invoke_sync : (Cb → Bool) → List Cb → Event → W → W
  invoke_sync is_async [] event w = w
  invoke_sync is_async (cb ∷ cbs) event w =
      invoke_sync is_async cbs event (if is_async cb then w else (invoke cb event w).1)

  unfoldable pub emit_sync : (Cb → Bool) → Dispatcher Cb → Event → W → W
  unfolding callbacks_for invoke_sync
  emit_sync is_async d event w = invoke_sync is_async (callbacks_for d event) event w

-- ===== src/Events/Subscriptions.antt =====
-- Who hears an event: the dispatcher against a plain list of subscriptions.
use lacme.Prelude.{
  ◌≡◌, refl, sym, ap, ◌∙◌, subst, Bool, true, false, not, Bool-cases, inl, inr, Option, none, some,
  List, [], ◌∷◌, ◌++◌, filter, Str, str_eq, str_eq_iff, str_Eq, Eq, if◌then◌else◌, arith,
}
use lacme.Prelude.Dict
use lacme.Prelude.Dict.{Dict}
use lacme.Events.{
  Event, event_name, Dispatcher, new_dispatcher, or_empty, subscribe, without, without_each,
  unsubscribe, callbacks_for, invoke_each, emit, invoke_sync, emit_sync,
}

-- A call that changes the subscriptions.
pub data Registration (Cb : Type 0) : Type 0 where
  subscribed : Cb → Option Str → Registration Cb
  unsubscribed : Cb → Registration Cb

-- The subscriptions in the order in which they were made, each with the type that it is for.
abbrev pub Subscriptions : Type 0 → Type 0
Subscriptions Cb = List (Option Str × Cb)

-- whether a subscription is for the type, or for all events if there is none
abbrev pub is_for : Option Str → Option Str → Bool
is_for none none = true
is_for none (some k) = false
is_for (some k) none = false
is_for (some j) (some k) = str_eq j k

module _ {Cb : Type 0} where
  unfoldable pub subscribers : Option Str → Subscriptions Cb → List Cb
  subscribers kind [] = []
  subscribers kind ((wanted, cb) ∷ subs) =
      let rest = subscribers kind subs in if is_for wanted kind then cb ∷ rest else rest

  -- the callbacks that hear an event, in their order
  abbrev pub heard : Event → Subscriptions Cb → List Cb
  heard event subs = subscribers (some (event_name event)) subs ++ subscribers none subs

  subscribers-append :
      (kind wanted : Option Str) (cb : Cb) (subs : Subscriptions Cb)
      → subscribers kind (subs ++ (wanted, cb) ∷ [])
        ≡ (if is_for wanted kind then subscribers kind subs ++ cb ∷ [] else subscribers kind subs)
  unfolding subscribers
  subscribers-append kind wanted cb [] = refl
  subscribers-append kind wanted cb ((other, c) ∷ subs) =
      ground (arith, subscribers-append kind wanted cb subs)

  module _ ⦃e : Eq Cb⦄ where
    unfoldable pub heard_by : Registration Cb → Subscriptions Cb → Subscriptions Cb
    unfolding filter
    heard_by (subscribed cb kind) subs = subs ++ (kind, cb) ∷ []
    heard_by (unsubscribed cb) subs = filter (λ sub. not (e.beq sub.1 cb)) subs

    unfoldable pub all_heard_by : List (Registration Cb) → Subscriptions Cb → Subscriptions Cb
    unfolding heard_by
    all_heard_by [] subs = subs
    all_heard_by (r ∷ rs) subs = all_heard_by rs (heard_by r subs)

    unfoldable pub register : Registration Cb → Dispatcher Cb → Dispatcher Cb
    unfolding subscribe unsubscribe
    register (subscribed cb kind) d = subscribe cb kind d
    register (unsubscribed cb) d = unsubscribe cb d

    unfoldable pub register_all : List (Registration Cb) → Dispatcher Cb → Dispatcher Cb
    unfolding register
    register_all [] d = d
    register_all (r ∷ rs) d = register_all rs (register r d)

    subscribers-without :
        (kind : Option Str) (cb : Cb) (subs : Subscriptions Cb)
        → subscribers kind (filter (λ sub. not (e.beq sub.1 cb)) subs)
          ≡ without cb (subscribers kind subs)
    unfolding subscribers filter without
    subscribers-without kind cb [] = refl
    subscribers-without kind cb ((wanted, c) ∷ subs) =
        ground (arith, subscribers-without kind cb subs)

    get-without_each :
        (cb : Cb) (typed : Dict Str (List Cb)) (kind : Str)
        → or_empty (Dict.get (without_each cb typed) kind)
          ≡ without cb (or_empty (Dict.get typed kind))
    unfolding Dict.get without_each without filter
    get-without_each cb [] kind = refl
    get-without_each cb ((j, cbs) ∷ typed) kind = elim (Bool-cases (str_eq j kind)) [
      | inl same ↦ rw same refl
      | inr other ↦ rw other (get-without_each cb typed kind)
    ]

    -- The dispatcher holds the subscriptions.
    abbrev Holds : Dispatcher Cb → Subscriptions Cb → Type 0
    Holds d subs =
        ((kind : Str) → or_empty (Dict.get d.typed kind) ≡ subscribers (some kind) subs)
        × (d.everything ≡ subscribers none subs)

    register-Holds :
        (r : Registration Cb) (d : Dispatcher Cb) (subs : Subscriptions Cb)
        → Holds d subs
        → Holds (register r d) (heard_by r subs)
    unfolding register heard_by subscribe unsubscribe
    register-Holds (subscribed cb none) d subs (typed, everything) = (
      λ kind. typed kind ∙ sym (subscribers-append (some kind) none cb subs),
      ap (λ l. l ++ cb ∷ []) everything ∙ sym (subscribers-append none none cb subs),
    )
    register-Holds (subscribed cb (some k)) d subs (typed, everything) = (
      λ kind.
          rw (Dict.get-put d.typed k kind _, subscribers-append (some kind) (some k) cb subs)
            (elim (Bool-cases (str_eq k kind)) [
              | inl same ↦ rw same (
                  ap (λ l. l ++ cb ∷ [])
                    (subst (λ j. or_empty (Dict.get d.typed j) ≡ subscribers (some kind) subs)
                      (sym ((str_eq_iff k kind).0 same)) (typed kind)))
              | inr other ↦ rw other (typed kind)
            ]),
      everything ∙ sym (subscribers-append none (some k) cb subs),
    )
    register-Holds (unsubscribed cb) d subs (typed, everything) = (
      λ kind.
          get-without_each cb d.typed kind
          ∙ ap (without cb) (typed kind)
          ∙ sym (subscribers-without (some kind) cb subs),
      ap (without cb) everything ∙ sym (subscribers-without none cb subs),
    )

    register_all-Holds :
        (rs : List (Registration Cb)) (d : Dispatcher Cb) (subs : Subscriptions Cb)
        → Holds d subs
        → Holds (register_all rs d) (all_heard_by rs subs)
    unfolding register_all all_heard_by
    register_all-Holds [] d subs h = h
    register_all-Holds (r ∷ rs) d subs h =
        register_all-Holds rs (register r d) (heard_by r subs) (register-Holds r d subs h)

    callbacks_for-heard :
        (rs : List (Registration Cb)) (event : Event)
        → callbacks_for (register_all rs new_dispatcher) event ≡ heard event (all_heard_by rs [])
    unfolding callbacks_for subscribers
    callbacks_for-heard rs event =
        let (typed, everything) = register_all-Holds rs new_dispatcher [] (λ kind. refl, refl) in
        cc (typed (event_name event), everything)

    module _ {W E : Type 0} (invoke : Cb → Event → W → Option E × W) where
      invoke_sync-filter :
          (is_async : Cb → Bool) (cbs : List Cb) (event : Event) (w : W)
          → invoke_sync invoke is_async cbs event w
            ≡ invoke_each invoke (filter (λ cb. not (is_async cb)) cbs) event w
      unfolding invoke_sync invoke_each filter
      invoke_sync-filter is_async [] event w = refl
      invoke_sync-filter is_async (cb ∷ cbs) event w = elim (Bool-cases (is_async cb)) [
        | inl async ↦ rw (async, filter) (invoke_sync-filter is_async cbs event w)
        | inr plain ↦ rw (plain, filter) (invoke_sync-filter is_async cbs event _)
      ]

      -- After any sequence of subscriptions and removals from an empty dispatcher, `emit` runs the
      -- callbacks subscribed to the event's type, in the order of their subscriptions, and then those
      -- subscribed to all events, in theirs, whichever of them raises; `emit_sync` runs those of them that
      -- are no coroutine functions, in the same order.
      pub emit-heard :
          (rs : List (Registration Cb)) (event : Event) (is_async : Cb → Bool) (w : W)
          → (emit invoke (register_all rs new_dispatcher) event w
              ≡ invoke_each invoke (heard event (all_heard_by rs [])) event w)
            × (emit_sync invoke is_async (register_all rs new_dispatcher) event w
                ≡ invoke_each invoke
                    (filter (λ cb. not (is_async cb)) (heard event (all_heard_by rs [])))
                    event
                    w)
      unfolding emit emit_sync
      emit-heard rs event is_async w =
          rw (callbacks_for-heard rs event) (refl, invoke_sync-filter is_async _ event w)

-- ===== src/Client/Polling.antt =====
-- `poll_authorization`, `poll_order` and `_poll_order_ready`. Times are in milliseconds.
pub mod Ends
use lacme.Prelude.{
  ℕ, ◌+◌, ◌-◌, ◌*◌, Bool, true, false, Option, none, some, List, [], ◌∷◌, leb, if◌then◌else◌,
}

-- lacme/models.py
pub data AuthorizationStatus : Type 0 where
  pending valid invalid deactivated expired revoked : AuthorizationStatus

pub data OrderStatus : Type 0 where
  pending ready processing valid invalid : OrderStatus

-- What a status means to the loop: it returns, it raises an ACMEValidationError, or it goes on.
pub data Verdict : Type 0 where
  accept refuse wait : Verdict

abbrev pub authorization_verdict : AuthorizationStatus → Verdict
authorization_verdict AuthorizationStatus.pending = wait
authorization_verdict AuthorizationStatus.valid = accept
authorization_verdict AuthorizationStatus.invalid = refuse
authorization_verdict AuthorizationStatus.deactivated = refuse
authorization_verdict AuthorizationStatus.expired = refuse
authorization_verdict AuthorizationStatus.revoked = refuse

abbrev pub order_verdict : OrderStatus → Verdict
order_verdict OrderStatus.pending = wait
order_verdict OrderStatus.ready = wait
order_verdict OrderStatus.processing = wait
order_verdict OrderStatus.valid = accept
order_verdict OrderStatus.invalid = refuse

abbrev pub ready_verdict : OrderStatus → Verdict
ready_verdict OrderStatus.pending = wait
ready_verdict OrderStatus.ready = accept
ready_verdict OrderStatus.processing = accept
ready_verdict OrderStatus.valid = accept
ready_verdict OrderStatus.invalid = refuse

-- What one round meets: how long the request takes, the status in its response, the Retry-After header if
-- `_parse_retry_after` can read it, the time between the two readings of the clock, and by how much
-- the sleep is too long.
pub record Round (A : Type 0) : Type 0 where
  pub took : ℕ
  pub status : A
  pub retry_after : Option ℕ
  pub between : ℕ
  pub overslept : ℕ

-- How the loop ends. `unfinished` is no end: there are no rounds left.
pub data PollOutcome (A : Type 0) : Type 0 where
  returned : A → PollOutcome A
  validation_error : A → PollOutcome A
  timed_out : A → PollOutcome A
  unfinished : PollOutcome A

abbrev pub max : ℕ → ℕ → ℕ
max a b = if leb a b then b else a

abbrev pub min : ℕ → ℕ → ℕ
min a b = if leb a b then a else b

-- `max(1.0, parsed)`, or the poll interval
abbrev pub wanted_delay : ℕ → Option ℕ → ℕ
wanted_delay interval none = interval
wanted_delay interval (some parsed) = max 1000 parsed

-- `min(delay, max(0.1, remaining))`; where `remaining` is negative, it is 0 here, and 0.1 is the greater
-- in either case
abbrev pub sleep_time : (timeout interval : ℕ) → Option ℕ → (elapsed : ℕ) → ℕ
sleep_time timeout interval retry_after elapsed =
    min (wanted_delay interval retry_after) (max 100 (timeout - elapsed))

module _ {A : Type 0} (verdict : A → Verdict) (timeout interval : ℕ) where
  -- the loop, with the time elapsed since `start`
  unfoldable pub poll : ℕ → List (Round A) → PollOutcome A
  poll elapsed [] = unfinished
  poll elapsed (r ∷ rounds) =
      let now = elapsed + r.took in
      let later = now + r.between in
      let rest =
        poll (later + sleep_time timeout interval r.retry_after later + r.overslept) rounds in
      elim (verdict r.status) [
        | accept ↦ returned r.status
        | refuse ↦ validation_error r.status
        | wait ↦ if leb timeout now then timed_out r.status else rest
      ]

unfoldable pub poll_authorization :
    ℕ → ℕ → List (Round AuthorizationStatus) → PollOutcome AuthorizationStatus
unfolding poll
poll_authorization timeout interval rounds = poll authorization_verdict timeout interval 0 rounds

unfoldable pub poll_order : ℕ → ℕ → List (Round OrderStatus) → PollOutcome OrderStatus
unfolding poll
poll_order timeout interval rounds = poll order_verdict timeout interval 0 rounds

unfoldable pub poll_order_ready : ℕ → ℕ → List (Round OrderStatus) → PollOutcome OrderStatus
unfolding poll
poll_order_ready timeout interval rounds = poll ready_verdict timeout interval 0 rounds

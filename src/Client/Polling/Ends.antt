-- ===== src/Client/Polling/Ends.antt =====
-- Every poll ends, and how.
use lacme.Prelude.{
  ℕ, ◌+◌, ◌*◌, ◌≤◌, ◌≡◌, refl, inl, inr, ◌⊎◌, true, Option, none, some, List, [], ◌∷◌, leb, length,
  arith, Bool-cases,
}
use lacme.Client.Polling.{
  Verdict, accept, refuse, wait, Round, PollOutcome, returned, validation_error, timed_out,
  unfinished, sleep_time, poll,
}

sleep_time-least :
    (timeout interval : ℕ) (retry_after : Option ℕ) (elapsed : ℕ)
    → 100 ≤ interval
    → 100 ≤ sleep_time timeout interval retry_after elapsed
sleep_time-least timeout interval none elapsed h = ground arith
sleep_time-least timeout interval (some parsed) elapsed h = ground arith

Verdict-cases : (v : Verdict) → (v ≡ wait) ⊎ ((v ≡ accept) ⊎ (v ≡ refuse))
Verdict-cases wait = inl refl
Verdict-cases accept = inr (inl refl)
Verdict-cases refuse = inr (inr refl)

module _ {A : Type 0} (verdict : A → Verdict) (timeout interval : ℕ) where
  -- The end is right: what is returned was accepted, a validation error is for a refused status, a
  -- timeout is for a status that says to wait.
  abbrev pub IsEnd : PollOutcome A → Type 0
  IsEnd (returned s) = verdict s ≡ accept
  IsEnd (validation_error s) = verdict s ≡ refuse
  IsEnd (timed_out s) = verdict s ≡ wait
  IsEnd unfinished = ⊥

  -- With a poll interval of at least 100 ms, a poll that meets with one round and then one more for
  -- every 100 ms of what is left of the timeout has ended, whatever the server says and however
  -- long requests and sleeps take: it returned an accepted status, raised a validation error for a
  -- refused one, or timed out on one that waits.
  pub poll-IsEnd :
      (elapsed : ℕ) (r : Round A) (rounds : List (Round A))
      → 100 ≤ interval
      → timeout ≤ elapsed + 100 * length rounds
      → IsEnd (poll verdict timeout interval elapsed (r ∷ rounds))
  unfolding poll
  poll-IsEnd elapsed r [] h enough = elim (Verdict-cases (verdict r.status)) [
    | inr (inl p) ↦ rw (p, poll) p
    | inr (inr p) ↦ rw (p, poll) p
    | inl p ↦
        let over : leb timeout (elapsed + r.took) ≡ true = ground arith in rw (p, over, poll) p
  ]
  poll-IsEnd elapsed r (next ∷ rounds) h enough = elim (Verdict-cases (verdict r.status)) [
    | inr (inl p) ↦ rw (p, poll) p
    | inr (inr p) ↦ rw (p, poll) p
    | inl p ↦ elim (Bool-cases (leb timeout (elapsed + r.took))) [
      | inl over ↦ rw (p, over, poll) p
      | inr left ↦
          let later = elapsed + r.took + r.between in
          let slept = sleep_time-least timeout interval r.retry_after later h in
          let now' = later + sleep_time timeout interval r.retry_after later + r.overslept in
          rw (p, left, poll) ((poll-IsEnd now' next rounds h (omega (arith, slept))))
    ]
  ]

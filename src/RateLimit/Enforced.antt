-- ===== src/RateLimit/Enforced.antt =====
-- With `block` on, the limit holds in every window.
use lacme.Prelude.{
  count_of, ℕ, ◌+◌, ◌-◌, ◌≤◌, ◌<◌, ◌≡◌, ◌↔◌, ◌∙◌, refl, sym, inl, inr, Bool, true, false, not, ◌&&◌,
  List, [], ◌∷◌, map, if◌then◌else◌, Str, str_eq, str_eq_iff, arith, Bool-cases, &&-eq-true,
}
use lacme.RateLimit.Sorted.{elem, count_of-sorted_set, elem-sorted_set}
use lacme.RateLimit.Store.{IssuanceRecord}
use lacme.RateLimit.Tracker.{
  RateLimitTracker, registered, registered_of, count_in, is_over, check_each, check, record_each,
  record_issued,
}

-- A run of `Client.issue` as the tracker sees it: the check before the order, and the record after it if
-- the order succeeds.
pub record Issuance : Type 0 where
  pub domains : List Str
  pub checked_at : ℕ
  pub recorded_at : ℕ
  pub succeeds : Bool

module _ {S : Type 0} (t : RateLimitTracker S) where
  unfoldable pub issue : Issuance → S → S
  issue i s =
      if (check t i.checked_at i.domains s).0.allowed && i.succeeds
      then record_issued t i.recorded_at i.domains s
      else s

  unfoldable pub issue_all : List Issuance → S → S
  issue_all [] s = s
  issue_all (i ∷ is) s = issue_all is (issue i s)

  -- The clock never goes back, and it is `last` at the end.
  abbrev pub InOrder : ℕ → List Issuance → ℕ → Type 0
  InOrder now [] last = now ≤ last
  InOrder now (i ∷ is) last =
      (now ≤ i.checked_at) × (i.checked_at ≤ i.recorded_at) × InOrder i.recorded_at is last

  -- what the check says of one domain
  check_each-elem :
      (s : S) (since : ℕ) (rds : List Str) (rd : Str)
      → (check_each t s since rds).0.allowed ≡ true
      → elem rd rds ≡ true
      → is_over t (count_in t s rd since) ≡ false
  unfolding check_each
  check_each-elem s since [] rd h m = cc
  check_each-elem s since (r ∷ rds) rd h m = elim (Bool-cases (str_eq rd r)) [
    | inl same ↦
        let e : rd ≡ r = (str_eq_iff rd r).0 same in
        let (first, rest) =
          &&-eq-true (not (is_over t (count_in t s r since))) (check_each t s since rds).0.allowed
            h in
        rw e (ground arith)
    | inr other ↦
        let (first, rest) =
          &&-eq-true (not (is_over t (count_in t s r since))) (check_each t s since rds).0.allowed
            h in
        check_each-elem s since rds rd rest (ground arith)
  ]

  -- Each round of `record` counts for its own domain, once.
  record_each-count :
      (now : ℕ) (domains rds : List Str) (s : S) (rd : Str) (since : ℕ)
      → since ≤ now
      → now - t.store.retention ≤ since
      → count_in t (record_each t now domains rds s) rd since
        ≡ count_in t s rd since + count_of rd rds
  unfolding record_each count_of
  record_each-count now domains [] s rd since h k = omega arith
  record_each-count now domains (r ∷ rds) s rd since h k =
      let one : IssuanceRecord = record {
        registered_domain = r;
        domains = domains;
        issued_at = now;
      } in
      let s' = t.store.record_issuance now one s in
      let ih = record_each-count now domains rds s' rd since h k in
      let step = t.store.counts_record now one s rd since k in
      ground (arith, ih, step, str_eq_iff rd r, str_eq_iff r rd)

  elem-map :
      (f : Str → Str) (d : Str) (ds : List Str) → elem d ds ≡ true → elem (f d) (map f ds) ≡ true
  elem-map f d [] h = cc
  elem-map f d (e ∷ ds) h = ground (arith, str_eq_iff d e, str_eq_iff (f d) (f e), elem-map f d ds)

  check_each-all :
      (s : S) (since : ℕ) (rds : List Str)
      → ((rd : Str) → elem rd rds ≡ true → is_over t (count_in t s rd since) ≡ false)
      → (check_each t s since rds).0.allowed ≡ true
  unfolding check_each
  check_each-all s since [] h = refl
  check_each-all s since (r ∷ rds) h =
      let first = h r (ground (arith, str_eq_iff r r)) in
      let rest = check_each-all s since rds (λ rd m. h rd (ground arith)) in ground arith

  is_over-false_iff : (count : ℕ) → (is_over t count ≡ false) ↔ (t.block ≡ true → count < t.limit)
  is_over-false_iff count = elim (Bool-cases t.block) [
    | inl blocks ↦
        (λ h b. ground (arith, blocks), λ h. let below = h blocks in ground (arith, blocks))
    | inr never ↦ (λ h b. cc (never, b), λ h. ground (arith, never))
  ]

  -- `check` allows an issuance exactly when, if blocking is on, each registered domain of its names has
  -- fewer records in the window than the limit.
  pub check-allowed_iff :
      (now : ℕ) (domains : List Str) (s : S)
      → ((check t now domains s).0.allowed ≡ true) ↔ (
          (rd : Str)
          → elem rd (map (registered_of t) domains) ≡ true
          → t.block ≡ true
          → count_in t s rd (now - t.window) < t.limit)
  unfolding check registered
  check-allowed_iff now domains s = (
    λ h rd m. (is_over-false_iff (count_in t s rd (now - t.window))).0 (
        check_each-elem s (now - t.window) (registered t domains) rd h
          (elem-sorted_set rd (map (registered_of t) domains) ∙ m)),
    λ h. check_each-all s (now - t.window) (registered t domains) (λ rd m.
        (is_over-false_iff (count_in t s rd (now - t.window))).1
          (h rd (sym (elem-sorted_set rd (map (registered_of t) domains)) ∙ m))),
  )

  -- No domain is over the limit in the window that ends at `now`.
  abbrev pub WithinLimit : S → ℕ → Type 0
  WithinLimit s now = (rd : Str) → count_in t s rd (now - t.window) ≤ t.limit

  WithinLimit-later :
      (s : S) (now later : ℕ) → now ≤ later → WithinLimit s now → WithinLimit s later
  WithinLimit-later s now later h w rd =
      omega
        (arith, w rd, t.store.later_window s rd (now - t.window) (later - t.window) (omega arith))

  module _ (blocks : t.block ≡ true) (kept : t.window ≤ t.store.retention) where
    record_issued-WithinLimit :
        (i : Issuance) (s : S) (now : ℕ)
        → now ≤ i.checked_at
        → i.checked_at ≤ i.recorded_at
        → (check t i.checked_at i.domains s).0.allowed ≡ true
        → WithinLimit s now
        → WithinLimit (record_issued t i.recorded_at i.domains s) i.recorded_at
    unfolding record_issued registered
    record_issued-WithinLimit i s now h k allowed w rd =
        let since = i.recorded_at - t.window in
        let names = map (registered_of t) i.domains in
        let counted =
          record_each-count i.recorded_at i.domains (registered t i.domains) s rd since
            (omega arith) (omega arith) in
        let once = count_of-sorted_set rd names in
        let shrunk = t.store.later_window s rd (i.checked_at - t.window) since (omega arith) in
        elim (Bool-cases (elem rd names)) [
          | inl named ↦
              let below = (check-allowed_iff i.checked_at i.domains s).0 allowed rd named blocks in
              ground (arith, counted, once, shrunk, below, blocks)
          | inr other ↦
              let older = WithinLimit-later s now i.recorded_at (omega arith) w rd in
              ground (arith, counted, once, older)
        ]

    issue-WithinLimit :
        (i : Issuance) (s : S) (now : ℕ)
        → now ≤ i.checked_at
        → i.checked_at ≤ i.recorded_at
        → WithinLimit s now
        → WithinLimit (issue i s) i.recorded_at
    unfolding issue
    issue-WithinLimit i s now h k w =
        elim (Bool-cases ((check t i.checked_at i.domains s).0.allowed && i.succeeds)) [
          | inr stopped ↦ rw stopped (WithinLimit-later s now i.recorded_at (omega arith) w)
          | inl done ↦ rw done (
              record_issued-WithinLimit i s now h k
                (&&-eq-true (check t i.checked_at i.domains s).0.allowed i.succeeds done).0 w)
        ]

    -- If the tracker blocks, its window is no longer than the store's retention, and no registered
    -- domain is over the limit at the start, then after any issuances, checked and recorded one after
    -- another by a clock that never goes back, no registered domain has more records than the limit in
    -- the window that ends then.
    pub issue_all-WithinLimit :
        (is : List Issuance) (s : S) (now last : ℕ)
        → InOrder now is last
        → WithinLimit s now
        → WithinLimit (issue_all is s) last
    unfolding issue_all
    issue_all-WithinLimit [] s now last h w = WithinLimit-later s now last h w
    issue_all-WithinLimit (i ∷ is) s now last (h, k, rest) w =
        issue_all-WithinLimit is (issue i s) i.recorded_at last rest
          (issue-WithinLimit i s now h k w)

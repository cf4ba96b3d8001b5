-- ===== src/RateLimit/Tracker.antt =====
-- `RateLimitTracker`.
use lacme.Prelude.{
  ℕ, ◌-◌, ◌/◌, ◌*◌, Bool, true, not, ◌&&◌, List, [], ◌∷◌, ◌++◌, map, leb, if◌then◌else◌, Str,
  length,
}
use lacme.Prelude.Text.{codes}
use lacme.Prelude.Decimal.{decimal}
use lacme.RateLimit.Sorted.{sorted_set}
use lacme.RateLimit.Store.{RateLimitStore}

pub record RateLimitStatus : Type 0 where
  pub allowed : Bool
  pub counts : List (Str × ℕ)
  pub warnings : List Str

-- the event of lacme/events.py
pub record RateLimitWarning : Type 0 where
  pub registered_domain : Str
  pub current_count : ℕ
  pub limit : ℕ
  pub window_hours : ℕ

-- The arguments of `__init__`. `is_near count limit` is the comparison of floats
-- `count >= self._warn_threshold * limit`, and `lower` is `str.lower`.
pub record RateLimitTracker (S : Type 0) : Type 0 where
  pub store : RateLimitStore S
  pub limit : ℕ
  pub window : ℕ
  pub is_near : ℕ → ℕ → Bool
  pub block : Bool
  pub registered_domain_func : Str → Str
  pub lower : Str → Str
  pub has_dispatcher : Bool

abbrev hour : ℕ
hour = 3600 * 1000000

module _ {S : Type 0} (t : RateLimitTracker S) where
  abbrev pub registered_of : Str → Str
  registered_of d = t.lower (t.registered_domain_func d)

  unfoldable pub registered : List Str → List Str
  registered domains = sorted_set (map registered_of domains)

  abbrev pub count_in : S → Str → ℕ → ℕ
  count_in s rd since = length (t.store.get_issuances s rd since)

  abbrev pub is_over : ℕ → Bool
  is_over count = leb t.limit count && t.block

  -- `f"{rd}: {count}/{self._limit} certificates issued in window ({what})"`
  abbrev warning_text : Str → ℕ → Str → Str
  warning_text rd count what =
      rd
      ++ codes ": "
      ++ decimal count
      ++ codes "/"
      ++ decimal t.limit
      ++ codes " certificates issued in window ("
      ++ what
      ++ codes ")"

  unfoldable pub warnings_for : Str → ℕ → List Str
  warnings_for rd count =
      if is_over count
      then warning_text rd count (codes "blocked") ∷ []
      else if t.is_near count t.limit
      then warning_text rd count (codes "warning") ∷ []
      else []

  unfoldable pub events_for : Str → ℕ → List RateLimitWarning
  events_for rd count =
      if t.is_near count t.limit && t.has_dispatcher
      then record {
        registered_domain = rd;
        current_count = count;
        limit = t.limit;
        window_hours = t.window / hour;
      }
        ∷ []
      else []

  -- the loop of `check`: the status, and the events in the order of their emission
  unfoldable pub check_each : S → ℕ → List Str → RateLimitStatus × List RateLimitWarning
  check_each s since [] = (record { allowed = true; counts = []; warnings = [] }, [])
  check_each s since (rd ∷ rds) =
      let count = count_in s rd since in
      let (rest, events) = check_each s since rds in
      (
        record {
          allowed = not (is_over count) && rest.allowed;
          counts = (rd, count) ∷ rest.counts;
          warnings = warnings_for rd count ++ rest.warnings;
        },
        events_for rd count ++ events,
      )

  unfoldable pub check : ℕ → List Str → S → RateLimitStatus × List RateLimitWarning
  check now domains s = check_each s (now - t.window) (registered domains)

  -- the loop of `record`
  unfoldable pub record_each : ℕ → List Str → List Str → S → S
  record_each now domains [] s = s
  record_each now domains (rd ∷ rds) s = record_each now domains rds (
      t.store.record_issuance now
        (record { registered_domain = rd; domains = domains; issued_at = now }) s)

  unfoldable pub record_issued : ℕ → List Str → S → S
  record_issued now domains s = record_each now domains (registered domains) s

-- ===== src/Tests/Limits.antt =====
-- Runs of the rate limiter.
use lacme.Prelude.{
  ℕ, ◌+◌, ◌-◌, ◌*◌, ◌≡◌, ◌<◌, ◌↔◌, refl, true, false, List, [], ◌∷◌, ◌++◌, map, leb, Str, arith,
}
use lacme.Prelude.Text.{codes, lower, starts_with}
use lacme.RateLimit.Domains.{default_registered_domain, default_registered_domain-wildcard}
use lacme.RateLimit.Sorted.{elem}
use lacme.RateLimit.Store.{IssuanceRecord, file_store, week}
use lacme.RateLimit.Tracker.{RateLimitTracker, check, count_in, registered_of}
use lacme.RateLimit.Enforced.{
  Issuance, issue_all, InOrder, WithinLimit, check-allowed_iff, issue_all-WithinLimit,
}
use lacme.Tests.Program.{program}

-- at most one certificate a week
abbrev tracker : RateLimitTracker (List IssuanceRecord)
tracker = record {
  store = file_store;
  limit = 1;
  window = week;
  is_near = λ count limit. leb limit count;
  block = true;
  registered_domain_func = default_registered_domain;
  lower = lower;
  has_dispatcher = true;
}

-- two names of one domain, and then a third two days later
abbrev issuances : List Issuance
issuances =
    record {
      domains = codes "a.example.co.uk" ∷ codes "*.example.co.uk" ∷ [];
      checked_at = 2 * week;
      recorded_at = 2 * week + 1;
      succeeds = true;
    }
    ∷ record {
      domains = codes "b.example.co.uk" ∷ [];
      checked_at = 2 * week + 2;
      recorded_at = 2 * week + 3;
      succeeds = true;
    }
    ∷ []

abbrev end_time : ℕ
end_time = 2 * week + 4

one_counted : count_in tracker (issue_all tracker issuances []) (codes "example.co.uk") week ≡ 1
unfolding program
one_counted = refl

in_order : InOrder tracker 0 issuances end_time
in_order = (omega arith, omega arith, (omega arith, omega arith, omega arith))

none_yet : WithinLimit tracker [] 0
unfolding program
none_yet = λ rd. omega arith

issue_all-WithinLimit_example : WithinLimit tracker (issue_all tracker issuances []) end_time
issue_all-WithinLimit_example =
    issue_all-WithinLimit tracker refl (omega arith) issuances [] 0 end_time in_order none_yet

check-allowed_iff_example : ((check tracker end_time (codes "a.io" ∷ []) []).0.allowed ≡ true) ↔ (
    (rd : Str)
    → elem rd (map (registered_of tracker) (codes "a.io" ∷ [])) ≡ true
    → tracker.block ≡ true
    → count_in tracker [] rd (end_time - week) < tracker.limit)
check-allowed_iff_example = check-allowed_iff tracker end_time (codes "a.io" ∷ []) []

plain_name : starts_with (lower (codes "Example.co.uk")) (codes "*.") ≡ false
unfolding program
plain_name = refl

default_registered_domain-wildcard_example :
    default_registered_domain (codes "*." ++ codes "Example.co.uk")
    ≡ default_registered_domain (codes "Example.co.uk")
default_registered_domain-wildcard_example =
    default_registered_domain-wildcard (codes "Example.co.uk") plain_name

domains :
    (default_registered_domain (codes "*.example.com") ≡ codes "example.com")
    × (default_registered_domain (codes "www.example.com") ≡ codes "example.com")
    × (default_registered_domain (codes "foo.co.uk") ≡ codes "foo.co.uk")
unfolding program
domains = (refl, refl, refl)

-- ===== src/RateLimit.antt =====
-- lacme/ratelimit.py: how many certificates were issued for a registered domain in a window of time.
-- Times and durations are counted in microseconds, times from the calendar's start.
pub mod Domains
pub mod Sorted
pub mod Store
pub mod Tracker
pub mod Enforced

-- ===== src/RateLimit/Store.antt =====
-- `RateLimitStore`, with the laws that the tracker relies on, and its two implementations.
use lacme.Prelude.{
  one_if, ℕ, ◌+◌, ◌-◌, ◌*◌, ◌≤◌, ◌≡◌, ◌∙◌, refl, ap, Bool, ◌&&◌, List, [], ◌∷◌, ◌++◌, leb, filter,
  length, Str, str_eq, arith,
}

pub record IssuanceRecord : Type 0 where
  pub registered_domain : Str
  pub domains : List Str
  pub issued_at : ℕ

-- the condition of both `get_issuances`
abbrev pub matches : Str → ℕ → IssuanceRecord → Bool
matches rd since r = str_eq r.registered_domain rd && leb since r.issued_at

-- The protocol `RateLimitStore`, on stores of type `S`. `now` is the clock at the time of the call. A
-- record is counted as long as the window reaches back no further than `retention`.
pub record RateLimitStore (S : Type 0) : Type 0 where
  pub record_issuance : ℕ → IssuanceRecord → S → S
  pub get_issuances : S → Str → ℕ → List IssuanceRecord
  pub retention : ℕ
  pub counts_record :
      (now : ℕ) (r : IssuanceRecord) (s : S) (rd : Str) (since : ℕ)
      → now - retention ≤ since
      → length (get_issuances (record_issuance now r s) rd since)
        ≡ length (get_issuances s rd since) + one_if (matches rd since r)
  pub later_window :
      (s : S) (rd : Str) (since since' : ℕ)
      → since ≤ since'
      → length (get_issuances s rd since') ≤ length (get_issuances s rd since)

-- `datetime.timedelta(weeks=1)`
abbrev pub week : ℕ
week = 7 * 24 * 3600 * 1000000

abbrev pub memory_get : List IssuanceRecord → Str → ℕ → List IssuanceRecord
memory_get records rd since = filter (matches rd since) records

-- `MemoryRateLimitStore.record_issuance`
abbrev pub memory_record : ℕ → IssuanceRecord → List IssuanceRecord → List IssuanceRecord
memory_record now r records = records ++ r ∷ []

-- `_save`: what it writes
unfoldable pub pruned : ℕ → List IssuanceRecord → List IssuanceRecord
pruned now records = filter (λ r. leb (now - week) r.issued_at) records

-- `FileRateLimitStore.record_issuance`, on the records that the file holds
unfoldable pub file_record : ℕ → IssuanceRecord → List IssuanceRecord → List IssuanceRecord
unfolding pruned
file_record now r records = pruned now (records ++ r ∷ [])

pub length-filter-snoc :
    (p : IssuanceRecord → Bool) (records : List IssuanceRecord) (r : IssuanceRecord)
    → length (filter p (records ++ r ∷ [])) ≡ length (filter p records) + one_if (p r)
unfolding filter
length-filter-snoc p [] r = ground arith
length-filter-snoc p (q ∷ records) r = ground (arith, length-filter-snoc p records r)

pub later_window_lem :
    (records : List IssuanceRecord) (rd : Str) (since since' : ℕ)
    → since ≤ since'
    → length (memory_get records rd since') ≤ length (memory_get records rd since)
unfolding filter
later_window_lem [] rd since since' h = omega arith
later_window_lem (r ∷ records) rd since since' h =
    ground (arith, later_window_lem records rd since since' h)

-- Pruning removes nothing that such a window would count.
memory_get-pruned :
    (now : ℕ) (records : List IssuanceRecord) (rd : Str) (since : ℕ)
    → now - week ≤ since
    → memory_get (pruned now records) rd since ≡ memory_get records rd since
unfolding pruned filter
memory_get-pruned now [] rd since h = refl
memory_get-pruned now (r ∷ records) rd since h =
    ground (arith, memory_get-pruned now records rd since h)

-- `MemoryRateLimitStore` forgets nothing; any retention would do.
abbrev pub memory_store : RateLimitStore (List IssuanceRecord)
memory_store = record {
  record_issuance = memory_record;
  get_issuances = memory_get;
  retention = week;
  counts_record = λ now r s rd since h. length-filter-snoc (matches rd since) s r;
  later_window = later_window_lem;
}

pub file_record-counts :
    (now : ℕ) (r : IssuanceRecord) (s : List IssuanceRecord) (rd : Str) (since : ℕ)
    → now - week ≤ since
    → length (memory_get (file_record now r s) rd since)
      ≡ length (memory_get s rd since) + one_if (matches rd since r)
unfolding file_record
file_record-counts now r s rd since h =
    ap length (memory_get-pruned now (s ++ r ∷ []) rd since h)
    ∙ length-filter-snoc (matches rd since) s r

-- `FileRateLimitStore` keeps a week.
abbrev pub file_store : RateLimitStore (List IssuanceRecord)
file_store = record {
  record_issuance = file_record;
  get_issuances = memory_get;
  retention = week;
  counts_record = file_record-counts;
  later_window = later_window_lem;
}

-- ===== src/Identity/RateLimit.antt =====
-- The limiter of authentication requests, backend/app/modules/identity/rate_limit.py. What Redis
-- answers is an argument: the counts of its script, or none where it fails; the script and the
-- table of the fallback count alike, and the table is modelled.
pub mod Window
mod Tests
use wheelmatch.Base.{
  ℕ, suc, ◌+◌, ◌*◌, Bool, true, false, not, ◌&&◌, ◌||◌, Option, none, some, List, [], ◌∷◌, ◌++◌,
  ◌==◌, ltb, leb, if◌then◌else◌, map, find, any, update_where, Result, ok, err,
}

pub record RateLimitRule : Type 0 where
  pub scope : ℕ
  pub limit : ℕ
  pub window_seconds : ℕ

-- a row of `rate_limit_buckets`, unique by scope and subject
pub record RateLimitBucket : Type 0 where
  pub scope : ℕ
  pub subject_hash : ℕ
  pub request_count : ℕ
  pub window_expires_at : ℕ

pub data ErrorCode : Type 0 where
  auth_rate_limited auth_rate_limit_unavailable : ErrorCode

abbrev pub has_key : ℕ → ℕ → RateLimitBucket → Bool
has_key scope subject_hash row = row.scope == scope && row.subject_hash == subject_hash

abbrev pub window_end : RateLimitRule → ℕ → ℕ
window_end rule now = now + rule.window_seconds * 1000000

-- the update of a row that is there
abbrev pub counted : RateLimitRule → ℕ → RateLimitBucket → RateLimitBucket
counted rule now row =
    if leb row.window_expires_at now
    then record row { request_count = 1; window_expires_at = window_end rule now }
    else record row { request_count = suc row.request_count }

abbrev pub upsert_found :
    RateLimitRule → ℕ → ℕ → Option RateLimitBucket → List RateLimitBucket → ℕ × List RateLimitBucket
upsert_found rule now subject_hash none rows = (
  1,
  rows
      ++ record {
        scope = rule.scope;
        subject_hash = subject_hash;
        request_count = 1;
        window_expires_at = window_end rule now;
      }
        ∷ [],
)
upsert_found rule now subject_hash (some row) rows = (
  (counted rule now row).request_count,
  update_where (has_key rule.scope subject_hash) (counted rule now) rows,
)

-- `INSERT … ON CONFLICT DO UPDATE … RETURNING request_count`
pub upsert : RateLimitRule → ℕ → ℕ → List RateLimitBucket → ℕ × List RateLimitBucket
upsert rule now subject_hash rows =
    upsert_found rule now subject_hash (find (has_key rule.scope subject_hash) rows) rows

pub enforce_database_fallback :
    RateLimitRule → ℕ → List ℕ → List RateLimitBucket → List ℕ × List RateLimitBucket
enforce_database_fallback rule now [] rows = ([], rows)
enforce_database_fallback rule now (subject_hash ∷ rest) rows =
    let (count, next) = upsert rule now subject_hash rows in
    let (counts, last) = enforce_database_fallback rule now rest next in (count ∷ counts, last)

-- `dict.fromkeys`: the subjects without repetitions, in order of their first occurrence
pub from_keys : List ℕ → List ℕ → List ℕ
from_keys seen [] = []
from_keys seen (x ∷ xs) =
    let rest = from_keys (x ∷ seen) xs in
    if any (λ y. y == x) seen then from_keys seen xs else x ∷ rest

abbrev pub over : RateLimitRule → List ℕ → Bool
over rule counts = any (λ count. ltb rule.limit count) counts

abbrev pub judge : RateLimitRule → List ℕ → Result ErrorCode Unit
judge rule counts = if over rule counts then err auth_rate_limited else ok tt

abbrev pub fall_back :
    RateLimitRule
    → ℕ
    → Bool
    → List ℕ
    → List RateLimitBucket
    → Result ErrorCode Unit × List RateLimitBucket
fall_back rule now false subject_hashes rows = (err auth_rate_limit_unavailable, rows)
fall_back rule now true subject_hashes rows =
    let (counts, next) = enforce_database_fallback rule now subject_hashes rows in
    (judge rule counts, next)

-- `available` is whether the fallback's transaction succeeds.
pub enforce :
    RateLimitRule
    → ℕ
    → (ℕ → ℕ)
    → Option (List ℕ)
    → Bool
    → List ℕ
    → List RateLimitBucket
    → Result ErrorCode Unit × List RateLimitBucket
enforce rule now digest (some counts) available subjects rows = (judge rule counts, rows)
enforce rule now digest none available subjects rows =
    fall_back rule now available (map digest (from_keys [] subjects)) rows

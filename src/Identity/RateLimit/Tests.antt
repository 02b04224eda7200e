-- ===== src/Identity/RateLimit/Tests.antt =====
-- Three requests of a subject under a limit of two, one of them with another subject.
use wheelmatch.Base.{ℕ, suc, ◌≡◌, refl, true, none, List, [], ◌∷◌, err, arith}
use wheelmatch.Identity.RateLimit.{RateLimitRule, RateLimitBucket, auth_rate_limited, enforce}
use wheelmatch.Identity.RateLimit.Window.{Request, requests, requests-enforce}

abbrev login_rule : RateLimitRule
login_rule = record { scope = 1; limit = 2; window_seconds = 60 }

abbrev between : List Request
between = record { now = 10; subjects = 7 ∷ 5 ∷ [] } ∷ record { now = 15; subjects = 7 ∷ [] } ∷ []

-- a window of the subject that has ended
abbrev ended : RateLimitBucket
ended = record { scope = 1; subject_hash = 6; request_count = 2; window_expires_at = 1 }

suc-apart : (x : ℕ) → suc x ≡ 6 → x ≡ 5
suc-apart x h = omega arith

requests-enforce_example :
    (enforce login_rule 20 suc none true (5 ∷ []) (
      requests login_rule suc between
        (enforce login_rule 2 suc none true (5 ∷ []) (ended ∷ [])).1)).0
    ≡ err auth_rate_limited
requests-enforce_example =
    requests-enforce login_rule suc 5 2 20 between (ended ∷ []) suc-apart refl
      (omega arith, (omega arith, tt)) (omega arith)

-- ===== src/Gateway/RateLimit/Tests.antt =====
-- Runs of the rate limiter, and its theorems at concrete inputs.
use frankclaw.Prelude.{◌≡◌, refl, none, some, lookup, insert, remove}
use frankclaw.Gateway.Net.{v4}
use frankclaw.Gateway.RateLimit.{
  RateLimitConfig, AuthRateLimiter, new, is_locked, record_failure, record_success,
}
use frankclaw.Gateway.RateLimit.Lockout.{IsValid, new-IsValid, record_failure-IsValid}

abbrev small : RateLimitConfig
small = record { max_attempts = 2; window_secs = 60; lockout_secs = 300 }

abbrev once : AuthRateLimiter
once = record_failure (new small) (v4 16909060) 5

twice_locks : is_locked (record_failure once (v4 16909060) 6) (v4 16909060) 7 8 ≡ some 299999999998
unfolding record_failure is_locked new lookup insert
twice_locks = refl

success_clears :
    is_locked (record_success (record_failure once (v4 16909060) 6) (v4 16909060)) (v4 16909060) 7 8
    ≡ none
unfolding record_failure record_success is_locked new lookup insert remove
success_clears = refl

once-IsValid : IsValid once
once-IsValid = record_failure-IsValid (new small) (v4 16909060) 5 (new-IsValid small)

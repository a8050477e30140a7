-- ===== src/Gateway/RateLimit.antt =====
-- crates/frankclaw-gateway/src/rate_limit.rs, and `RateLimitConfig` of
-- crates/frankclaw-core/src/auth.rs. Each method is one step under the mutex; the instants that it
-- reads from the clock are arguments, and `duration_since` saturates at 0 as in the standard
-- library.
pub mod Lockout
mod Tests
use frankclaw.Prelude.{
  ℕ, ◌+◌, ◌-◌, Bool, Option, none, some, [], Map, lookup, insert, remove, retain, add_u32, add_u64,
  from_secs, ltb, leb, if◌then◌else◌,
}
use frankclaw.Gateway.Net.{IpAddr, ip_eq}

pub record RateLimitConfig : Type 0 where
  pub max_attempts : ℕ  -- u32
  pub window_secs : ℕ  -- u64
  pub lockout_secs : ℕ  -- u64

-- `RateLimitConfig::default`.
abbrev pub default_config : RateLimitConfig
default_config = record { max_attempts = 5; window_secs = 60; lockout_secs = 300 }

pub record IpAttempts : Type 0 where
  pub count : ℕ  -- u32
  pub first_attempt : ℕ
  pub locked_until : Option ℕ

pub record AuthRateLimiter : Type 0 where
  pub config : RateLimitConfig
  pub attempts : Map IpAddr IpAttempts

-- `AuthRateLimiter::new`.
unfoldable pub new : RateLimitConfig → AuthRateLimiter
new config = record { config = config; attempts = [] }

-- The two reads of the clock in `is_locked` are `now` and `later`.
entry_locked : IpAttempts → ℕ → ℕ → Option ℕ
entry_locked entry now later = elim entry.locked_until [
  | none ↦ none
  | some locked_until ↦ if ltb now locked_until then some (locked_until - later) else none
]

unfoldable pub is_locked : AuthRateLimiter → IpAddr → ℕ → ℕ → Option ℕ
unfolding entry_locked
is_locked l ip now later = elim (lookup ip l.attempts) [
  | none ↦ none
  | some entry ↦ entry_locked entry now later
]

-- `entry(ip).or_insert(..)`.
fresh_entry : ℕ → Option IpAttempts → IpAttempts
fresh_entry now none = record { count = 0; first_attempt = now; locked_until = none }
fresh_entry now (some entry) = entry

-- The reset of an expired window.
reset_window : RateLimitConfig → ℕ → IpAttempts → IpAttempts
reset_window config now entry =
    if ltb (from_secs config.window_secs) (now - entry.first_attempt)
    then record { count = 0; first_attempt = now; locked_until = none }
    else entry

-- The count, and the lockout when it reaches the maximum.
count_failure : RateLimitConfig → ℕ → IpAttempts → IpAttempts
count_failure config now entry =
    let count = add_u32 entry.count 1 in
    record {
      count = count;
      first_attempt = entry.first_attempt;
      locked_until =
          if leb config.max_attempts count
          then some (now + from_secs config.lockout_secs)
          else entry.locked_until;
    }

unfoldable pub record_failure : AuthRateLimiter → IpAddr → ℕ → AuthRateLimiter
unfolding fresh_entry reset_window count_failure
record_failure l ip now =
    let entry = reset_window l.config now (fresh_entry now (lookup ip l.attempts)) in
    record l { attempts = insert ip (count_failure l.config now entry) l.attempts }

unfoldable pub record_success : AuthRateLimiter → IpAddr → AuthRateLimiter
record_success l ip = record l { attempts = remove ip l.attempts }

-- The test of `cleanup` on one entry.
is_recent : RateLimitConfig → ℕ → IpAddr → IpAttempts → Bool
is_recent config now ip entry =
    ltb (now - entry.first_attempt) (from_secs (add_u64 config.window_secs config.lockout_secs))

unfoldable pub cleanup : AuthRateLimiter → ℕ → AuthRateLimiter
unfolding is_recent
cleanup l now = record l { attempts = retain (is_recent l.config now) l.attempts }

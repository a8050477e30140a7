-- ===== src/Gateway/RateLimit/Lockout.antt =====
-- What the rate limiter of crates/frankclaw-gateway/src/rate_limit.rs guarantees.
use native.Mathlib.Nat.{add-zero}
use frankclaw.Prelude.{
  ap, ℕ, suc, ◌+◌, ◌-◌, ◌^◌, ◌≤◌, ◌<◌, ◌≡◌, refl, false, Option, none, some, List, [], ◌∷◌, arith,
  lookup, Distinct, lookup-insert, lookup-retain, Distinct-insert, Distinct-remove, Distinct-retain,
  Everywhere, Everywhere-empty, Everywhere-insert, Everywhere-remove, Everywhere-retain,
  Option-cases, inl, inr, length, All, from_secs, leb, ltb, if◌then◌else◌, ==_refl, add_u64,
  ltb-false→le, ◌&&◌,
}
use frankclaw.Gateway.Net.{IpAddr, ip_eq}
use frankclaw.Gateway.RateLimit.{
  RateLimitConfig, IpAttempts, AuthRateLimiter, is_locked, entry_locked, fresh_entry, reset_window,
  new, count_failure, record_failure, record_success, is_recent, cleanup,
}

-- The failures of one address, in the order in which they are recorded.
abbrev pub record_failures : AuthRateLimiter → IpAddr → List ℕ → AuthRateLimiter
record_failures l ip [] = l
record_failures l ip (t ∷ ts) = record_failures (record_failure l ip t) ip ts

-- A lockout ends at most one window and one lockout after the first counted attempt.
abbrev pub EndsInTime : RateLimitConfig → IpAttempts → Type 0
EndsInTime config entry =
    (t : ℕ)
    → entry.locked_until ≡ some t
    → t ≤ entry.first_attempt + from_secs config.window_secs + from_secs config.lockout_secs

pub record IsValid (l : AuthRateLimiter) : Type 0 where
  pub distinct : Distinct l.attempts
  pub in_time : Everywhere (λ ip entry. EndsInTime l.config entry) l.attempts

count_failure-EndsInTime :
    (config : RateLimitConfig) (now : ℕ) (o : Option IpAttempts)
    → ((entry : IpAttempts) → o ≡ some entry → EndsInTime config entry)
    → EndsInTime config (count_failure config now (reset_window config now (fresh_entry now o)))
unfolding count_failure reset_window fresh_entry
count_failure-EndsInTime config now none h t p = ground arith
count_failure-EndsInTime config now (some entry) h t p = ground (arith, h entry refl t)

-- An empty limiter is valid.
pub new-IsValid : (config : RateLimitConfig) → IsValid (new config)
unfolding new
new-IsValid config = record { distinct = tt; in_time = Everywhere-empty _ }

pub record_failure-IsValid :
    (l : AuthRateLimiter) (ip : IpAddr) (now : ℕ) → IsValid l → IsValid (record_failure l ip now)
unfolding record_failure
record_failure-IsValid l ip now v = record {
  distinct = Distinct-insert ip _ l.attempts v.distinct;
  in_time =
      Everywhere-insert _ ip _ l.attempts
        (count_failure-EndsInTime l.config now (lookup ip l.attempts) (v.in_time.at_key ip))
        v.in_time;
}

pub record_success-IsValid :
    (l : AuthRateLimiter) (ip : IpAddr) → IsValid l → IsValid (record_success l ip)
unfolding record_success
record_success-IsValid l ip v = record {
  distinct = Distinct-remove ip l.attempts v.distinct;
  in_time = Everywhere-remove _ ip l.attempts v.in_time;
}

pub cleanup-IsValid : (l : AuthRateLimiter) (now : ℕ) → IsValid l → IsValid (cleanup l now)
unfolding cleanup
cleanup-IsValid l now v = record {
  distinct = Distinct-retain _ l.attempts v.distinct;
  in_time = Everywhere-retain _ _ l.attempts v.distinct v.in_time;
}

-- An entry that `cleanup` drops locks nobody any more.
entry_locked-of_old :
    (config : RateLimitConfig) (ip : IpAddr) (entry : IpAttempts) (now asked later : ℕ)
    → 0 < config.window_secs + config.lockout_secs
    → config.window_secs + config.lockout_secs < 2 ^ 64
    → EndsInTime config entry
    → is_recent config now ip entry ≡ false
    → now ≤ asked
    → entry_locked entry asked later ≡ none
unfolding entry_locked is_recent
entry_locked-of_old config ip entry now asked later some_time fits ends old h =
    let sum : add_u64 config.window_secs config.lockout_secs
        ≡ config.window_secs + config.lockout_secs =
      omega arith in
    elim (Option-cases entry.locked_until) [
      | inl free ↦ ground arith
      | inr (t, locked) ↦
          let age : from_secs (add_u64 config.window_secs config.lockout_secs)
              ≤ now - entry.first_attempt =
            ltb-false→le _ _ old in
          let over : t ≤ asked = omega (arith, ends t locked) in ground arith
    ]

-- In a valid limiter a cleanup changes the answer of `is_locked` for no address, at the instant of
-- the cleanup or later, if the sum of the window and the lockout is positive and fits u64.
is_locked-cleanup :
    (l : AuthRateLimiter) (ip : IpAddr) (now asked later : ℕ)
    → IsValid l
    → 0 < l.config.window_secs + l.config.lockout_secs
    → l.config.window_secs + l.config.lockout_secs < 2 ^ 64
    → now ≤ asked
    → is_locked (cleanup l now) ip asked later ≡ is_locked l ip asked later
unfolding is_locked cleanup
is_locked-cleanup l ip now asked later v some_time fits h =
    let kept_lem = lookup-retain (is_recent l.config now) ip l.attempts v.distinct in
    elim (Option-cases (lookup ip l.attempts)) [
      | inl absent ↦ ground (arith, kept_lem)
      | inr (entry, present) ↦ ground (
        arith,
        kept_lem,
        entry_locked-of_old l.config ip entry now asked later some_time fits
            (v.in_time.at_key ip entry present),
      )
    ]

-- The last of some instants.
abbrev pub last : ℕ → List ℕ → ℕ
last t [] = t
last t (u ∷ us) = last u us

-- The entry after n counted failures, the last of them at t.
abbrev pub entry_after : RateLimitConfig → ℕ → ℕ → ℕ → IpAttempts
entry_after config first n t = record {
  count = n;
  first_attempt = first;
  locked_until =
      if leb config.max_attempts n then some (t + from_secs config.lockout_secs) else none;
}

count_failure-entry_after :
    (config : RateLimitConfig) (first n t u : ℕ)
    → n + 1 < 2 ^ 32
    → u - first ≤ from_secs config.window_secs
    → count_failure config u
        (reset_window config u (fresh_entry u (some (entry_after config first n t))))
      ≡ entry_after config first (n + 1) u
unfolding count_failure reset_window fresh_entry
count_failure-entry_after config first n t u fits inside = ground arith

lookup-record_failure :
    (l : AuthRateLimiter) (ip : IpAddr) (now : ℕ)
    → lookup ip (record_failure l ip now).attempts
      ≡ some (
          count_failure l.config now
            (reset_window l.config now (fresh_entry now (lookup ip l.attempts))))
unfolding record_failure
lookup-record_failure l ip now = simp (lookup-insert, ==_refl)

-- One more failure within the window.
pub record_failure-next :
    (l : AuthRateLimiter) (ip : IpAddr) (first n t u : ℕ)
    → lookup ip l.attempts ≡ some (entry_after l.config first n t)
    → u - first ≤ from_secs l.config.window_secs
    → n + 1 < 2 ^ 32
    → lookup ip (record_failure l ip u).attempts ≡ some (entry_after l.config first (n + 1) u)
record_failure-next l ip first n t u p inside fits =
    rw (lookup-record_failure, p)
      (ap some (count_failure-entry_after l.config first n t u fits inside))

count_failure-first :
    (config : RateLimitConfig) (t : ℕ)
    → count_failure config t (reset_window config t (fresh_entry t none)) ≡ entry_after config t 1 t
unfolding count_failure reset_window fresh_entry
count_failure-first config t = ground arith

-- The first failure of an address with no entry.
pub record_failure-first :
    (l : AuthRateLimiter) (ip : IpAddr) (t : ℕ)
    → lookup ip l.attempts ≡ none
    → lookup ip (record_failure l ip t).attempts ≡ some (entry_after l.config t 1 t)
record_failure-first l ip t absent =
    rw (lookup-record_failure, absent) (ap some (count_failure-first l.config t))

pub config-record_failure :
    (l : AuthRateLimiter) (ip : IpAddr) (t : ℕ) → (record_failure l ip t).config ≡ l.config
unfolding record_failure
config-record_failure l ip t = refl

-- The answer of `is_locked` after n counted failures.
pub is_locked-entry_after :
    (l : AuthRateLimiter) (ip : IpAddr) (first n t asked later : ℕ)
    → lookup ip l.attempts ≡ some (entry_after l.config first n t)
    → is_locked l ip asked later ≡ (
        if leb l.config.max_attempts n && ltb asked (t + from_secs l.config.lockout_secs)
        then some (t + from_secs l.config.lockout_secs - later)
        else none)
unfolding is_locked entry_locked
is_locked-entry_after l ip first n t asked later p = ground arith

record_failures_from :
    (l : AuthRateLimiter) (ip : IpAddr) (first n t : ℕ) (us : List ℕ) (asked later : ℕ)
    → lookup ip l.attempts ≡ some (entry_after l.config first n t)
    → All (λ u. u - first ≤ from_secs l.config.window_secs) us
    → n + length us < 2 ^ 32
    → is_locked (record_failures l ip us) ip asked later ≡ (
        if leb l.config.max_attempts (n + length us)
          && ltb asked (last t us + from_secs l.config.lockout_secs)
        then some (last t us + from_secs l.config.lockout_secs - later)
        else none)
unfolding record_failure
record_failures_from l ip first n t [] asked later p inside fits =
    rw add-zero (is_locked-entry_after l ip first n t asked later p)
record_failures_from l ip first n t (u ∷ us) asked later p (i, is) fits =
    let step = record_failure-next l ip first n t u p i (omega arith) in
    let sum : n + 1 + length us ≡ n + suc (length us) = omega arith in
    rw (← sum) (
      record_failures_from (record_failure l ip u) ip first (n + 1) u us asked later step is
        (omega arith))

-- For an address with no entry, of a first failure and further ones within the window after it
-- (fewer than 2^32 together), the address is locked from the last of them exactly when the failures
-- reach the maximum, and then for the lockout's length.
pub is_locked-record_failures :
    (l : AuthRateLimiter) (ip : IpAddr) (t : ℕ) (us : List ℕ) (asked later : ℕ)
    → lookup ip l.attempts ≡ none
    → All (λ u. u - t ≤ from_secs l.config.window_secs) us
    → 1 + length us < 2 ^ 32
    → is_locked (record_failures l ip (t ∷ us)) ip asked later ≡ (
        if leb l.config.max_attempts (1 + length us)
          && ltb asked (last t us + from_secs l.config.lockout_secs)
        then some (last t us + from_secs l.config.lockout_secs - later)
        else none)
unfolding record_failure
is_locked-record_failures l ip t us asked later absent inside fits =
    record_failures_from (record_failure l ip t) ip t 1 t us asked later
      (record_failure-first l ip t absent) inside fits

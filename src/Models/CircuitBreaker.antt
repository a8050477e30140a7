-- ===== src/Models/CircuitBreaker.antt =====
-- crates/frankclaw-models/src/circuit_breaker.rs. Each method is one step under the mutex;
-- `Instant::now()` is an argument, and `elapsed` saturates at 0 as in the standard library.
pub mod Invariant
pub mod Tripping
pub mod Recovery
mod Tests
use frankclaw.Prelude.{
  ℕ, ◌-◌, Bool, true, false, Option, none, some, List, [], ◌∷◌, ◌&&◌, add_u32, from_secs, leb,
  if◌then◌else◌,
}

pub record CircuitBreakerConfig : Type 0 where
  pub failure_threshold : ℕ  -- u32
  pub recovery_timeout : ℕ
  pub half_open_successes_needed : ℕ  -- u32

-- `CircuitBreakerConfig::default`.
abbrev pub default_config : CircuitBreakerConfig
default_config = record {
  failure_threshold = 5;
  recovery_timeout = from_secs 30;
  half_open_successes_needed = 2;
}

pub data CircuitState : Type 0 where
  closed opened half_open : CircuitState

pub record BreakerState : Type 0 where
  pub state : CircuitState
  pub consecutive_failures : ℕ  -- u32
  pub opened_at : Option ℕ
  pub half_open_successes : ℕ  -- u32

pub record CircuitBreaker : Type 0 where
  pub breaker : BreakerState
  pub config : CircuitBreakerConfig

-- `CircuitBreaker::new`.
unfoldable pub new : CircuitBreakerConfig → CircuitBreaker
new config = record {
  breaker = record {
    state = closed;
    consecutive_failures = 0;
    opened_at = none;
    half_open_successes = 0;
  };
  config = config;
}

-- `opened_at.is_some_and(|opened_at| opened_at.elapsed() >= config.recovery_timeout)`.
timed_out : Option ℕ → ℕ → ℕ → Bool
timed_out none timeout now = false
timed_out (some opened_at) timeout now = leb timeout (now - opened_at)

abbrev is_open : CircuitState → Bool
is_open opened = true
is_open _ = false

maybe_transition_to_half_open : CircuitBreakerConfig → ℕ → BreakerState → BreakerState
unfolding timed_out
maybe_transition_to_half_open config now s =
    if is_open s.state && timed_out s.opened_at config.recovery_timeout now
    then record s { state = half_open; half_open_successes = 0 }
    else s

-- `circuit_state`: the state reported, and the breaker after the call.
unfoldable pub circuit_state : CircuitBreaker → ℕ → CircuitState × CircuitBreaker
unfolding maybe_transition_to_half_open
circuit_state b now =
    let s = maybe_transition_to_half_open b.config now b.breaker in
    (s.state, record b { breaker = s })

unfoldable pub consecutive_failures : CircuitBreaker → ℕ
consecutive_failures b = b.breaker.consecutive_failures

unfoldable pub check_allowed : CircuitBreaker → ℕ → Bool × CircuitBreaker
unfolding maybe_transition_to_half_open
check_allowed b now =
    let s = maybe_transition_to_half_open b.config now b.breaker in
    (if is_open s.state then false else true, record b { breaker = s })

success_in : CircuitState → CircuitBreakerConfig → BreakerState → BreakerState
success_in closed config s = record s { consecutive_failures = 0 }
success_in half_open config s =
    let successes = add_u32 s.half_open_successes 1 in
    if leb config.half_open_successes_needed successes
    then record {
      state = closed;
      consecutive_failures = 0;
      opened_at = none;
      half_open_successes = 0;
    }
    else record s { half_open_successes = successes }
success_in opened config s = s

unfoldable pub record_success : CircuitBreaker → CircuitBreaker
unfolding success_in
record_success b = record b { breaker = success_in b.breaker.state b.config b.breaker }

failure_in : CircuitState → CircuitBreakerConfig → ℕ → BreakerState → BreakerState
failure_in closed config now s =
    let failures = add_u32 s.consecutive_failures 1 in
    if leb config.failure_threshold failures
    then record {
      state = opened;
      consecutive_failures = failures;
      opened_at = some now;
      half_open_successes = 0;
    }
    else record s { consecutive_failures = failures }
failure_in half_open config now s = record s {
  state = opened;
  opened_at = some now;
  half_open_successes = 0;
}
failure_in opened config now s = s

unfoldable pub record_failure : CircuitBreaker → ℕ → CircuitBreaker
unfolding failure_in
record_failure b now = record b { breaker = failure_in b.breaker.state b.config now b.breaker }

-- The calls that a client makes, with the instants at which they read the clock.
pub data Event : Type 0 where
  check : ℕ → Event
  success : Event
  failure : ℕ → Event

unfoldable pub step : CircuitBreaker → Event → CircuitBreaker
step b (check now) = (check_allowed b now).1
step b success = record_success b
step b (failure now) = record_failure b now

unfoldable pub run : CircuitBreaker → List Event → CircuitBreaker
run b [] = b
run b (e ∷ es) = run (step b e) es

-- ===== src/Models/CircuitBreaker/Invariant.antt =====
-- What holds of a circuit breaker between two calls, and how its state may change.
use frankclaw.Prelude.{◌^◌, ◌≤◌, ◌<◌, ◌≡◌, ◌≢◌, refl, none, List, [], ◌∷◌, arith, max}
use frankclaw.Models.CircuitBreaker.{
  CircuitBreakerConfig, closed, half_open, CircuitBreaker, new, step, run, Event, check, success,
  failure, check_allowed, record_success, record_failure,
}

-- The thresholds fit u32; a threshold of 0 acts as 1.
pub record IsConfig (c : CircuitBreakerConfig) : Type 0 where
  pub threshold : c.failure_threshold < 2 ^ 32
  pub needed : c.half_open_successes_needed < 2 ^ 32

pub record IsValid (b : CircuitBreaker) : Type 0 where
  pub fits : IsConfig b.config
  pub counting :
      b.breaker.state ≡ closed → b.breaker.consecutive_failures < max 1 b.config.failure_threshold
  pub tripped :
      b.breaker.state ≢ closed → b.config.failure_threshold ≤ b.breaker.consecutive_failures
  pub dated : b.breaker.state ≢ closed → b.breaker.opened_at ≢ none
  pub probing : b.breaker.half_open_successes < max 1 b.config.half_open_successes_needed
  pub probes_only : b.breaker.state ≢ half_open → b.breaker.half_open_successes ≡ 0

pub new-IsValid : (c : CircuitBreakerConfig) → IsConfig c → IsValid (new c)
unfolding new
new-IsValid c h = ground arith

pub step-IsValid : (b : CircuitBreaker) (e : Event) → IsValid b → IsValid (step b e)
unfolding step check_allowed record_success record_failure
step-IsValid b (check now) v = ground arith
step-IsValid b success v = ground arith
step-IsValid b (failure now) v = ground arith

-- From a new breaker whose thresholds fit u32, any calls at any instants keep the invariant.
run-IsValid : (c : CircuitBreakerConfig) (es : List Event) → IsConfig c → IsValid (run (new c) es)
unfolding run
run-IsValid c es h = run_from (new c) es (new-IsValid c h)
  where
    run_from : (b : CircuitBreaker) (es : List Event) → IsValid b → IsValid (run b es)
    run_from b [] v = v
    run_from b (e ∷ es) v = run_from (step b e) es (step-IsValid b e v)

pub run-cons :
    (b : CircuitBreaker) (e : Event) (es : List Event) → run b (e ∷ es) ≡ run (step b e) es
unfolding run
run-cons b e es = refl

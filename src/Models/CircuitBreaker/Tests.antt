-- ===== src/Models/CircuitBreaker/Tests.antt =====
-- Runs of the circuit breaker.
use frankclaw.Prelude.{◌≡◌, ◌≤◌, ◌↔◌, refl, true, List, [], ◌∷◌, ◌++◌, arith, max, replicate}
use frankclaw.Models.CircuitBreaker.{
  CircuitBreakerConfig, CircuitBreaker, opened, new, Event, check, success, failure, check_allowed,
  run, step, record_failure, record_success,
}
use frankclaw.Models.CircuitBreaker.Invariant.{IsConfig}
use frankclaw.Models.CircuitBreaker.Tripping.{longest_streak, run-opened_iff}
use frankclaw.Models.CircuitBreaker.Recovery.{recovers}

-- The breaker of the source's tests; its timeout is 50 ms.
abbrev config : CircuitBreakerConfig
config = record {
  failure_threshold = 3;
  recovery_timeout = 50000000;
  half_open_successes_needed = 2;
}

config-IsConfig : IsConfig config
config-IsConfig = omega arith

abbrev failures : List Event
failures = failure 1 ∷ failure 2 ∷ success ∷ failure 3 ∷ failure 4 ∷ failure 5 ∷ []

abbrev tripped : CircuitBreaker
tripped = run (new config) failures

tripped_state : tripped.breaker.state ≡ opened
unfolding run step new record_failure record_success
tripped_state = refl

run-opened_iff_example :
    ((run (new config) failures).breaker.state ≡ opened)
    ↔ (max 1 config.failure_threshold ≤ longest_streak 0 failures)
run-opened_iff_example = run-opened_iff config failures config-IsConfig (omega arith)

recovers_example :
    ((check_allowed tripped 60000000).0 ≡ true)
    × (run tripped (check 60000000 ∷ replicate 1 success ++ success ∷ []) ≡ new config)
unfolding run step new record_failure record_success
recovers_example = recovers tripped 5 60000000 1 refl refl (omega arith) (omega arith) (omega arith)

-- ===== src/Models/CircuitBreaker/Tripping.antt =====
-- When the circuit breaker opens: after as many failures in a row as its threshold.
use frankclaw.Prelude.{
  ℕ, ◌+◌, ◌≤◌, ◌<◌, ◌≡◌, ◌↔◌, refl, List, [], ◌∷◌, arith, max, All, none, dec_lt,
}
use frankclaw.Models.CircuitBreaker.{
  CircuitBreakerConfig, closed, opened, CircuitBreaker, new, step, run, Event, check, success,
  failure, record_success, record_failure,
}
use frankclaw.Models.CircuitBreaker.Invariant.{IsConfig, run-cons}

abbrev pub IsOutcome : Event → Type 0
IsOutcome (check now) = ⊥
IsOutcome _ = Unit

-- The length of the longest run of failures with no success between them, where the first run
-- begins with `current` failures.
abbrev pub longest_streak : ℕ → List Event → ℕ
longest_streak current [] = current
longest_streak current (check now ∷ es) = longest_streak current es
longest_streak current (success ∷ es) = max current (longest_streak 0 es)
longest_streak current (failure now ∷ es) = longest_streak (current + 1) es

le-longest_streak : (current : ℕ) (es : List Event) → current ≤ longest_streak current es
le-longest_streak current [] = omega arith
le-longest_streak current (check now ∷ es) = le-longest_streak current es
le-longest_streak current (success ∷ es) = omega arith
le-longest_streak current (failure now ∷ es) = omega (arith, le-longest_streak (current + 1) es)

opened_stays :
    (b : CircuitBreaker) (es : List Event)
    → All IsOutcome es
    → b.breaker.state ≡ opened
    → (run b es).breaker.state ≡ opened
unfolding run step record_success record_failure
opened_stays b [] o h = h
opened_stays b (check now ∷ es) (o, os) h = elim o [ ]
opened_stays b (success ∷ es) (o, os) h = opened_stays (step b success) es os (ground arith)
opened_stays b (failure now ∷ es) (o, os) h =
    opened_stays (step b (failure now)) es os (ground arith)

-- A closed breaker that has counted k failures.
abbrev counting : CircuitBreakerConfig → ℕ → CircuitBreaker
counting c k = record {
  breaker = record {
    state = closed;
    consecutive_failures = k;
    opened_at = none;
    half_open_successes = 0;
  };
  config = c;
}

failure_trips :
    (c : CircuitBreakerConfig) (k now : ℕ)
    → IsConfig c
    → k < max 1 c.failure_threshold
    → max 1 c.failure_threshold ≤ k + 1
    → (step (counting c k) (failure now)).breaker.state ≡ opened
unfolding step record_failure
failure_trips c k now fits below full = ground arith

failure_counts :
    (c : CircuitBreakerConfig) (k now : ℕ)
    → IsConfig c
    → k + 1 < max 1 c.failure_threshold
    → step (counting c k) (failure now) ≡ counting c (k + 1)
unfolding step record_failure
failure_counts c k now fits few = ground arith

success_resets : (c : CircuitBreakerConfig) (k : ℕ) → step (counting c k) success ≡ counting c 0
unfolding step record_success
success_resets c k = refl

run-opened_from :
    (c : CircuitBreakerConfig) (k : ℕ) (es : List Event)
    → IsConfig c
    → All IsOutcome es
    → k < max 1 c.failure_threshold
    → ((run (counting c k) es).breaker.state ≡ opened)
      ↔ (max 1 c.failure_threshold ≤ longest_streak k es)
unfolding run
run-opened_from c k [] fits o below = ground arith
run-opened_from c k (check now ∷ es) fits (o, os) below = elim o [ ]
run-opened_from c k (success ∷ es) fits (o, os) below =
    let (to, from) = run-opened_from c 0 es fits os (omega arith) in
    rw (run-cons, success_resets) (λ h. omega (arith, to h), λ h. from (omega arith))
run-opened_from c k (failure now ∷ es) fits (o, os) below =
    elim (dec_lt (k + 1) (max 1 c.failure_threshold)) [
      | yes few ↦
          rw (run-cons, failure_counts c k now fits few) (run-opened_from c (k + 1) es fits os few)
      | no full ↦ (
        λ h. omega (arith, le-longest_streak (k + 1) es),
        λ h. opened_stays _ es os (failure_trips c k now fits below (omega arith)),
      )
    ]

-- A new breaker whose thresholds fit u32 is open after a list of outcomes, with no call checked
-- between them, exactly when the list holds as many failures in a row as the threshold (a threshold of
-- 0 acts as 1).
pub run-opened_iff :
    (c : CircuitBreakerConfig) (es : List Event)
    → IsConfig c
    → All IsOutcome es
    → ((run (new c) es).breaker.state ≡ opened) ↔ (max 1 c.failure_threshold ≤ longest_streak 0 es)
unfolding new
run-opened_iff c es fits o = run-opened_from c 0 es fits o (omega arith)

-- ===== src/Models/CircuitBreaker/Recovery.antt =====
-- What an open circuit breaker does before its timeout, and how it recovers after it.
use native.Mathlib.Nat.{add-zero}
use frankclaw.Prelude.{
  ℕ, zero, suc, ◌+◌, ◌-◌, ◌^◌, ◌≤◌, ◌<◌, ◌≡◌, refl, false, some, List, [], ◌∷◌, ◌++◌, arith, max,
  All, replicate, true, ◌∙◌,
}
use frankclaw.Models.CircuitBreaker.{
  opened, half_open, CircuitBreaker, new, step, run, Event, check, success, failure, record_success,
  record_failure, check_allowed,
}
use frankclaw.Models.CircuitBreaker.Invariant.{run-cons}

-- The event reads the clock less than `timeout` after `since`.
abbrev pub IsEarly : ℕ → ℕ → Event → Type 0
IsEarly since timeout (check now) = now - since < timeout
IsEarly since timeout _ = Unit

early_step :
    (b : CircuitBreaker) (since : ℕ) (e : Event)
    → b.breaker.state ≡ opened
    → b.breaker.opened_at ≡ some since
    → IsEarly since b.config.recovery_timeout e
    → step b e ≡ b
unfolding step check_allowed record_success record_failure
early_step b since (check now) h d early = ground arith
early_step b since success h d early = ground arith
early_step b since (failure now) h d early = ground arith

-- Until its timeout has passed an open breaker rejects every call, and no call or outcome changes it.
opened_rejects :
    (b : CircuitBreaker) (since now : ℕ) (es : List Event)
    → b.breaker.state ≡ opened
    → b.breaker.opened_at ≡ some since
    → All (IsEarly since b.config.recovery_timeout) es
    → now - since < b.config.recovery_timeout
    → (run b es ≡ b) × ((check_allowed (run b es) now).0 ≡ false)
unfolding run
opened_rejects b since now [] h d early e = (refl, unfold check_allowed in ground arith)
opened_rejects b since now (x ∷ xs) h d (early, rest) e =
    rw (early_step b since x h d early) (opened_rejects b since now xs h d rest e)

-- A breaker that probes, with k successful probes.
abbrev pub probing : CircuitBreaker → ℕ → CircuitBreaker
probing b k = record b {
  breaker = record {
    state = half_open;
    consecutive_failures = b.breaker.consecutive_failures;
    opened_at = b.breaker.opened_at;
    half_open_successes = k;
  };
}

check-probing :
    (b : CircuitBreaker) (since now : ℕ)
    → b.breaker.state ≡ opened
    → b.breaker.opened_at ≡ some since
    → b.config.recovery_timeout ≤ now - since
    → step b (check now) ≡ probing b 0
unfolding step check_allowed
check-probing b since now h d late = ground arith

probe_success :
    (b : CircuitBreaker) (k : ℕ)
    → b.config.half_open_successes_needed < 2 ^ 32
    → k + 1 < b.config.half_open_successes_needed
    → step (probing b k) success ≡ probing b (k + 1)
unfolding step record_success
probe_success b k fits few = ground arith

last_probe :
    (b : CircuitBreaker) (k : ℕ)
    → b.config.half_open_successes_needed < 2 ^ 32
    → k + 1 ≡ max 1 b.config.half_open_successes_needed
    → step (probing b k) success ≡ new b.config
unfolding step record_success new
last_probe b k fits enough = ground arith

run-successes :
    (b : CircuitBreaker) (n k : ℕ) (es : List Event)
    → b.config.half_open_successes_needed < 2 ^ 32
    → k + n < max 1 b.config.half_open_successes_needed
    → run (probing b k) (replicate n success ++ es) ≡ run (probing b (k + n)) es
unfolding run
run-successes b zero k es fits few = rw add-zero
run-successes b (suc n) k es fits few =
    let sum : k + 1 + n ≡ k + suc n = omega arith in
    rw (run-cons, probe_success b k fits (omega arith), ← sum)
      (run-successes b n (k + 1) es fits (omega arith))

-- After its timeout an open breaker lets a call through, and after as many successes as it needs (at
-- least one, a number that fits u32) it is as new.
pub recovers :
    (b : CircuitBreaker) (since now n : ℕ)
    → b.breaker.state ≡ opened
    → b.breaker.opened_at ≡ some since
    → b.config.recovery_timeout ≤ now - since
    → b.config.half_open_successes_needed < 2 ^ 32
    → n + 1 ≡ max 1 b.config.half_open_successes_needed
    → ((check_allowed b now).0 ≡ true)
      × (run b (check now ∷ replicate n success ++ success ∷ []) ≡ new b.config)
unfolding run
recovers b since now n h d late fits enough = (
  unfold check_allowed in ground arith,
  rw (run-cons, check-probing b since now h d late)
      (run-successes b n 0 (success ∷ []) fits (omega arith)
        ∙ last_probe b (0 + n) fits (omega arith)),
)

reopen :
    (b : CircuitBreaker) (k u now : ℕ)
    → now - u < b.config.recovery_timeout
    → (check_allowed (step (probing b k) (failure u)) now).0 ≡ false
unfolding check_allowed step record_failure
reopen b k u now early = ground arith

-- A failure before that opens the breaker again, and its timeout begins anew at that failure.
probe_failure_reopens :
    (b : CircuitBreaker) (since now n u asked : ℕ)
    → b.breaker.state ≡ opened
    → b.breaker.opened_at ≡ some since
    → b.config.recovery_timeout ≤ now - since
    → b.config.half_open_successes_needed < 2 ^ 32
    → n < max 1 b.config.half_open_successes_needed
    → asked - u < b.config.recovery_timeout
    → (check_allowed (run b (check now ∷ replicate n success ++ failure u ∷ [])) asked).0 ≡ false
unfolding run
probe_failure_reopens b since now n u asked h d late fits few early =
    rw
      (
        run-cons,
        check-probing b since now h d late,
        run-successes b n 0 (failure u ∷ []) fits (omega arith),
      )
      (reopen b (0 + n) u asked early)

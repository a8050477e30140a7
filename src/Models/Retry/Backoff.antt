-- ===== src/Models/Retry/Backoff.antt =====
-- The range of the delay between two attempts.
use native.Mathlib.Nat.{pow-le-pow_right, one-le-pow}
use frankclaw.Prelude.{ℕ, ◌+◌, ◌-◌, ◌*◌, ◌/◌, ◌^◌, ◌≤◌, ◌≡◌, arith}
use frankclaw.Models.Retry.{base_ms, delay_from, retry_backoff_delay}

-- No delay is shorter than 100 ms, whatever the attempt and the random offset.
delay-ge-100 : (attempt offset : ℕ) → 100 ≤ retry_backoff_delay attempt offset
unfolding retry_backoff_delay
delay-ge-100 attempt offset = ground arith

delay_range :
    (base offset : ℕ)
    → 400 ≤ base
    → base ≤ 4503599627370496000
    → offset ≤ base / 4 * 2
    → (base - base / 4 ≤ delay_from base offset) × (delay_from base offset ≤ base + base / 4)
unfolding delay_from
delay_range base offset big small jitter = ground arith

base_ms-exact : (attempt : ℕ) → attempt ≤ 52 → base_ms attempt ≡ 1000 * 2 ^ attempt
unfolding base_ms
base_ms-exact attempt h =
    let bound : 2 ^ attempt ≤ 4503599627370496 = pow-le-pow_right {n = 2} (omega arith) h in
    omega arith

-- Up to attempt 52 the delay lies within a quarter of 1000 * 2^attempt milliseconds on each side, for
-- every random offset in its range.
delay-within_quarter :
    (attempt offset : ℕ)
    → attempt ≤ 52
    → offset ≤ 250 * 2 ^ attempt * 2
    → (750 * 2 ^ attempt ≤ retry_backoff_delay attempt offset)
      × (retry_backoff_delay attempt offset ≤ 1250 * 2 ^ attempt)
unfolding retry_backoff_delay
delay-within_quarter attempt offset h jitter =
    let upper : 2 ^ attempt ≤ 4503599627370496 = pow-le-pow_right {n = 2} (omega arith) h in
    let lower = one-le-pow attempt 2 (omega arith) in
    rw base_ms-exact (
      omega (
        arith,
        delay_range (1000 * 2 ^ attempt) offset (omega (arith, lower)) (omega arith) (omega arith),
      ))

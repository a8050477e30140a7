-- ===== src/Models/Retry.antt =====
-- crates/frankclaw-models/src/retry.rs. The random offset is an argument; the jitter's signed
-- arithmetic is two's complement arithmetic on 64 bits.
pub mod Backoff
mod Tests
use frankclaw.Prelude.{
  ℕ, ◌+◌, ◌-◌, ◌*◌, ◌/◌, ◌%◌, ◌^◌, min, max, String, Bool, false, List, [], ◌∷◌, map, any, chars,
  contains, to_lowercase, max_u64, ltb, if◌then◌else◌,
}

pub record RetryConfig : Type 0 where
  pub max_retries : ℕ  -- u32

-- `RetryConfig::default`.
abbrev pub default_config : RetryConfig
default_config = record { max_retries = 3 }

-- `1000u64.saturating_mul(2u64.saturating_pow(attempt))`.
unfoldable pub base_ms : ℕ → ℕ
base_ms attempt = min (1000 * min (2 ^ attempt) max_u64) max_u64

-- `(base_ms as i64 + (offset as i64 - jitter_range as i64)).max(100) as u64`.
delay_from : ℕ → ℕ → ℕ
delay_from base offset =
    let jitter_range = base / 4 in
    let delay =
      if ltb 0 jitter_range then (base + offset + (2 ^ 64 - jitter_range)) % 2 ^ 64 else base in
    if ltb delay (2 ^ 63) then max delay 100 else 100

-- The delay in milliseconds; `offset` stands for `gen_range(0..=jitter_range * 2)`.
unfoldable pub retry_backoff_delay : ℕ → ℕ → ℕ
unfolding delay_from
retry_backoff_delay attempt offset = delay_from (base_ms attempt) offset

retryable : List String
retryable =
    "timeout" ∷ "connection" ∷ "rate limit" ∷ "429" ∷ "500" ∷ "502" ∷ "503" ∷ "504" ∷ "temporary"
    ∷ "unavailable" ∷ "overloaded" ∷ "try again" ∷ []

non_retryable : List String
non_retryable =
    "auth" ∷ "unauthorized" ∷ "forbidden" ∷ "context length" ∷ "model not found" ∷ "invalid api key"
    ∷ "not found" ∷ "invalid_request" ∷ []

unfoldable pub is_retryable_error : String → Bool
unfolding retryable non_retryable
is_retryable_error error_msg =
    let lower = to_lowercase (chars error_msg) in
    if any (λ p. contains (chars p) lower) non_retryable
    then false
    else any (λ p. contains (chars p) lower) retryable

-- ===== src/Models/Retry/Tests.antt =====
-- Delays and error texts of the source's tests.
use frankclaw.Prelude.{◌≡◌, refl, true, false, contains, to_lowercase}
use frankclaw.Models.Retry.{base_ms, retry_backoff_delay, is_retryable_error}

third_delay : retry_backoff_delay 2 0 ≡ 3000
unfolding retry_backoff_delay base_ms
third_delay = refl

retryable_texts :
    (is_retryable_error "HTTP 429 Too Many Requests" ≡ true)
    × (is_retryable_error "authentication failed" ≡ false)
    × (is_retryable_error "Connection reset" ≡ true)
    × (is_retryable_error "model not found: gpt-5" ≡ false)
unfolding is_retryable_error contains to_lowercase
retryable_texts = (refl, refl, refl, refl)

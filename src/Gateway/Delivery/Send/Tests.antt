-- ===== src/Gateway/Delivery/Send/Tests.antt =====
-- A channel that is busy at first.
use frankclaw.Prelude.{ℕ, zero, suc, ◌≡◌, refl, Bool, none, some, [], ◌∷◌, chars, nat_eqb}
use frankclaw.Core.Error.{Result, ok}
use frankclaw.Gateway.Delivery.Send.{
  SendResult, Attempted, rate_limited, failed, max_attempts_for_channel, send_outbound_chunk,
  retry_delay_secs, should_retry_send_failure,
}
use frankclaw.Gateway.Delivery.Send.Attempts.{Tried, send_outbound_chunk-Tried}

abbrev is_space : ℕ → Bool
is_space = nat_eqb 32

-- The busy channel asks for 60 seconds, and then does not know the chat.
abbrev busy_first : ℕ → Result SendResult
busy_first zero = ok (rate_limited (some 60))
busy_first (suc n) = ok (failed " Chat not found")

two_sends :
    send_outbound_chunk is_space busy_first "signal" (chars "hello") 0
    ≡ some (record {
      result = ok (record {
        text = chars "hello";
        status = "failed";
        platform_message_id = none;
        attempts = 2;
        retry_after_secs = none;
        error = some " Chat not found";
      });
      next = 2;
      slept = 30 ∷ [];
    })
unfolding send_outbound_chunk should_retry_send_failure retry_delay_secs max_attempts_for_channel
two_sends = refl

send_outbound_chunk-Tried_example :
    (a : Attempted) × (send_outbound_chunk is_space busy_first "signal" (chars "hello") 0 ≡ some a)
    × Tried is_space "signal" (chars "hello") busy_first 0 0 a
send_outbound_chunk-Tried_example =
    send_outbound_chunk-Tried is_space "signal" (chars "hello") busy_first 0

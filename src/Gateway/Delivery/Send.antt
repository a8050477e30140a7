-- ===== src/Gateway/Delivery/Send.antt =====
-- Sending a chunk of a reply: `send_outbound_chunk` of crates/frankclaw-gateway/src/delivery.rs
-- with its retries. The channel is a parameter: what it
-- answers to its `n`-th send. A text is the list of its characters, `is_whitespace` that of `char`.
pub mod Answers
pub mod Attempts
mod Tests
use frankclaw.Prelude.{
  ℕ, zero, suc, ◌+◌, ◌-◌, ◌*◌, ◌^◌, ◌%◌, min, max, max_u64, Bool, true, false, not, ◌&&◌, ◌||◌,
  ◌==◌, string_eq, Option, none, some, List, [], ◌∷◌, ◌++◌, String, chars, contains, any, map, leb,
  if◌then◌else◌,
}
use frankclaw.Core.Error.{FrankClawError, Result, ok, err, to_string}
use frankclaw.Gateway.Delivery.Split.{is_nil, trim}

abbrev pub max_outbound_attempts : ℕ
max_outbound_attempts = 3

abbrev pub max_retry_delay_secs : ℕ
max_retry_delay_secs = 30

-- `SendResult` of crates/frankclaw-core/src/channel.rs.
pub data SendResult : Type 0 where
  sent : String → SendResult
  rate_limited : Option ℕ → SendResult
  failed : String → SendResult

pub record DeliveryChunkRecord : Type 0 where
  pub text : List ℕ
  pub status : String
  pub platform_message_id : Option String
  pub attempts : ℕ
  pub retry_after_secs : Option ℕ
  pub error : Option String

unfoldable pub max_attempts_for_channel : String → ℕ
max_attempts_for_channel channel_id =
    if channel_id == "slack" || channel_id == "discord" || channel_id == "whatsapp"
    then 4
    else max_outbound_attempts

-- `secs.clamp(1, MAX_RETRY_DELAY_SECS)`.
abbrev pub clamp_delay : ℕ → ℕ
clamp_delay secs = max 1 (min secs max_retry_delay_secs)

base_delay : String → ℕ
base_delay channel_id =
    if channel_id == "slack"
    then 2
    else if channel_id == "discord"
    then 2
    else if channel_id == "whatsapp"
    then 3
    else if channel_id == "signal"
    then 2
    else 1

unfoldable pub retry_delay_secs : String → ℕ → Option ℕ → ℕ
unfolding base_delay
retry_delay_secs channel_id attempts (some retry_after_secs) = clamp_delay retry_after_secs
retry_delay_secs channel_id attempts none =
    let exponent = (attempts - 1) % 2 ^ 32 in
    clamp_delay (min (base_delay channel_id * min (2 ^ exponent) max_u64) max_u64)

-- `to_ascii_lowercase`.
unfoldable pub to_ascii_lowercase : List ℕ → List ℕ
to_ascii_lowercase = map (λ c. if leb 65 c && leb c 90 then c + 32 else c)

permanent_markers : List String
permanent_markers =
    "invalid_auth" ∷ "unauthorized" ∷ "forbidden" ∷ "not_in_channel" ∷ "channel_not_found"
    ∷ "chat not found" ∷ "message_not_found" ∷ "authentication failed" ∷ "auth failed"
    ∷ "invalid token" ∷ "permission denied" ∷ []

transient_markers : List String
transient_markers =
    "timeout" ∷ "temporarily_unavailable" ∷ "temporarily unavailable" ∷ "internal" ∷ "server error"
    ∷ "connection reset" ∷ "connection refused" ∷ "rate limit" ∷ "try again" ∷ []

-- `markers.iter().any(|marker| text.contains(marker))`.
has_marker : List String → List ℕ → Bool
has_marker markers text = any (λ marker. contains (chars marker) text) markers

-- What an answer leads to: the result is returned, or the loop sleeps and goes round with this
-- `last_retry_after`.
pub data Step : Type 0 where
  finished : Result DeliveryChunkRecord → Step
  waits : ℕ → Option ℕ → Step

-- What a chunk came to, the number of sends by then, and the delays slept.
pub record Attempted : Type 0 where
  pub result : Result DeliveryChunkRecord
  pub next : ℕ
  pub slept : List ℕ

unfoldable pub slept_before : ℕ → Option Attempted → Option Attempted
slept_before delay none = none
slept_before delay (some a) = some (record a { slept = delay ∷ a.slept })

module _ (is_whitespace : ℕ → Bool) where
  unfoldable pub should_retry_send_failure : String → String → Bool
  unfolding has_marker permanent_markers transient_markers to_ascii_lowercase trim is_nil contains
  should_retry_send_failure channel_id reason =
      let normalized = to_ascii_lowercase (trim is_whitespace (chars reason)) in
      if is_nil normalized
      then true
      else if has_marker permanent_markers normalized
      then false
      else if has_marker transient_markers normalized
      then true
      else not (channel_id == "whatsapp" || channel_id == "slack" || channel_id == "discord")

  unfoldable pub on_answer : String → List ℕ → ℕ → Option ℕ → Result SendResult → Step
  on_answer channel_id text attempts last_retry_after (ok (sent id)) = finished (
      ok (record {
        text = text;
        status = "sent";
        platform_message_id = some id;
        attempts = attempts;
        retry_after_secs = last_retry_after;
        error = none;
      }))
  on_answer channel_id text attempts last_retry_after (ok (rate_limited retry_after_secs)) =
      if leb (max_attempts_for_channel channel_id) attempts
      then finished (
          ok (record {
            text = text;
            status = "rate_limited";
            platform_message_id = none;
            attempts = attempts;
            retry_after_secs = retry_after_secs;
            error = some "rate limited";
          }))
      else waits (retry_delay_secs channel_id attempts retry_after_secs) retry_after_secs
  on_answer channel_id text attempts last_retry_after (ok (failed reason)) =
      if leb (max_attempts_for_channel channel_id) attempts
        || not (should_retry_send_failure channel_id reason)
      then finished (
          ok (record {
            text = text;
            status = "failed";
            platform_message_id = none;
            attempts = attempts;
            retry_after_secs = none;
            error = some reason;
          }))
      else waits (retry_delay_secs channel_id attempts none) last_retry_after
  on_answer channel_id text attempts last_retry_after (err e) =
      if leb (max_attempts_for_channel channel_id) attempts
        || not (should_retry_send_failure channel_id (to_string e))
      then finished (err e)
      else waits (retry_delay_secs channel_id attempts none) last_retry_after

  module _ (send : ℕ → Result SendResult) where
    -- The loop, after `attempts` of its rounds and `n` sends in all.
    unfoldable pub send_loop : String → List ℕ → ℕ → ℕ → Option ℕ → ℕ → Option Attempted
    unfolding on_answer slept_before
    send_loop channel_id text zero attempts last_retry_after n = none
    send_loop channel_id text (suc fuel) attempts last_retry_after n =
        elim (on_answer channel_id text (suc attempts) last_retry_after (send n)) [
          | finished result ↦ some (record { result = result; next = suc n; slept = [] })
          | waits delay retry_after ↦
              slept_before delay (send_loop channel_id text fuel (suc attempts) retry_after (suc n))
        ]

    unfoldable pub send_outbound_chunk : String → List ℕ → ℕ → Option Attempted
    unfolding send_loop
    send_outbound_chunk channel_id text n =
        send_loop channel_id text (max_attempts_for_channel channel_id) 0 none n

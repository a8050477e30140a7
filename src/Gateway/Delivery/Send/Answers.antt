-- ===== src/Gateway/Delivery/Send/Answers.antt =====
-- What an answer of the channel leads to.
use frankclaw.Prelude.{
  ℕ, ◌≤◌, ◌<◌, ◌≡◌, ◌⊎◌, inl, inr, refl, Bool, true, false, Bool-cases, not, leb, ◌||◌, Option,
  none, some, List, String, arith,
}
use frankclaw.Core.Error.{Result, ok, err, to_string}
use frankclaw.Gateway.Delivery.Send.{
  SendResult, sent, rate_limited, failed, DeliveryChunkRecord, Step, finished, waits,
  max_attempts_for_channel, max_retry_delay_secs, clamp_delay, retry_delay_secs,
  should_retry_send_failure, on_answer,
}

-- What a record calls an answer.
abbrev pub status_of : SendResult → String
status_of (sent id) = "sent"
status_of (rate_limited secs) = "rate_limited"
status_of (failed reason) = "failed"

abbrev pub id_of : SendResult → Option String
id_of (sent id) = some id
id_of (rate_limited secs) = none
id_of (failed reason) = none

-- The result tells the answer and the number of attempts.
abbrev pub Reports : List ℕ → ℕ → Result SendResult → Result DeliveryChunkRecord → Type 0
Reports text attempts (ok answer) (ok r) =
    (r.text ≡ text)
    × (r.attempts ≡ attempts)
    × (r.status ≡ status_of answer)
    × (r.platform_message_id ≡ id_of answer)
Reports text attempts (ok answer) (err e) = ⊥
Reports text attempts (err e) (ok r) = ⊥
Reports text attempts (err e) (err e') = e ≡ e'

abbrev pub Delay : ℕ → Type 0
Delay secs = (1 ≤ secs) × (secs ≤ max_retry_delay_secs)

clamp_delay-Delay : (secs : ℕ) → Delay (clamp_delay secs)
clamp_delay-Delay secs = (omega arith, omega arith)

retry_delay_secs-Delay :
    (channel_id : String) (attempts : ℕ) (secs : Option ℕ)
    → Delay (retry_delay_secs channel_id attempts secs)
unfolding retry_delay_secs
retry_delay_secs-Delay channel_id attempts none = clamp_delay-Delay _
retry_delay_secs-Delay channel_id attempts (some secs) = clamp_delay-Delay secs

pub max_attempts-pos : (channel_id : String) → 1 ≤ max_attempts_for_channel channel_id
unfolding max_attempts_for_channel
max_attempts-pos channel_id = ground arith

pub Step-cases :
    (s : Step)
    → ((result : Result DeliveryChunkRecord) × (s ≡ finished result))
      ⊎ ((delay : ℕ) × (last : Option ℕ) × (s ≡ waits delay last))
Step-cases (finished result) = inl (result, refl)
Step-cases (waits delay last) = inr (delay, last, refl)

module _ (is_whitespace : ℕ → Bool) (channel_id : String) (text : List ℕ) where
  -- The answers that are tried again.
  abbrev pub is_transient : Result SendResult → Bool
  is_transient (ok (sent id)) = false
  is_transient (ok (rate_limited secs)) = true
  is_transient (ok (failed reason)) = should_retry_send_failure is_whitespace channel_id reason
  is_transient (err e) = should_retry_send_failure is_whitespace channel_id (to_string e)

  tried_again :
      (attempts : ℕ) (again : Bool)
      → ((leb (max_attempts_for_channel channel_id) attempts || not again) ≡ true)
          × ((max_attempts_for_channel channel_id ≤ attempts) ⊎ (again ≡ false))
        ⊎ ((leb (max_attempts_for_channel channel_id) attempts || not again) ≡ false)
          × (attempts < max_attempts_for_channel channel_id)
          × (again ≡ true)
  tried_again attempts again = ground arith

  -- Where a round goes on.
  abbrev pub Goes : ℕ → Result SendResult → Step → Type 0
  Goes attempts answer (finished result) =
      ((max_attempts_for_channel channel_id ≤ attempts) ⊎ (is_transient answer ≡ false))
      × Reports text attempts answer result
  Goes attempts answer (waits delay last) =
      (attempts < max_attempts_for_channel channel_id) × (is_transient answer ≡ true) × Delay delay

  pub on_answer-Goes :
      (attempts : ℕ) (last : Option ℕ) (answer : Result SendResult)
      → Goes attempts answer (on_answer is_whitespace channel_id text attempts last answer)
  unfolding on_answer
  on_answer-Goes attempts last (ok (sent id)) = (inr refl, (refl, refl, refl, refl))
  on_answer-Goes attempts last (ok (rate_limited secs)) =
      elim (Bool-cases (leb (max_attempts_for_channel channel_id) attempts)) [
        | inl over ↦ rw over (inl (ground arith), (refl, refl, refl, refl))
        | inr under ↦ rw under (ground arith, refl, retry_delay_secs-Delay channel_id attempts secs)
      ]
  on_answer-Goes attempts last (ok (failed reason)) =
      elim (tried_again attempts (should_retry_send_failure is_whitespace channel_id reason)) [
        | inl (over, stop) ↦ rw over (stop, (refl, refl, refl, refl))
        | inr (under, few, again) ↦
            rw under (few, again, retry_delay_secs-Delay channel_id attempts none)
      ]
  on_answer-Goes attempts last (err e) =
      elim (tried_again attempts
        (should_retry_send_failure is_whitespace channel_id (to_string e))) [
          | inl (over, stop) ↦ rw over (stop, refl)
          | inr (under, few, again) ↦
              rw under (few, again, retry_delay_secs-Delay channel_id attempts none)
        ]

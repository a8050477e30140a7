-- ===== src/Gateway/Delivery/Stream.antt =====
-- The pseudo-streaming of crates/frankclaw-gateway/src/delivery.rs. The channel is a parameter: its
-- capabilities, and what it answers to its `n`-th call, whatever the call is.
pub mod Chunk
mod Tests
use frankclaw.Prelude.{
  ℕ, zero, suc, ◌+◌, ◌*◌, ◌/◌, Bool, true, false, not, ◌&&◌, ◌||◌, Option, none, some, List, [],
  ◌∷◌, ◌++◌, String, leb, ltb, nat_eqb, length, drop, if◌then◌else◌,
}
use frankclaw.Core.Error.{Result, ok, err}
use frankclaw.Gateway.Delivery.Split.{is_nil, take, trim}
use frankclaw.Gateway.Delivery.Message.{OutboundMessage, no_attachments}
use frankclaw.Gateway.Delivery.Send.{SendResult, Attempted, send_outbound_chunk}

abbrev pub pseudo_stream_min_chars : ℕ
pseudo_stream_min_chars = 240

-- What the code uses of a `ChannelPlugin` and its `ChannelCapabilities`; `stream_start` gives the
-- `draft_message_id` of its handle.
pub record Channel : Type 0 where
  pub streaming : Bool
  pub edit : Bool
  pub send : ℕ → Result SendResult
  pub stream_start : ℕ → Result String
  pub stream_update : ℕ → Result {0} Unit
  pub stream_end : ℕ → Result {0} Unit

unfoldable pub should_pseudo_stream : Channel → OutboundMessage → Bool
should_pseudo_stream channel outbound =
    channel.streaming
    && channel.edit
    && no_attachments outbound.attachments
    && leb pseudo_stream_min_chars (length outbound.text)

-- `==` of texts.
text_eqb : List ℕ → List ℕ → Bool
text_eqb [] [] = true
text_eqb (c ∷ cs) (d ∷ ds) = nat_eqb c d && text_eqb cs ds
text_eqb _ _ = false

-- `.`, `!`, `?`, `,`, `;` and `:`.
is_stop : ℕ → Bool
is_stop c =
    nat_eqb c 46 || nat_eqb c 33 || nat_eqb c 63 || nat_eqb c 44 || nat_eqb c 59 || nat_eqb c 58

-- `steps.last() == Some(&text)`.
last_is : List ℕ → List (List ℕ) → Bool
unfolding text_eqb
last_is text [] = false
last_is text (step ∷ []) = text_eqb step text
last_is text (step ∷ next ∷ steps) = last_is text (next ∷ steps)

-- The push of a candidate that is not the last step.
pushed : List (List ℕ) → Option (List ℕ) → List (List ℕ)
unfolding last_is
pushed steps none = steps
pushed steps (some candidate) = if last_is candidate steps then steps else steps ++ (candidate ∷ [])

-- `steps.iter().take(steps.len() - 1).skip(1)`.
but_last : List (List ℕ) → List (List ℕ)
but_last [] = []
but_last (step ∷ []) = []
but_last (step ∷ next ∷ steps) = step ∷ but_last (next ∷ steps)

unfoldable pub inner_steps : List (List ℕ) → List (List ℕ)
unfolding but_last
inner_steps steps = drop 1 (but_last steps)

module _ (is_whitespace : ℕ → Bool) where
  -- The loop of `preview_slice` after `count` characters: the end of the slice.
  preview_end : ℕ → ℕ → List ℕ → ℕ
  unfolding is_stop
  preview_end target_chars count [] = count
  preview_end target_chars count (c ∷ cs) =
      let later = preview_end target_chars (suc count) cs in
      if leb target_chars (suc count) && (is_whitespace c || is_stop c) then suc count else later

  unfoldable pub preview_slice : List ℕ → ℕ → Option (List ℕ)
  unfolding preview_end trim take is_nil text_eqb
  preview_slice text target_chars =
      let candidate = trim is_whitespace (take (preview_end target_chars 0 text) text) in
      if is_nil text || is_nil candidate || text_eqb candidate text then none else some candidate

  -- The steps of a trimmed text.
  steps_of : List ℕ → List (List ℕ)
  unfolding pushed preview_slice
  steps_of text =
      let first = pushed [] (preview_slice text (length text * 1 / 3)) in
      let second = pushed first (preview_slice text (length text * 2 / 3)) in
      pushed second (some text)

  unfoldable pub pseudo_stream_steps : List ℕ → List (List ℕ)
  unfolding steps_of trim
  pseudo_stream_steps text =
      let trimmed = trim is_whitespace text in
      if ltb (length trimmed) pseudo_stream_min_chars then trimmed ∷ [] else steps_of trimmed

  module _ (channel : Channel) where
    -- `stream_end` and the record that is returned.
    unfoldable pub end_stream : List ℕ → String → ℕ → Attempted
    end_stream text draft_message_id n = record {
      result = elim (channel.stream_end n) [
        | err e ↦ err e
        | ok u ↦ ok (record {
          text = text;
          status = "sent";
          platform_message_id = some draft_message_id;
          attempts = 1;
          retry_after_secs = none;
          error = none;
        })
      ];
      next = suc n;
      slept = [];
    }

    -- The loop over the inner steps, which an update that fails ends.
    unfoldable pub update_stream : List ℕ → String → List (List ℕ) → ℕ → Attempted
    unfolding end_stream
    update_stream text draft_message_id [] n = end_stream text draft_message_id n
    update_stream text draft_message_id (step ∷ steps) n = elim (channel.stream_update n) [
      | err e ↦ end_stream text draft_message_id (suc n)
      | ok u ↦ update_stream text draft_message_id steps (suc n)
    ]

    unfoldable pub send_streamed_chunk : String → List ℕ → ℕ → Option Attempted
    unfolding inner_steps pseudo_stream_steps update_stream
    send_streamed_chunk channel_id text n =
        let steps = pseudo_stream_steps text in
        if ltb (length steps) 2
        then send_outbound_chunk is_whitespace channel.send channel_id text n
        else elim (channel.stream_start n) [
          | err e ↦ send_outbound_chunk is_whitespace channel.send channel_id text (suc n)
          | ok draft ↦ some (update_stream text draft (inner_steps steps) (suc n))
        ]

    -- The choice that `deliver_outbound_message` makes for each chunk.
    unfoldable pub send_chunk : String → OutboundMessage → ℕ → Option Attempted
    unfolding should_pseudo_stream send_streamed_chunk
    send_chunk channel_id outbound n =
        if should_pseudo_stream channel outbound
        then send_streamed_chunk channel_id outbound.text n
        else send_outbound_chunk is_whitespace channel.send channel_id outbound.text n

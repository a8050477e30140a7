-- ===== src/Gateway/Delivery/Reply/Tests.antt =====
-- A channel that is busy at first and fails later, and messages with attachments.
use frankclaw.Prelude.{
  ℕ, zero, suc, ◌≡◌, refl, Bool, true, false, Option, none, some, List, [], ◌∷◌, chars, map,
  nat_eqb, length, String, starts_with,
}
use frankclaw.Core.Error.{Result, ok, err, auth_failed, invalid_request, to_string}
use frankclaw.Gateway.Delivery.Split.{is_nil, trim, trim_start, trim_end}
use frankclaw.Gateway.Delivery.Message.{
  OutboundAttachment, OutboundMessage, StoredMediaContent, hydrate_outbound_attachments,
  split_outbound_message, split_attachment_batches, split_telegram_attachment_batches,
  telegram_attachment_batch_kind, no_attachments,
}
use frankclaw.Gateway.Delivery.Send.{
  SendResult, sent, rate_limited, max_attempts_for_channel, send_outbound_chunk,
  should_retry_send_failure, to_ascii_lowercase,
}
use frankclaw.Gateway.Delivery.Stream.{Channel, send_chunk, should_pseudo_stream}
use frankclaw.Gateway.Delivery.Reply.{
  DeliveryRecord, no_progress, deliver_chunks, deliver_outbound_message,
}
use frankclaw.Gateway.Delivery.Reply.Sent.{Outcome, deliver_outbound_message-Delivered}

abbrev is_space : ℕ → Bool
is_space = nat_eqb 32

abbrev busy_answers : ℕ → Result SendResult
busy_answers zero = ok (rate_limited (some 60))
busy_answers (suc zero) = ok (sent "m1")
busy_answers (suc (suc n)) = err auth_failed

abbrev busy_first : Channel
busy_first = record {
  streaming = false;
  edit = true;
  send = busy_answers;
  stream_start = λ n. err auth_failed;
  stream_update = λ n. err auth_failed;
  stream_end = λ n. err auth_failed;
}

abbrev plain : List ℕ → OutboundMessage
plain text = record { text = text; attachments = []; reply_to = none }

-- The first chunk of a reply was sent, but the delivery tells only the error of the second.
first_chunk_lost :
    deliver_chunks is_space busy_first "signal"
      (plain (chars "hello") ∷ plain (chars "again") ∷ [])
      no_progress
      0
    ≡ some (err auth_failed, 3)
unfolding deliver_chunks send_chunk should_pseudo_stream send_outbound_chunk
    should_retry_send_failure max_attempts_for_channel to_string
first_chunk_lost = refl

abbrev attached : String → String → OutboundAttachment
attached id mime = record {
  media_id = id;
  mime_type = mime;
  filename = none;
  url = none;
  bytes = 1 ∷ [];
}

-- Two pictures, a sound and a picture make three messages of Telegram, and the first has the text.
abbrev album : OutboundMessage
album = record {
  text = chars "look";
  attachments =
      attached "a" "image/png"
      ∷ attached "b" " Image/JPEG"
      ∷ attached "c" "audio/ogg"
      ∷ attached "d" "video/mp4"
      ∷ [];
  reply_to = some "m0";
}

three_batches :
    map {B = ℕ × ℕ}
      (λ m. (length m.text, length m.attachments))
      (split_outbound_message is_space "telegram" album)
    ≡ (4, 2) ∷ (0, 1) ∷ (0, 1) ∷ []
unfolding split_outbound_message split_attachment_batches split_telegram_attachment_batches
    telegram_attachment_batch_kind no_attachments trim trim_start trim_end is_nil to_ascii_lowercase
    starts_with
three_batches = refl

abbrev empty_store : String → Result (Option StoredMediaContent)
empty_store id = ok none

abbrev unread : OutboundMessage
unread = record {
  text = chars "look";
  attachments =
      record { media_id = "x"; mime_type = ""; filename = none; url = none; bytes = [] } ∷ [];
  reply_to = none;
}

missing_media :
    deliver_outbound_message is_space busy_first "signal" unread (some empty_store) 0
    ≡ some (err (invalid_request "missing outbound media x"), 0)
unfolding deliver_outbound_message hydrate_outbound_attachments is_nil
missing_media = refl

deliver_outbound_message-Delivered_example :
    (result : Result DeliveryRecord) × (next : ℕ) × (deliver_outbound_message is_space busy_first
        "signal"
        (plain (chars "hello"))
        none
        0
      ≡ some (result, next))
    × Outcome is_space busy_first "signal" 0
        (hydrate_outbound_attachments is_space (plain (chars "hello")) none)
        next
        result
deliver_outbound_message-Delivered_example =
    deliver_outbound_message-Delivered is_space busy_first "signal" (plain (chars "hello")) none 0

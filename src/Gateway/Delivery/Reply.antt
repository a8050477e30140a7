-- ===== src/Gateway/Delivery/Reply.antt =====
-- `deliver_outbound_message` of crates/frankclaw-gateway/src/delivery.rs: the stored attachments of a
-- reply are read, it is split into chunks, and each is sent or streamed, one after the other.
pub mod Steps
pub mod Sent
mod Tests
use frankclaw.Prelude.{
  ℕ, ◌+◌, Bool, not, Option, none, some, List, [], ◌∷◌, ◌++◌, ◌==◌, string_eq, String, leb, length,
  if◌then◌else◌,
}
use frankclaw.Core.Error.{Result, ok, err}
use frankclaw.Gateway.Delivery.Message.{
  OutboundMessage, StoredMediaContent, hydrate_outbound_attachments, split_outbound_message,
}
use frankclaw.Gateway.Delivery.Send.{DeliveryChunkRecord}
use frankclaw.Gateway.Delivery.Stream.{Channel, send_chunk}

pub record DeliveryRecord : Type 0 where
  pub status : String
  pub platform_message_id : Option String
  pub attempts : ℕ
  pub retry_after_secs : Option ℕ
  pub error : Option String
  pub chunks : List DeliveryChunkRecord

-- What the loop keeps.
pub record Progress : Type 0 where
  pub total_attempts : ℕ
  pub last_platform_message_id : Option String
  pub last_retry_after : Option ℕ
  pub chunks : List DeliveryChunkRecord

abbrev pub no_progress : Progress
no_progress = record {
  total_attempts = 0;
  last_platform_message_id = none;
  last_retry_after = none;
  chunks = [];
}

-- The id of this chunk, if it has one, or else the last one.
id_or : Option String → Option String → Option String
id_or none last = last
id_or (some id) last = some id

unfoldable pub progressed : Progress → DeliveryChunkRecord → Progress
unfolding id_or
progressed p r = record {
  total_attempts = p.total_attempts + r.attempts;
  last_platform_message_id = id_or r.platform_message_id p.last_platform_message_id;
  last_retry_after = r.retry_after_secs;
  chunks = p.chunks ++ (r ∷ []);
}

unfoldable pub ended : Progress → String → Option String → DeliveryRecord
ended p status error = record {
  status = status;
  platform_message_id = p.last_platform_message_id;
  attempts = p.total_attempts;
  retry_after_secs = p.last_retry_after;
  error = error;
  chunks = p.chunks;
}

module _ (is_whitespace : ℕ → Bool) (channel : Channel) (channel_id : String) where
  -- The loop over the chunks, from the `n`-th call of the channel on: the result, if the attempts of each
  -- chunk end, and the number of calls by then.
  unfoldable pub deliver_chunks :
      List OutboundMessage → Progress → ℕ → Option (Result DeliveryRecord × ℕ)
  unfolding progressed ended
  deliver_chunks [] p n = some (ok (ended p "sent" none), n)
  deliver_chunks (chunk ∷ chunks) p n = elim (send_chunk is_whitespace channel channel_id chunk n) [
    | none ↦ none
    | some a ↦ elim a.result [
      | err e ↦ some (err e, a.next)
      | ok r ↦
          let rest = deliver_chunks chunks (progressed p r) a.next in
          if not (r.status == "sent")
          then some (ok (ended (progressed p r) r.status r.error), a.next)
          else rest
    ]
  ]

  unfoldable pub deliver_outbound_message :
      OutboundMessage
      → Option (String → Result (Option StoredMediaContent))
      → ℕ
      → Option (Result DeliveryRecord × ℕ)
  unfolding deliver_chunks
  deliver_outbound_message outbound media n =
      elim (hydrate_outbound_attachments is_whitespace outbound media) [
        | err e ↦ some (err e, n)
        | ok hydrated ↦
            deliver_chunks (split_outbound_message is_whitespace channel_id hydrated) no_progress n
      ]

-- ===== src/Gateway/Delivery/Message.antt =====
-- The message of a reply in crates/frankclaw-gateway/src/delivery.rs, with its attachments, and the
-- messages that it is split into. Of a message, the fields that a part may change are modelled. What the
-- media store reads for an id is a parameter.
use Prim.Native.String.{◌++◌}
use frankclaw.Prelude.{
  ℕ, zero, suc, Bool, true, false, not, ◌||◌, ◌==◌, string_eq, Option, none, some, List, [], ◌∷◌,
  ◌++◌ as append, String, chars, starts_with, leb, length, drop, if◌then◌else◌,
}
use frankclaw.Core.Error.{Result, ok, err, invalid_request}
use frankclaw.Gateway.Delivery.Split.{is_nil, trim, max_chars_for_channel, split_text}
use frankclaw.Gateway.Delivery.Send.{to_ascii_lowercase}

pub record OutboundAttachment : Type 0 where
  pub media_id : String
  pub mime_type : String
  pub filename : Option String
  pub url : Option String
  pub bytes : List ℕ

pub record OutboundMessage : Type 0 where
  pub text : List ℕ
  pub attachments : List OutboundAttachment
  pub reply_to : Option String

-- `StoredMediaContent` of crates/frankclaw-media/src/store.rs.
pub record StoredMediaContent : Type 0 where
  pub bytes : List ℕ
  pub mime_type : String
  pub filename : String

-- `if field.is_none() { field = Some(value) }`.
abbrev filled : Option String → String → Option String
filled none value = some value
filled (some old) value = some old

-- `attachments.is_empty()`.
unfoldable pub no_attachments : List OutboundAttachment → Bool
no_attachments [] = true
no_attachments (a ∷ rest) = false

-- `attachments.take(n)`.
take_attachments : ℕ → List OutboundAttachment → List OutboundAttachment
take_attachments zero attachments = []
take_attachments (suc n) [] = []
take_attachments (suc n) (a ∷ rest) = a ∷ take_attachments n rest

-- The loop of `split_attachment_vec`, with as many rounds as fuel.
batches_of : ℕ → ℕ → List OutboundAttachment → List (List OutboundAttachment)
unfolding take_attachments no_attachments
batches_of zero batch_size attachments = []
batches_of (suc fuel) batch_size attachments =
    let rest = batches_of fuel batch_size (drop batch_size attachments) in
    if no_attachments (take_attachments batch_size attachments)
    then []
    else take_attachments batch_size attachments ∷ rest

-- A round takes an attachment off, for a batch size above 0.
unfoldable pub split_attachment_vec : List OutboundAttachment → ℕ → List (List OutboundAttachment)
unfolding batches_of
split_attachment_vec attachments batch_size = batches_of (length attachments) batch_size attachments

pub data TelegramAttachmentBatchKind : Type 0 where
  visual audio document : TelegramAttachmentBatchKind

-- The derived `==` of the kinds.
kind_eqb : TelegramAttachmentBatchKind → TelegramAttachmentBatchKind → Bool
kind_eqb visual visual = true
kind_eqb audio audio = true
kind_eqb document document = true
kind_eqb _ _ = false

-- `current_kind.map(|kind| kind == attachment_kind).unwrap_or(true)`.
is_compatible : Option TelegramAttachmentBatchKind → TelegramAttachmentBatchKind → Bool
unfolding kind_eqb
is_compatible none attachment_kind = true
is_compatible (some kind) attachment_kind = kind_eqb kind attachment_kind

-- `current_kind`, or else this one.
kind_or :
    Option TelegramAttachmentBatchKind → TelegramAttachmentBatchKind → TelegramAttachmentBatchKind
kind_or none attachment_kind = attachment_kind
kind_or (some kind) attachment_kind = kind

-- `if !current.is_empty() { batches.push(current) }`.
flushed : List (List OutboundAttachment) → List OutboundAttachment → List (List OutboundAttachment)
flushed batches [] = batches
flushed batches (a ∷ rest) = append batches ((a ∷ rest) ∷ [])

-- The messages of the batches: the first one keeps the text and the reply.
batch_messages : OutboundMessage → Bool → List (List OutboundAttachment) → List OutboundMessage
batch_messages m is_first [] = []
batch_messages m true (batch ∷ batches) =
    record m { attachments = batch } ∷ batch_messages m false batches
batch_messages m false (batch ∷ batches) =
    record { text = []; attachments = batch; reply_to = none } ∷ batch_messages m false batches

-- The messages of the chunks of a text: the first one keeps the reply.
text_messages : OutboundMessage → Bool → List (List ℕ) → List OutboundMessage
text_messages m is_first [] = []
text_messages m true (text ∷ texts) = record m { text = text } ∷ text_messages m false texts
text_messages m false (text ∷ texts) =
    record m { text = text; reply_to = none } ∷ text_messages m false texts

module _ (is_whitespace : ℕ → Bool) where
  -- The change of an attachment in the loop of `hydrate_outbound_attachments`.
  with_stored : OutboundAttachment → StoredMediaContent → OutboundAttachment
  unfolding is_nil trim
  with_stored a stored = record {
    media_id = a.media_id;
    bytes = stored.bytes;
    filename = filled a.filename stored.filename;
    url = filled a.url ("/api/media/" ++ a.media_id);
    mime_type =
        if is_nil (trim is_whitespace (chars a.mime_type)) then stored.mime_type else a.mime_type;
  }

  hydrate_all :
      (String → Result (Option StoredMediaContent))
      → List OutboundAttachment
      → Result (List OutboundAttachment)
  unfolding with_stored is_nil
  hydrate_all read [] = ok []
  hydrate_all read (a ∷ rest) =
      let later = hydrate_all read rest in
      if not (is_nil a.bytes)
      then elim later [ err e ↦ err e | ok done ↦ ok (a ∷ done) ]
      else elim (read a.media_id) [
        | err e ↦ err e
        | ok none ↦ err (invalid_request ("missing outbound media " ++ a.media_id))
        | ok (some stored) ↦ elim later [
          | err e ↦ err e
          | ok done ↦ ok (with_stored a stored ∷ done)
        ]
      ]

  -- `media` is what its `read` gives for an id, where there is a store.
  unfoldable pub hydrate_outbound_attachments :
      OutboundMessage
      → Option (String → Result (Option StoredMediaContent))
      → Result OutboundMessage
  unfolding hydrate_all
  hydrate_outbound_attachments outbound none = ok outbound
  hydrate_outbound_attachments outbound (some read) = elim (hydrate_all read outbound.attachments) [
    | err e ↦ err e
    | ok done ↦ ok (record outbound { attachments = done })
  ]

  unfoldable pub telegram_attachment_batch_kind : String → TelegramAttachmentBatchKind
  unfolding trim
  telegram_attachment_batch_kind mime_type =
      let lowered = to_ascii_lowercase (trim is_whitespace (chars mime_type)) in
      if starts_with (chars "image/") lowered || starts_with (chars "video/") lowered
      then visual
      else if starts_with (chars "audio/") lowered
      then audio
      else document

  -- The loop of `split_telegram_attachment_batches`.
  telegram_batches :
      List OutboundAttachment
      → List (List OutboundAttachment)
      → List OutboundAttachment
      → Option TelegramAttachmentBatchKind
      → List (List OutboundAttachment)
  unfolding flushed is_compatible kind_or telegram_attachment_batch_kind
  telegram_batches [] batches current current_kind = flushed batches current
  telegram_batches (a ∷ rest) batches current current_kind =
      let kind = telegram_attachment_batch_kind a.mime_type in
      let closed = telegram_batches rest (flushed batches current) (a ∷ []) (some kind) in
      let open_ =
        telegram_batches rest batches (append current (a ∷ []))
          (some (kind_or current_kind kind)) in
      if not (is_compatible current_kind kind) || leb 10 (length current) then closed else open_

  unfoldable pub split_telegram_attachment_batches :
      List OutboundAttachment → List (List OutboundAttachment)
  unfolding telegram_batches
  split_telegram_attachment_batches attachments = telegram_batches attachments [] [] none

  -- The messages of the groups, where there is more than one group.
  grouped_messages : OutboundMessage → List (List OutboundAttachment) → List OutboundMessage
  unfolding batch_messages
  grouped_messages outbound grouped =
      if leb (length grouped) 1 then outbound ∷ [] else batch_messages outbound true grouped

  unfoldable pub split_attachment_batches : String → OutboundMessage → List OutboundMessage
  unfolding grouped_messages
  split_attachment_batches channel_id outbound =
      if no_attachments outbound.attachments
      then outbound ∷ []
      else if channel_id == "whatsapp"
      then grouped_messages outbound (split_attachment_vec outbound.attachments 1)
      else if channel_id == "telegram"
      then grouped_messages outbound (split_telegram_attachment_batches outbound.attachments)
      else outbound ∷ []

  -- What `split_outbound_message` makes of a message that is one batch.
  unfoldable pub split_one : String → OutboundMessage → List OutboundMessage
  unfolding text_messages
  split_one channel_id outbound = elim (max_chars_for_channel channel_id) [
    | none ↦ outbound ∷ []
    | some max_chars ↦
        if not (no_attachments outbound.attachments) || leb (length outbound.text) max_chars
        then outbound ∷ []
        else text_messages outbound true (split_text is_whitespace outbound.text max_chars)
  ]

  -- There is always a batch.
  split_batches : String → List OutboundMessage → List OutboundMessage
  unfolding split_one
  split_batches channel_id [] = []
  split_batches channel_id (outbound ∷ []) = split_one channel_id outbound
  split_batches channel_id (first ∷ second ∷ rest) = first ∷ second ∷ rest

  unfoldable pub split_outbound_message : String → OutboundMessage → List OutboundMessage
  unfolding split_attachment_batches split_batches
  split_outbound_message channel_id outbound =
      split_batches channel_id (split_attachment_batches channel_id outbound)

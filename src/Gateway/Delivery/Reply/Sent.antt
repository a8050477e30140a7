-- ===== src/Gateway/Delivery/Reply/Sent.antt =====
-- What a delivery sends and reports.
use frankclaw.Prelude.{
  ℕ, ◌+◌, ◌*◌, ◌≤◌, ◌≡◌, ◌∙◌, inl, inr, refl, sym, Bool, Bool-cases, none, some, List, [], ◌∷◌,
  String, Option, ◌==◌, string_eq, ==_iff, length, arith,
}
use mathlib.Core.List.{append-nil}
use frankclaw.Core.Error.{Result, ok, err, Result-cases}
use frankclaw.Gateway.Delivery.Message.{
  OutboundMessage, StoredMediaContent, hydrate_outbound_attachments, split_outbound_message,
}
use frankclaw.Gateway.Delivery.Stream.{Channel}
use frankclaw.Gateway.Delivery.Stream.Chunk.{send_chunk-Comes}
use frankclaw.Gateway.Delivery.Reply.{
  DeliveryRecord, Progress, no_progress, progressed, ended, deliver_chunks,
  deliver_outbound_message,
}
use frankclaw.Gateway.Delivery.Reply.Steps.{
  Delivered, calls_of_chunk, status_other, few_more, chunk_ok, chunk_err, one_chunk_more,
  deliver_go, deliver_stop, deliver_err,
}

module _ (is_whitespace : ℕ → Bool) (channel : Channel) (channel_id : String) where
  deliver_chunks-Delivered :
      (chunks : List OutboundMessage) (p : Progress) (n : ℕ)
      → (result : Result DeliveryRecord) × (next : ℕ) × (deliver_chunks is_whitespace channel
            channel_id chunks p n
          ≡ some (result, next))
        × (next ≤ n + calls_of_chunk is_whitespace channel channel_id * length chunks)
        × Delivered is_whitespace channel channel_id chunks p n next result
  unfolding deliver_chunks ended progressed
  deliver_chunks-Delivered [] p n = (
    ok (ended p "sent" none),
    n,
    refl,
    omega arith,
    ([], [], sym (append-nil p.chunks), refl, omega arith, omega arith, inl (refl, tt, refl)),
  )
  deliver_chunks-Delivered (chunk ∷ chunks) p n =
      let (a, got, told) = send_chunk-Comes is_whitespace channel channel_id chunk n in
      elim (Result-cases a.result) [
        | inl (r, answered) ↦
            let (same, count) =
              chunk_ok is_whitespace channel channel_id chunk.text n a r told answered in
            elim (Bool-cases (r.status == "sent")) [
              | inl is_sent ↦
                  let (result, next, done, few, all) =
                    deliver_chunks-Delivered chunks (progressed p r) a.next in
                  (
                    result,
                    next,
                    deliver_go is_whitespace channel channel_id chunk chunks p n a r got answered
                          is_sent
                        ∙ done,
                    few_more _ (length chunks) next a.next n (told.1) few,
                    one_chunk_more is_whitespace channel channel_id chunk chunks p n a.next next r
                        result same count ((==_iff r.status "sent").0 is_sent) all,
                  )
              | inr not_sent ↦ (
                ok (ended (progressed p r) r.status r.error),
                a.next,
                deliver_stop is_whitespace channel channel_id chunk chunks p n a r got answered
                    not_sent,
                few_more _ (length chunks) a.next a.next n (told.1) (omega arith),
                (
                  r ∷ [],
                  chunks,
                  refl,
                  rw same refl,
                  omega arith,
                  omega arith,
                  inr (status_other r.status not_sent),
                ),
              )
            ]
        | inr (e, answered) ↦ (
          err e,
          a.next,
          deliver_err is_whitespace channel channel_id chunk chunks p n a e got answered,
          few_more _ (length chunks) a.next a.next n (told.1) (omega arith),
          chunk_err is_whitespace channel channel_id chunk.text n a e told answered,
        )
      ]

  -- What comes of a message whose attachments were read, or were not.
  abbrev pub Outcome : ℕ → Result OutboundMessage → ℕ → Result DeliveryRecord → Type 0
  Outcome n (err e) next result = (result ≡ err e) × (next ≡ n)
  Outcome n (ok hydrated) next result =
      (next
        ≤ n
          + calls_of_chunk is_whitespace channel channel_id
            * length (split_outbound_message is_whitespace channel_id hydrated))
      × Delivered is_whitespace channel channel_id
          (split_outbound_message is_whitespace channel_id hydrated) no_progress n next result

  -- A delivery ends. When an attachment cannot be read, it returns that error without a call of the channel.
  -- Otherwise it makes at most one call more for each chunk than the channel has attempts, streamed chunks
  -- included, and returns the error that the channel answered last, to a send or to the end of a stream,
  -- or a record of the first chunks of the message, in their order, whose number of attempts is the sum of
  -- theirs and at most that of the calls made, and whose status is `sent` only if it is that of each chunk
  -- and no chunk is left.
  pub deliver_outbound_message-Delivered :
      (outbound : OutboundMessage) (media : Option (String → Result (Option StoredMediaContent)))
      (n : ℕ)
      → (result : Result DeliveryRecord) × (next : ℕ) × (deliver_outbound_message is_whitespace
            channel channel_id outbound media n
          ≡ some (result, next))
        × Outcome n (hydrate_outbound_attachments is_whitespace outbound media) next result
  unfolding deliver_outbound_message
  deliver_outbound_message-Delivered outbound media n =
      elim (Result-cases (hydrate_outbound_attachments is_whitespace outbound media)) [
        | inr (e, missing) ↦
            (err e, n, rw (missing, deliver_outbound_message) refl, rw missing (refl, refl))
        | inl (hydrated, read) ↦
            let (result, next, done, few, all) =
              deliver_chunks-Delivered (split_outbound_message is_whitespace channel_id hydrated)
                no_progress n in
            (result, next, rw (read, deliver_outbound_message) done, rw read (few, all))
      ]

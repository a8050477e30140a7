-- ===== src/Gateway/Delivery/Stream/Chunk.antt =====
-- What a chunk comes to, streamed or not.
use frankclaw.Prelude.{
  ℕ, suc, ◌+◌, ◌-◌, ◌*◌, ◌/◌, ◌∙◌, ap, ◌≤◌, ◌<◌, ◌≡◌, ◌⊎◌, inl, inr, refl, Bool, Bool-cases, Option,
  none, some, List, [], ◌∷◌, String, ltb, length, length-drop, length-append, arith,
}
use frankclaw.Core.Error.{Result, ok, err, Result-cases}
use frankclaw.Gateway.Delivery.Split.{trim}
use frankclaw.Gateway.Delivery.Message.{OutboundMessage}
use frankclaw.Gateway.Delivery.Send.{
  SendResult, Attempted, DeliveryChunkRecord, max_attempts_for_channel, send_outbound_chunk,
}
use frankclaw.Gateway.Delivery.Send.Answers.{Reports, status_of}
use frankclaw.Gateway.Delivery.Send.Attempts.{Tried, send_outbound_chunk-Tried}
use frankclaw.Gateway.Delivery.Stream.{
  Channel, should_pseudo_stream, pushed, but_last, inner_steps, steps_of, pseudo_stream_steps,
  preview_slice, end_stream, update_stream, send_streamed_chunk, send_chunk,
}

length-pushed-le :
    (steps : List (List ℕ)) (candidate : Option (List ℕ))
    → length (pushed steps candidate) ≤ length steps + 1
unfolding pushed
length-pushed-le steps none = omega arith
length-pushed-le steps (some candidate) = ground (arith, length-append steps (candidate ∷ []))

length-but_last : (steps : List (List ℕ)) → length (but_last steps) ≤ length steps - 1
unfolding but_last
length-but_last [] = omega arith
length-but_last (step ∷ []) = omega arith
length-but_last (step ∷ next ∷ steps) = omega (arith, length-but_last (next ∷ steps))

max_attempts-ge-3 : (channel_id : String) → 3 ≤ max_attempts_for_channel channel_id
unfolding max_attempts_for_channel
max_attempts-ge-3 channel_id = ground arith

module _ (is_whitespace : ℕ → Bool) where
  -- There are at most three steps, and one between the first and the last.
  length-steps_of-le : (text : List ℕ) → length (steps_of is_whitespace text) ≤ 3
  unfolding steps_of
  length-steps_of-le text =
      let first = pushed [] (preview_slice is_whitespace text (length text * 1 / 3)) in
      let second = pushed first (preview_slice is_whitespace text (length text * 2 / 3)) in
      omega (
        arith,
        length-pushed-le [] (preview_slice is_whitespace text (length text * 1 / 3)),
        length-pushed-le first (preview_slice is_whitespace text (length text * 2 / 3)),
        length-pushed-le second (some text),
      )

  length-pseudo_stream_steps-le :
      (text : List ℕ) → length (pseudo_stream_steps is_whitespace text) ≤ 3
  unfolding pseudo_stream_steps
  length-pseudo_stream_steps-le text = ground (arith, length-steps_of-le (trim is_whitespace text))

  length-inner_steps-le :
      (text : List ℕ) → length (inner_steps (pseudo_stream_steps is_whitespace text)) ≤ 1
  unfolding inner_steps
  length-inner_steps-le text =
      let steps = pseudo_stream_steps is_whitespace text in
      omega (
        arith,
        length-pseudo_stream_steps-le text,
        length-but_last steps,
        length-drop 1 (but_last steps),
      )

  module _ (channel : Channel) where
    -- The channel's `m`-th answer, to a send or to the end of a stream, is what the result tells.
    abbrev pub Tells : List ℕ → ℕ → Result DeliveryChunkRecord → Type 0
    Tells text m (err e) = (channel.send m ≡ err e) ⊎ (channel.stream_end m ≡ err e)
    Tells text m (ok r) =
        (r.text ≡ text)
        × (((answer : SendResult) × (channel.send m ≡ ok answer) × (r.status ≡ status_of answer))
            ⊎ ((channel.stream_end m ≡ ok tt) × (r.status ≡ "sent")))

    -- The attempts that a result counts are calls of the channel.
    abbrev pub Counts : ℕ → ℕ → Result DeliveryChunkRecord → Type 0
    Counts n next (err e) = Unit
    Counts n next (ok r) = (1 ≤ r.attempts) × (n + r.attempts ≤ next)

    -- A chunk that was begun with the `n`-th call, of at most `most` calls.
    abbrev pub Chunked : ℕ → List ℕ → ℕ → Attempted → Type 0
    Chunked most text n a =
        (n < a.next)
        × (a.next ≤ n + most)
        × Counts n a.next a.result
        × ((m : ℕ) × (suc m ≡ a.next) × Tells text m a.result)

    Reports-Tells :
        (text : List ℕ) (attempts m : ℕ) (answer : Result SendResult)
        (result : Result DeliveryChunkRecord)
        → channel.send m ≡ answer
        → Reports text attempts answer result
        → Tells text m result
    Reports-Tells text attempts m (ok answer) (ok r) same h = (h.0, inl (answer, same, h.2))
    Reports-Tells text attempts m (ok answer) (err e) same h = absurd h
    Reports-Tells text attempts m (err e) (ok r) same h = absurd h
    Reports-Tells text attempts m (err e) (err e') same h = inl (same ∙ ap err h)

    Reports-Counts :
        (text : List ℕ) (attempts n next : ℕ) (answer : Result SendResult)
        (result : Result DeliveryChunkRecord)
        → 1 ≤ attempts
        → n + attempts ≤ next
        → Reports text attempts answer result
        → Counts n next result
    Reports-Counts text attempts n next (ok answer) (ok r) pos few h =
        (omega (arith, h.1, pos), omega (arith, h.1, few))
    Reports-Counts text attempts n next (ok answer) (err e) pos few h = absurd h
    Reports-Counts text attempts n next (err e) (ok r) pos few h = absurd h
    Reports-Counts text attempts n next (err e) (err e') pos few h = tt

    Tried-Chunked :
        (channel_id : String) (text : List ℕ) (most n k : ℕ) (a : Attempted)
        → k ≤ n
        → n + max_attempts_for_channel channel_id ≤ k + most
        → Tried is_whitespace channel_id text channel.send 0 n a
        → Chunked most text k a
    Tried-Chunked channel_id text most n k a le few (h0, h1, h2, h3, h4, h5) =
        let m = n + length a.slept in
        let told = (h5 m (omega arith)).1 in
        (
          omega arith,
          omega arith,
          Reports-Counts text (0 + suc (length a.slept)) k a.next (channel.send m) a.result
              (omega arith) (omega arith) told,
          (
            m,
            omega arith,
            Reports-Tells text (0 + suc (length a.slept)) m (channel.send m) a.result refl told,
          ),
        )

    end_stream-Chunked :
        (text : List ℕ) (draft : String) (most n k : ℕ)
        → k < n
        → suc n ≤ k + most
        → Chunked most text k (end_stream is_whitespace channel text draft n)
    unfolding end_stream
    end_stream-Chunked text draft most n k lt few = elim (Result-cases (channel.stream_end n)) [
      | inl (u, done) ↦ (
        omega arith,
        few,
        rw done (omega arith, omega arith),
        (n, refl, rw done (refl, inr (done, refl))),
      )
      | inr (e, broken) ↦ (omega arith, few, rw broken tt, (n, refl, rw broken (inr broken)))
    ]

    update_stream-Chunked :
        (text : List ℕ) (draft : String) (most : ℕ) (steps : List (List ℕ)) (n k : ℕ)
        → k < n
        → suc n + length steps ≤ k + most
        → Chunked most text k (update_stream is_whitespace channel text draft steps n)
    unfolding update_stream
    update_stream-Chunked text draft most [] n k lt few =
        end_stream-Chunked text draft most n k lt (omega arith)
    update_stream-Chunked text draft most (step ∷ steps) n k lt few =
        elim (Result-cases (channel.stream_update n)) [
          | inl (u, done) ↦
              rw (done, update_stream)
                (update_stream-Chunked text draft most steps (suc n) k (omega arith) (omega arith))
          | inr (e, broken) ↦
              rw (broken, update_stream)
                (end_stream-Chunked text draft most (suc n) k (omega arith) (omega arith))
        ]

    -- What a chunk comes to: a result, and what it tells.
    abbrev Comes : String → List ℕ → ℕ → Option Attempted → Type 0
    Comes channel_id text k result =
        (a : Attempted) × (result ≡ some a)
        × Chunked (suc (max_attempts_for_channel channel_id)) text k a

    send-Comes :
        (channel_id : String) (text : List ℕ) (n k : ℕ)
        → k ≤ n
        → n ≤ suc k
        → Comes channel_id text k (send_outbound_chunk is_whitespace channel.send channel_id text n)
    send-Comes channel_id text n k le few =
        let (a, got, tried) =
          send_outbound_chunk-Tried is_whitespace channel_id text channel.send n in
        (
          a,
          got,
          Tried-Chunked channel_id text (suc (max_attempts_for_channel channel_id)) n k a le
              (omega arith) tried,
        )

    send_streamed_chunk-Comes :
        (channel_id : String) (text : List ℕ) (n : ℕ)
        → Comes channel_id text n (send_streamed_chunk is_whitespace channel channel_id text n)
    unfolding send_streamed_chunk
    send_streamed_chunk-Comes channel_id text n =
        let steps = pseudo_stream_steps is_whitespace text in
        elim (Bool-cases (ltb (length steps) 2)) [
          | inl one ↦
              rw (one, send_streamed_chunk)
                (send-Comes channel_id text n n (omega arith) (omega arith))
          | inr more ↦ elim (Result-cases (channel.stream_start n)) [
            | inr (e, broken) ↦
                rw (more, broken, send_streamed_chunk)
                  (send-Comes channel_id text (suc n) n (omega arith) (omega arith))
            | inl (draft, begun) ↦
                rw (more, begun, send_streamed_chunk)
                  (
                    update_stream is_whitespace channel text draft (inner_steps steps) (suc n),
                    refl,
                    update_stream-Chunked text draft (suc (max_attempts_for_channel channel_id))
                        (inner_steps steps) (suc n) n (omega arith)
                        (omega (arith, length-inner_steps-le text, max_attempts-ge-3 channel_id)),
                  )
          ]
        ]

    pub send_chunk-Comes :
        (channel_id : String) (outbound : OutboundMessage) (n : ℕ)
        → Comes channel_id outbound.text n (send_chunk is_whitespace channel channel_id outbound n)
    unfolding send_chunk
    send_chunk-Comes channel_id outbound n =
        elim (Bool-cases (should_pseudo_stream channel outbound)) [
          | inl streamed ↦
              rw (streamed, send_chunk) (send_streamed_chunk-Comes channel_id outbound.text n)
          | inr plain ↦
              rw (plain, send_chunk)
                (send-Comes channel_id outbound.text n n (omega arith) (omega arith))
        ]

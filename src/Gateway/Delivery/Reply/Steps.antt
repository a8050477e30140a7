-- ===== src/Gateway/Delivery/Reply/Steps.antt =====
-- The steps of the loop over the chunks.
use frankclaw.Prelude.{
  ℕ, ◌+◌, ◌*◌, suc, ◌≤◌, ◌≡◌, ◌≢◌, ◌⊎◌, ◌∙◌, inl, inr, refl, Bool, true, false, some, List, [], ◌∷◌,
  ◌++◌, map, All, String, ◌==◌, string_eq, ==_iff, arith,
}
use native.Mathlib.Nat.{mul-suc}
use mathlib.Core.List.{append_assoc}
use frankclaw.Core.Error.{FrankClawError, Result, ok, err}
use frankclaw.Gateway.Delivery.Message.{OutboundMessage}
use frankclaw.Gateway.Delivery.Send.{Attempted, DeliveryChunkRecord, max_attempts_for_channel}
use frankclaw.Gateway.Delivery.Stream.{Channel, send_chunk}
use frankclaw.Gateway.Delivery.Stream.Chunk.{Tells, Counts, Chunked}
use frankclaw.Gateway.Delivery.Reply.{DeliveryRecord, Progress, progressed, ended, deliver_chunks}

-- Every chunk was sent, or the record says that not.
abbrev pub Settled : List OutboundMessage → List DeliveryChunkRecord → String → Type 0
Settled unsent chunks status =
    ((unsent ≡ []) × All (λ c. c.status ≡ "sent") chunks × (status ≡ "sent")) ⊎ (status ≢ "sent")

one_more_sent :
    (unsent : List OutboundMessage) (r : DeliveryChunkRecord) (new : List DeliveryChunkRecord)
    (status : String)
    → r.status ≡ "sent"
    → Settled unsent new status
    → Settled unsent (r ∷ new) status
one_more_sent unsent r new status sent_ (inl (none_left, all, same)) =
    inl (none_left, (sent_, all), same)
one_more_sent unsent r new status sent_ (inr other) = inr other

pub status_other : (status : String) → (status == "sent") ≡ false → status ≢ "sent"
status_other status h same = ground (arith, h, same, ==_iff status "sent")

-- The attempts of the chunks together.
abbrev pub attempts_of : List DeliveryChunkRecord → ℕ
attempts_of [] = 0
attempts_of (r ∷ records) = r.attempts + attempts_of records

pub few_more : (c k last next n : ℕ) → next ≤ n + c → last ≤ next + c * k → last ≤ n + c * suc k
few_more c k last next n h h' = omega (arith, mul-suc c k)

module _ (is_whitespace : ℕ → Bool) (channel : Channel) (channel_id : String) where
  -- What a delivery of these chunks, with the calls of the channel from the `n`-th up to the `next`-th,
  -- returns: the error that the channel answered last, to a send or to the end of a stream, or a record of
  -- the first chunks in their order.
  abbrev pub Delivered : List OutboundMessage → Progress → ℕ → ℕ → Result DeliveryRecord → Type 0
  Delivered chunks p n next (err e) =
      (m : ℕ) × (suc m ≡ next) × ((channel.send m ≡ err e) ⊎ (channel.stream_end m ≡ err e))
  Delivered chunks p n next (ok record_) =
      (new : List DeliveryChunkRecord) × (unsent : List OutboundMessage) × (record_.chunks
        ≡ p.chunks ++ new)
      × (map (λ c. c.text) new ++ map (λ c. c.text) unsent ≡ map (λ c. c.text) chunks)
      × (record_.attempts ≡ p.total_attempts + attempts_of new)
      × (n + attempts_of new ≤ next)
      × Settled unsent new record_.status

  -- The calls that a chunk may make.
  abbrev pub calls_of_chunk : ℕ
  calls_of_chunk = suc (max_attempts_for_channel channel_id)

  -- What a chunk's result tells of its record.
  pub chunk_ok :
      (text : List ℕ) (n : ℕ) (a : Attempted) (r : DeliveryChunkRecord)
      → Chunked is_whitespace channel calls_of_chunk text n a
      → a.result ≡ ok r
      → (r.text ≡ text) × (n + r.attempts ≤ a.next)
  chunk_ok text n a r (h0, h1, h2, (m, e, told)) answered =
      let told' : Tells is_whitespace channel text m (ok r) = rw answered at told in
      let counted : Counts is_whitespace channel n a.next (ok r) = rw answered at h2 in
      (told'.0, counted.1)

  pub chunk_err :
      (text : List ℕ) (n : ℕ) (a : Attempted) (e : FrankClawError)
      → Chunked is_whitespace channel calls_of_chunk text n a
      → a.result ≡ err e
      → (m : ℕ) × (suc m ≡ a.next) × ((channel.send m ≡ err e) ⊎ (channel.stream_end m ≡ err e))
  chunk_err text n a e (h0, h1, h2, (m, last, told)) answered =
      let told' : Tells is_whitespace channel text m (err e) = rw answered at told in
      (m, last, told')

  -- A chunk that was sent stands before what the rest of the delivery tells.
  pub one_chunk_more :
      (chunk : OutboundMessage) (chunks : List OutboundMessage) (p : Progress) (n next next' : ℕ)
      (r : DeliveryChunkRecord) (result : Result DeliveryRecord)
      → r.text ≡ chunk.text
      → n + r.attempts ≤ next
      → r.status ≡ "sent"
      → Delivered chunks (progressed p r) next next' result
      → Delivered (chunk ∷ chunks) p n next' result
  unfolding progressed
  one_chunk_more chunk chunks p n next next' r (err e) t few sent_ h = h
  one_chunk_more chunk chunks p n next next' r (ok record_) t few sent_
        (new, unsent, c, m, k, l, s) =
      (
        r ∷ new,
        unsent,
        c ∙ append_assoc p.chunks (r ∷ []) new,
        rw (t, m) refl,
        omega arith,
        omega arith,
        one_more_sent unsent r new record_.status sent_ s,
      )

  pub deliver_go :
      (chunk : OutboundMessage) (chunks : List OutboundMessage) (p : Progress) (n : ℕ)
      (a : Attempted) (r : DeliveryChunkRecord)
      → send_chunk is_whitespace channel channel_id chunk n ≡ some a
      → a.result ≡ ok r
      → (r.status == "sent") ≡ true
      → deliver_chunks is_whitespace channel channel_id (chunk ∷ chunks) p n
        ≡ deliver_chunks is_whitespace channel channel_id chunks (progressed p r) a.next
  unfolding deliver_chunks
  deliver_go chunk chunks p n a r got answered is_sent =
      rw (got, answered, is_sent, deliver_chunks) refl

  pub deliver_stop :
      (chunk : OutboundMessage) (chunks : List OutboundMessage) (p : Progress) (n : ℕ)
      (a : Attempted) (r : DeliveryChunkRecord)
      → send_chunk is_whitespace channel channel_id chunk n ≡ some a
      → a.result ≡ ok r
      → (r.status == "sent") ≡ false
      → deliver_chunks is_whitespace channel channel_id (chunk ∷ chunks) p n
        ≡ some (ok (ended (progressed p r) r.status r.error), a.next)
  unfolding deliver_chunks
  deliver_stop chunk chunks p n a r got answered not_sent =
      rw (got, answered, not_sent, deliver_chunks) refl

  pub deliver_err :
      (chunk : OutboundMessage) (chunks : List OutboundMessage) (p : Progress) (n : ℕ)
      (a : Attempted) (e : FrankClawError)
      → send_chunk is_whitespace channel channel_id chunk n ≡ some a
      → a.result ≡ err e
      → deliver_chunks is_whitespace channel channel_id (chunk ∷ chunks) p n ≡ some (err e, a.next)
  unfolding deliver_chunks
  deliver_err chunk chunks p n a e got answered = rw (got, answered, deliver_chunks) refl

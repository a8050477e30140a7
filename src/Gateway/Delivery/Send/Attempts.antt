-- ===== src/Gateway/Delivery/Send/Attempts.antt =====
-- The retries of a chunk.
use frankclaw.Prelude.{
  ℕ, zero, suc, ◌+◌, ◌≤◌, ◌<◌, ◌≡◌, ◌⊎◌, inl, inr, refl, Bool, true, false, Option, none, some,
  List, [], ◌∷◌, All, String, length, arith,
}
use frankclaw.Core.Error.{Result}
use frankclaw.Gateway.Delivery.Send.{
  SendResult, DeliveryChunkRecord, finished, waits, Attempted, max_attempts_for_channel, on_answer,
  send_loop, slept_before, send_outbound_chunk,
}
use frankclaw.Gateway.Delivery.Send.Answers.{
  Reports, Delay, is_transient, Goes, Step-cases, on_answer-Goes, max_attempts-pos,
}

le_cases : (n m : ℕ) → n ≤ m → (n ≡ m) ⊎ (suc n ≤ m)
le_cases n m h = ground arith

module _ (is_whitespace : ℕ → Bool) (channel_id : String) (text : List ℕ)
    (send : ℕ → Result SendResult) where
  -- What the sends from the `n`-th on came to, after `attempts` of the rounds.
  abbrev pub Tried : ℕ → ℕ → Attempted → Type 0
  Tried attempts n a =
      (n < a.next)
      × (a.next + attempts ≤ n + max_attempts_for_channel channel_id)
      × (n + suc (length a.slept) ≡ a.next)
      × All Delay a.slept
      × ((m : ℕ)
          → n ≤ m
          → suc m < a.next
          → is_transient is_whitespace channel_id text (send m) ≡ true)
      × ((m : ℕ)
          → suc m ≡ a.next
          → ((a.next + attempts ≡ n + max_attempts_for_channel channel_id)
              ⊎ (is_transient is_whitespace channel_id text (send m) ≡ false))
            × Reports text (attempts + suc (length a.slept)) (send m) a.result)

  ends_at_once :
      (attempts n : ℕ) (result : Result DeliveryChunkRecord)
      → attempts < max_attempts_for_channel channel_id
      → Goes is_whitespace channel_id text (suc attempts) (send n) (finished result)
      → Tried attempts n (record { result = result; next = suc n; slept = [] })
  ends_at_once attempts n result few (stop, told) =
      let count : attempts + 1 ≡ suc attempts = omega arith in
      (
        omega arith,
        omega arith,
        omega arith,
        tt,
        λ m from below. absurd (omega arith),
        λ m e. let here : m ≡ n = omega arith in rw (here, count) (ground (arith, stop), told),
      )

  again_before :
      (n m next : ℕ)
      → is_transient is_whitespace channel_id text (send n) ≡ true
      → ((j : ℕ)
          → suc n ≤ j
          → suc j < next
          → is_transient is_whitespace channel_id text (send j) ≡ true)
      → n ≤ m
      → suc m < next
      → is_transient is_whitespace channel_id text (send m) ≡ true
  again_before n m next here later from below = elim (le_cases n m from) [
    | inl same ↦ rw (← same) here
    | inr more ↦ later m more below
  ]

  one_round_more :
      (attempts n delay : ℕ) (last : Option ℕ) (a : Attempted)
      → Goes is_whitespace channel_id text (suc attempts) (send n) (waits delay last)
      → Tried (suc attempts) (suc n) a
      → Tried attempts n (record a { slept = delay ∷ a.slept })
  one_round_more attempts n delay last a (few, again, bounds) (h0, h1, h2, h3, h4, h5) =
      let count : attempts + suc (suc (length a.slept)) ≡ suc attempts + suc (length a.slept) =
        omega arith in
      (
        omega arith,
        omega arith,
        omega arith,
        (bounds, h3),
        λ m from below. again_before n m a.next again h4 from below,
        λ m e. rw count (ground (arith, (h5 m e).0), (h5 m e).1),
      )

  send_loop-Tried :
      (fuel attempts : ℕ) (last : Option ℕ) (n : ℕ)
      → fuel + attempts ≡ max_attempts_for_channel channel_id
      → attempts < max_attempts_for_channel channel_id
      → (a : Attempted) × (send_loop is_whitespace send channel_id text fuel attempts last n
          ≡ some a)
        × Tried attempts n a
  unfolding send_loop slept_before
  send_loop-Tried zero attempts last n h left = absurd (omega arith)
  send_loop-Tried (suc fuel) attempts last n h left =
      elim (Step-cases (on_answer is_whitespace channel_id text (suc attempts) last (send n))) [
        | inl (result, e) ↦
            let goes =
              rw e at (on_answer-Goes is_whitespace channel_id text (suc attempts) last (send n)) in
            (
              record { result = result; next = suc n; slept = [] },
              rw (e, send_loop) refl,
              ends_at_once attempts n result (omega arith) goes,
            )
        | inr (delay, last', e) ↦
            let goes =
              rw e at (on_answer-Goes is_whitespace channel_id text (suc attempts) last (send n)) in
            let (a, got, tried) =
              send_loop-Tried fuel (suc attempts) last' (suc n) (omega arith) goes.0 in
            (
              record a { slept = delay ∷ a.slept },
              rw (e, got, send_loop, slept_before) refl,
              one_round_more attempts n delay last' a goes tried,
            )
      ]

  -- A chunk is sent at least once and as often as the channel allows, and then has a result: before
  -- each further attempt it sleeps for 1 to 30 seconds, all answers but the last one are such as are
  -- tried again, the last one is not unless the attempts are used up, and the result reports that
  -- answer and the number of attempts.
  pub send_outbound_chunk-Tried :
      (n : ℕ)
      → (a : Attempted) × (send_outbound_chunk is_whitespace send channel_id text n ≡ some a)
        × Tried 0 n a
  unfolding send_outbound_chunk
  send_outbound_chunk-Tried n =
      send_loop-Tried (max_attempts_for_channel channel_id) 0 none n (omega arith)
        (max_attempts-pos channel_id)

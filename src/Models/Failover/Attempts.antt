-- ===== src/Models/Failover/Attempts.antt =====
-- The retry loop of `FailoverChain::complete` against a description of its replies.
use native.Mathlib.Nat.{add-zero, zero-add, suc-add}
use frankclaw.Prelude.{
  ◌-◌, ℕ, zero, suc, ◌+◌, ◌≤◌, ◌≡◌, ◌≢◌, ◌↔◌, Bool, true, false, ◌&&◌, none, arith, inl, inr, ◌⊎◌,
  ◌∙◌,
}
use frankclaw.Core.Error.{Result, ok, err, to_string, Result-cases}
use frankclaw.Models.Retry.{is_retryable_error}
use frankclaw.Models.Failover.{Reply, returned, gave_up, attempt_loop}

module _ {Response : Type 0} (streaming : Bool) (max_retries : ℕ)
    (replies : ℕ → Reply Response) where
  -- The attempt failed with an error that may be retried, and nothing was streamed to the client.
  abbrev pub IsTransient : Result Response → Bool → Type 0
  IsTransient (ok r) streamed = ⊥
  IsTransient (err e) streamed =
      (is_retryable_error (to_string e) ≡ true) × ((streaming && streamed) ≡ false)

  -- The k attempts from `attempt` on are transient failures.
  abbrev pub AllTransient : ℕ → ℕ → Type 0
  AllTransient attempt zero = Unit
  AllTransient attempt (suc k) =
      IsTransient (replies attempt).result (replies attempt).streamed_any
      × AllTransient (attempt + 1) k

  -- The loop with some rounds left, at the attempt that leaves so many.
  attempt_loop-transient :
      (left attempt : ℕ)
      → attempt ≢ max_retries
      → IsTransient (replies attempt).result (replies attempt).streamed_any
      → attempt_loop streaming max_retries replies (suc left) attempt
        ≡ attempt_loop streaming max_retries replies left (attempt + 1)
  unfolding attempt_loop
  attempt_loop-transient left attempt more t = ground arith

  attempt_loop-ok :
      (left attempt : ℕ) {r : Response}
      → (replies attempt).result ≡ ok r
      → attempt_loop streaming max_retries replies (suc left) attempt ≡ returned r
  unfolding attempt_loop
  attempt_loop-ok left attempt h = ground arith

  returned-of_transient :
      (k left attempt : ℕ) {r : Response}
      → attempt + k + left ≡ max_retries
      → AllTransient attempt k
      → (replies (attempt + k)).result ≡ ok r
      → attempt_loop streaming max_retries replies (suc (k + left)) attempt ≡ returned r
  returned-of_transient zero left attempt e t h =
      attempt_loop-ok (0 + left) attempt (rw add-zero at h)
  returned-of_transient (suc k) left attempt e (t, ts) h =
      let next : attempt + suc k ≡ attempt + 1 + k = omega arith in
      attempt_loop-transient (suc k + left) attempt (omega arith) t
      ∙ rw suc-add (returned-of_transient k left (attempt + 1) (omega arith) ts (rw next at h))

  -- One round that ends with a response, or goes on.
  round_cases :
      (left attempt : ℕ) (r : Response)
      → attempt_loop streaming max_retries replies (suc left) attempt ≡ returned r
      → ((replies attempt).result ≡ ok r)
        ⊎ (IsTransient (replies attempt).result (replies attempt).streamed_any
            × (attempt ≢ max_retries)
            × (attempt_loop streaming max_retries replies left (attempt + 1) ≡ returned r))
  unfolding attempt_loop
  round_cases left attempt r h = elim (Result-cases (replies attempt).result) [
    | inl (a, e) ↦ inl (ground arith)
    | inr (e, p) ↦ inr (ground arith)
  ]

  transient-of_returned :
      (left attempt : ℕ) (r : Response)
      → attempt + left ≡ max_retries
      → attempt_loop streaming max_retries replies (suc left) attempt ≡ returned r
      → (k : ℕ) × (k ≤ left) × AllTransient attempt k × ((replies (attempt + k)).result ≡ ok r)
  transient-of_returned zero attempt r e h = elim (round_cases zero attempt r h) [
    | inl now ↦ (0, omega arith, tt, rw add-zero now)
    | inr (t, more, later) ↦ absurd (more (omega arith))
  ]
  transient-of_returned (suc left) attempt r e h = elim (round_cases (suc left) attempt r h) [
    | inl now ↦ (0, omega arith, tt, rw add-zero now)
    | inr (t, more, later) ↦
        let (k, few, ts, found) = transient-of_returned left (attempt + 1) r (omega arith) later in
        let next : attempt + 1 + k ≡ attempt + suc k = omega arith in
        (suc k, omega arith, (t, ts), rw next at found)
  ]

-- The retry loop returns a response exactly when one of the attempts 0 to `max_retries` gives it and
-- every earlier attempt failed with an error that may be retried and streamed nothing to the client.
pub attempt_loop-returned_iff :
    {Response : Type 0} (streaming : Bool) (max_retries : ℕ) (replies : ℕ → Reply Response)
    (r : Response)
    → (attempt_loop streaming max_retries replies (suc max_retries) 0 ≡ returned r) ↔ (
        (k : ℕ) × (k ≤ max_retries)
        × AllTransient streaming max_retries replies 0 k
        × ((replies k).result ≡ ok r))
attempt_loop-returned_iff streaming max_retries replies r = (
  λ h.
      let (k, few, ts, found) =
        transient-of_returned streaming max_retries replies max_retries 0 r (omega arith) h in
      (k, few, ts, rw zero-add at found),
  λ (k, few, ts, found).
      let sum : k + (max_retries - k) ≡ max_retries = omega arith in
      let found' : (replies (0 + k)).result ≡ ok r = rw zero-add found in
      let loop =
        returned-of_transient streaming max_retries replies k (max_retries - k) 0 (omega arith) ts
          found' in
      rw sum at loop,
)

module _ {Response : Type 0} (streaming : Bool) (max_retries : ℕ)
    (replies : ℕ → Reply Response) where
  -- The loop never falls out of its range.
  attempt_loop-ne-none :
      (left attempt : ℕ)
      → attempt + left ≡ max_retries
      → attempt_loop streaming max_retries replies (suc left) attempt ≢ gave_up none
  unfolding attempt_loop
  attempt_loop-ne-none zero attempt e = ground (arith, Result-cases (replies attempt).result)
  attempt_loop-ne-none (suc left) attempt e =
      ground (arith, Result-cases (replies attempt).result, attempt_loop-ne-none left (attempt + 1))

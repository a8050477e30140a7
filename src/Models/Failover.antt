-- ===== src/Models/Failover.antt =====
-- crates/frankclaw-models/src/failover.rs. What a provider does during one call of `complete` is
-- given: its reply to each attempt, whether it had streamed a delta by then, and the instants at
-- which its circuit breaker reads the clock. The delays between attempts change none of these and
-- are left out.
pub mod Attempts
pub mod Chain
mod Tests
use frankclaw.Prelude.{
  ℕ, zero, suc, ◌+◌, String, Bool, true, false, Option, none, some, List, [], ◌∷◌, ◌++◌, map, ◌&&◌,
  ◌||◌, not, any, length, nat_eqb, ◌==◌, string_eq, from_secs, if◌then◌else◌,
}
use frankclaw.Core.Error.{FrankClawError, Result, ok, err, all_providers_failed, to_string}
use frankclaw.Models.CircuitBreaker
use frankclaw.Models.CircuitBreaker.{
  CircuitBreaker, CircuitBreakerConfig, check_allowed, record_success, record_failure,
}
use frankclaw.Models.Retry
use frankclaw.Models.Retry.{RetryConfig, is_retryable_error}

-- `CompletionResponse` is passed through unread.
pub record Reply (Response : Type 0) : Type 0 where
  pub result : Result Response
  pub streamed_any : Bool

pub record ProviderEntry (Response : Type 0) : Type 0 where
  pub id : String
  pub breaker : CircuitBreaker
  pub model_ids : List String
  pub replies : ℕ → Reply Response
  pub checked_at : ℕ
  pub recorded_at : ℕ

pub record FailoverChain (Response : Type 0) : Type 0 where
  pub entries : List (ProviderEntry Response)
  pub retry_config : RetryConfig

-- A provider, with the model IDs that it serves, before it has a breaker.
pub record Provider (Response : Type 0) : Type 0 where
  pub id : String
  pub model_ids : List String
  pub replies : ℕ → Reply Response
  pub checked_at : ℕ
  pub recorded_at : ℕ

-- How the retry loop ends: with a response, with an error after streaming, or with what
-- `attempt_result` holds.
pub data LoopEnd (Response : Type 0) : Type 0 where
  returned : Response → LoopEnd Response
  aborted : FrankClawError → LoopEnd Response
  gave_up : Option FrankClawError → LoopEnd Response

-- What the loop over the entries does with one of them: go on, keep its error and go on, or return.
pub data Visit (Response : Type 0) : Type 0 where
  skipped : ProviderEntry Response → Visit Response
  failed : FrankClawError → ProviderEntry Response → Visit Response
  done : Result Response → ProviderEntry Response → Visit Response

module _ {Response : Type 0} where
  -- `FailoverChain::with_model_routing`.
  unfoldable pub with_model_routing : List (Provider Response) → ℕ → FailoverChain Response
  with_model_routing providers cooldown_secs =
      let config = record CircuitBreaker.default_config {
        recovery_timeout = from_secs cooldown_secs;
      } in
      record {
        entries =
            map
              (λ p. record {
                id = p.id;
                breaker = CircuitBreaker.new config;
                model_ids = p.model_ids;
                replies = p.replies;
                checked_at = p.checked_at;
                recorded_at = p.recorded_at;
              })
              providers;
        retry_config = Retry.default_config;
      }

  -- `FailoverChain::new`: no provider lists its models.
  unfoldable pub new : List (Provider Response) → ℕ → FailoverChain Response
  unfolding with_model_routing
  new providers cooldown_secs =
      with_model_routing (map {A = Provider Response} (λ p. record p { model_ids = [] }) providers)
        cooldown_secs

  -- The test that skips a provider which does not list the model.
  pub serves : ProviderEntry Response → String → Bool
  serves entry model_id =
      nat_eqb (length entry.model_ids) 0 || any (λ id. id == model_id) entry.model_ids

  module _ (streaming : Bool) (max_retries : ℕ) where
    -- `for attempt in 0..=max_retries`, with the rounds that are left.
    pub attempt_loop : (ℕ → Reply Response) → ℕ → ℕ → LoopEnd Response
    attempt_loop replies zero attempt = gave_up none
    attempt_loop replies (suc left) attempt = elim (replies attempt).result [
      | ok response ↦ returned response
      | err e ↦
          let again = attempt_loop replies left (attempt + 1) in
          if streaming && (replies attempt).streamed_any
          then aborted e
          else if not (is_retryable_error (to_string e)) || nat_eqb attempt max_retries
          then gave_up (some e)
          else again
    ]

    -- What follows the retry loop, and the returns inside it.
    settle : ProviderEntry Response → LoopEnd Response → Visit Response
    settle entry (returned response) =
        done (ok response) (record entry { breaker = record_success entry.breaker })
    settle entry (aborted e) =
        done (err e) (record entry { breaker = record_failure entry.breaker entry.recorded_at })
    settle entry (gave_up none) = skipped entry
    settle entry (gave_up (some e)) = failed e (
        if is_retryable_error (to_string e)
        then record entry { breaker = record_failure entry.breaker entry.recorded_at }
        else entry)

    -- The body of the loop over the entries.
    pub visit : String → ProviderEntry Response → Visit Response
    unfolding settle
    visit model_id entry =
        if not (serves entry model_id)
        then skipped entry
        else let (allowed, breaker) = check_allowed entry.breaker entry.checked_at in
          let checked = record entry { breaker = breaker } in
          if not allowed
          then skipped checked
          else settle checked (attempt_loop entry.replies (suc max_retries) 0)

    -- The loop over the entries, with `last_error`, and the entries after it.
    pub complete_from :
        String
        → List (ProviderEntry Response)
        → Option FrankClawError
        → Result Response × List (ProviderEntry Response)
    complete_from model_id [] none = (err all_providers_failed, [])
    complete_from model_id [] (some e) = (err e, [])
    complete_from model_id (entry ∷ entries) last_error = elim (visit model_id entry) [
      | skipped entry' ↦
          let (r, rest) = complete_from model_id entries last_error in (r, entry' ∷ rest)
      | failed e entry' ↦
          let (r, rest) = complete_from model_id entries (some e) in (r, entry' ∷ rest)
      | done r entry' ↦ (r, entry' ∷ entries)
    ]

  -- `complete`: the result, and the chain after the call.
  unfoldable pub complete :
      FailoverChain Response → String → Bool → Result Response × FailoverChain Response
  unfolding complete_from visit
  complete chain model_id streaming =
      let (r, entries) =
        complete_from streaming chain.retry_config.max_retries model_id chain.entries none in
      (r, record chain { entries = entries })

pub record ProviderHealth : Type 0 where
  pub provider_id : String
  pub healthy : Bool

module _ {Response Model : Type 0} (reply : ProviderEntry Response → Result (List Model)) where
  list_from : List (ProviderEntry Response) → List Model
  list_from [] = []
  list_from (entry ∷ entries) =
      let rest = list_from entries in
      elim (reply entry) [ ok models ↦ models ++ rest | err e ↦ rest ]

  -- `list_models`, with each provider's reply.
  unfoldable pub list_models : FailoverChain Response → Result (List Model)
  unfolding list_from
  list_models chain = ok (list_from chain.entries)

-- `health`, with each provider's reply.
unfoldable pub health :
    {Response : Type 0}
    → (ProviderEntry Response → Bool)
    → FailoverChain Response
    → List ProviderHealth
health {Response} reply chain =
    map {A = ProviderEntry Response}
      (λ entry. record { provider_id = entry.id; healthy = reply entry }) chain.entries

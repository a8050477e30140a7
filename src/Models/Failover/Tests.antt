-- ===== src/Models/Failover/Tests.antt =====
-- A chain of two providers: the first does not serve the model, the second answers at its second
-- attempt.
use frankclaw.Prelude.{
  ℕ, zero, suc, ◌≤◌, ◌≡◌, ◌↔◌, refl, String, true, false, from_secs, List, [], ◌∷◌, ◌++◌, All,
  arith, contains, to_lowercase,
}
use frankclaw.Core.Error.{ok, err, all_providers_failed, model_provider, to_string}
use frankclaw.Models.CircuitBreaker.{record_success, record_failure, check_allowed}
use frankclaw.Models.CircuitBreaker
use frankclaw.Models.Retry.{is_retryable_error}
use frankclaw.Models.Failover.{
  serves, ProviderEntry, Reply, Provider, FailoverChain, returned, attempt_loop, with_model_routing,
  complete,
}
use frankclaw.Models.Failover.Attempts.{AllTransient, attempt_loop-returned_iff}
use frankclaw.Models.Failover.Chain.{
  IsAsked, Answers, Aborts, IsChosen, complete-IsChosen, complete-Answers,
}

-- Times out once, then answers with 7.
abbrev flaky : ℕ → Reply ℕ
flaky zero = record { result = err (model_provider "request timeout"); streamed_any = false }
flaky (suc n) = record { result = ok 7; streamed_any = true }

abbrev provider : String → List String → Provider ℕ
provider id model_ids = record {
  id = id;
  model_ids = model_ids;
  replies = flaky;
  checked_at = 10;
  recorded_at = 20;
}

abbrev chain : FailoverChain ℕ
chain =
    with_model_routing
      (provider "openai" ("gpt-5" ∷ []) ∷ provider "anthropic" ("claude" ∷ []) ∷ []) 30

flaky_transient : AllTransient true 3 flaky 0 1
unfolding is_retryable_error contains to_lowercase to_string
flaky_transient = ((refl, refl), tt)

flaky_returns : attempt_loop true 3 flaky 4 0 ≡ returned 7
unfolding is_retryable_error contains to_lowercase to_string attempt_loop
flaky_returns = refl

attempt_loop-returned_iff_example :
    (attempt_loop true 3 flaky 4 0 ≡ returned 7)
    ↔ ((k : ℕ) × (k ≤ 3) × AllTransient true 3 flaky 0 k × ((flaky k).result ≡ ok 7))
attempt_loop-returned_iff_example = attempt_loop-returned_iff true 3 flaky 7

chain_answers : (complete chain "claude" true).0 ≡ ok 7
unfolding serves complete with_model_routing CircuitBreaker.new check_allowed attempt_loop
    is_retryable_error contains to_lowercase to_string
chain_answers = refl

chain_unlisted : (complete chain "llama" true).0 ≡ err all_providers_failed
unfolding serves complete with_model_routing
chain_unlisted = refl

complete-IsChosen_example :
    IsChosen true chain.retry_config.max_retries "claude" chain.entries
      (complete chain "claude" true).1.entries
      7
complete-IsChosen_example = complete-IsChosen chain "claude" true 7 chain_answers

abbrev first : ProviderEntry ℕ
first = record {
  id = "openai";
  breaker =
      CircuitBreaker.new (record CircuitBreaker.default_config { recovery_timeout = from_secs 30 });
  model_ids = "gpt-5" ∷ [];
  replies = flaky;
  checked_at = 10;
  recorded_at = 20;
}

abbrev second : ProviderEntry ℕ
second = record first { id = "anthropic"; model_ids = "claude" ∷ [] }

second-Answers : Answers true 3 "claude" second 7
unfolding serves CircuitBreaker.new check_allowed attempt_loop is_retryable_error contains
    to_lowercase to_string
second-Answers = ((refl, refl), refl)

not_served :
    (model_id : String) (entry : ProviderEntry ℕ)
    → serves entry model_id ≡ false
    → ¬ IsAsked true 3 model_id entry
not_served model_id entry h (s, _) = ground arith

first_no_abort : ¬ Aborts true 3 "claude" first
unfolding serves
first_no_abort (asked, _) = not_served "claude" first refl asked

chain_split : chain.entries ≡ [] ++ first ∷ second ∷ []
unfolding with_model_routing CircuitBreaker.new
chain_split = refl

complete-Answers_example : (x : ℕ) × ((complete chain "claude" true).0 ≡ ok x)
unfolding with_model_routing
complete-Answers_example =
    complete-Answers chain "claude" true (first ∷ []) [] second 7 chain_split (first_no_abort, tt)
      second-Answers

none-IsAsked : All (λ e. ¬ IsAsked true 3 "llama" e) (first ∷ second ∷ [])
unfolding serves
none-IsAsked = (not_served "llama" first refl, (not_served "llama" second refl, tt))

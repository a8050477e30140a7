-- ===== src/Runtime/Context/Tests.antt =====
-- A history that a small window prunes.
use frankclaw.Prelude.{ℕ, ◌+◌, ◌≡◌, refl, none, List, [], ◌∷◌, replicate}
use frankclaw.Core.Message.{user, assistant, tool, CompletionMessage, text}
use frankclaw.Runtime.Context.{
  ModelDef, estimate_tokens, estimate_messages_tokens, available_input_budget, optimize_context,
  merge_consecutive_same_role, repair_tool_pairing,
}
use frankclaw.Runtime.Context.Pairing.{IsPaired, optimize_context-IsPaired}
use frankclaw.Runtime.Context.Pruning.{Prunes, optimize_context-Prunes}

-- 60 tokens for the input.
abbrev tiny : ModelDef
tiny = record { context_window = 4000; max_output_tokens = 1880 }

abbrev said : List ℕ
said = replicate 35 97

abbrev history : List (CompletionMessage ℕ ℕ)
history =
    text tool said
    ∷ text user said
    ∷ record (text assistant []) { tool_calls = 1 ∷ [] }
    ∷ text tool said
    ∷ text assistant said
    ∷ text user said
    ∷ text user said
    ∷ []

-- 5 tokens are left; 5 / 1.2 is rounded down.
budget_of_least :
    available_input_budget (record { context_window = 2060; max_output_tokens = 7 }) none ≡ 4
unfolding available_input_budget
budget_of_least = refl

-- The digits of a count.
abbrev told : ℕ → List ℕ
told n = (48 + n) ∷ []

tokens_of_said : estimate_tokens said ≡ 10
unfolding estimate_tokens
tokens_of_said = refl

budget_of_tiny : available_input_budget tiny none ≡ 60
unfolding available_input_budget
budget_of_tiny = refl

optimize_context-IsPaired_example : IsPaired none (optimize_context told history tiny none).messages
optimize_context-IsPaired_example = optimize_context-IsPaired told history tiny none

optimize_context-Prunes_example :
    ((optimize_context told history tiny none).estimated_tokens
      ≡ estimate_messages_tokens (optimize_context told history tiny none).messages)
    × Prunes told
        (available_input_budget tiny none)
        (merge_consecutive_same_role (repair_tool_pairing history))
        (optimize_context told history tiny none)
optimize_context-Prunes_example = optimize_context-Prunes told history tiny none

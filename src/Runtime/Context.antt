-- ===== src/Runtime/Context.antt =====
-- crates/frankclaw-runtime/src/context.rs. A text is its bytes, and the rendered prompt of the summary
-- is an argument. The quotients of f64 are written as what they round to: `len / 3.5`, rounded up, has
-- a fraction that is a multiple of a seventh, and where f64 cannot tell, both sides are beyond `u32::MAX`;
-- `raw_budget / 1.2`, rounded down, is exact on u32.
pub mod Pairing
pub mod Merging
pub mod Pruning
mod Tests
use frankclaw.Prelude.{
  ℕ, zero, suc, ◌+◌, ◌-◌, ◌*◌, ◌/◌, ◌^◌, min, Bool, true, false, Option, none, some, List, [], ◌∷◌,
  ◌++◌, not, ◌&&◌, ◌||◌, ltb, leb, nat_eqb, add_u32, length, chars, if◌then◌else◌,
}
use frankclaw.Core.Message.{Role, system, user, assistant, tool, role_eqb, CompletionMessage, text}

-- The fields of `ModelDef` that the budget reads.
pub record ModelDef : Type 0 where
  pub context_window : ℕ
  pub max_output_tokens : ℕ

-- `MIN_KEEP_MESSAGES`.
abbrev pub min_keep_messages : ℕ
min_keep_messages = 4

-- `SYSTEM_OVERHEAD_TOKENS`.
abbrev pub system_overhead_tokens : ℕ
system_overhead_tokens = 2048

unfoldable pub estimate_tokens : List ℕ → ℕ
estimate_tokens content = min ((2 * length content + 6) / 7) (2 ^ 32 - 1)

-- `text.starts_with(start)`.
starts_with : List ℕ → List ℕ → Bool
starts_with bytes [] = true
starts_with [] (b ∷ start) = false
starts_with (a ∷ bytes) (b ∷ start) = nat_eqb a b && starts_with bytes start

-- `text.contains(part)`.
contains : List ℕ → List ℕ → Bool
unfolding starts_with
contains [] part = starts_with [] part
contains (a ∷ bytes) part = starts_with (a ∷ bytes) part || contains bytes part

is_empty : {A : Type 0} → List A → Bool
is_empty [] = true
is_empty (x ∷ xs) = false

tool_call_marker : List ℕ
tool_call_marker = chars "[tool_call:"

module _ {ToolCall Image : Type 0} where
  -- `role == Role::Tool`.
  unfoldable pub is_tool : CompletionMessage ToolCall Image → Bool
  is_tool msg = role_eqb msg.role tool

  -- An assistant's message with calls, structured or in its text.
  unfoldable pub asks_tool : CompletionMessage ToolCall Image → Bool
  unfolding is_empty contains tool_call_marker
  asks_tool msg =
      role_eqb msg.role assistant
      && (not (is_empty msg.tool_calls) || contains msg.content tool_call_marker)

  -- The sum wraps around, so that its order makes no difference.
  unfoldable pub estimate_messages_tokens : List (CompletionMessage ToolCall Image) → ℕ
  estimate_messages_tokens [] = 0
  estimate_messages_tokens (msg ∷ msgs) =
      add_u32 (add_u32 (estimate_tokens msg.content) 4) (estimate_messages_tokens msgs)

  -- `has_preceding_tool_call || follows_valid_tool`, on the message before, if there is one.
  unfoldable pub answers : Option (CompletionMessage ToolCall Image) → Bool
  answers none = false
  answers (some before) = asks_tool before || is_tool before

  -- The scan of `repair_tool_pairing`, behind the message kept last.
  keep_paired :
      Option (CompletionMessage ToolCall Image)
      → List (CompletionMessage ToolCall Image)
      → List (CompletionMessage ToolCall Image)
  keep_paired before [] = []
  keep_paired before (msg ∷ msgs) =
      let dropped = keep_paired before msgs in
      let kept = msg ∷ keep_paired (some msg) msgs in
      if is_tool msg && not (answers before) then dropped else kept

  -- A message before what is left of those behind it: it goes when it is the last with calls.
  pop_last :
      CompletionMessage ToolCall Image
      → List (CompletionMessage ToolCall Image)
      → List (CompletionMessage ToolCall Image)
  pop_last msg [] = if asks_tool msg then [] else msg ∷ []
  pop_last msg (m ∷ ms) = msg ∷ m ∷ ms

  -- The loop that pops assistants' messages with calls off the end.
  pop_pending : List (CompletionMessage ToolCall Image) → List (CompletionMessage ToolCall Image)
  unfolding pop_last
  pop_pending [] = []
  pop_pending (msg ∷ msgs) = pop_last msg (pop_pending msgs)

  unfoldable pub repair_tool_pairing :
      List (CompletionMessage ToolCall Image) → List (CompletionMessage ToolCall Image)
  unfolding keep_paired pop_pending
  repair_tool_pairing msgs = pop_pending (keep_paired none msgs)

  -- The condition under which a message is merged into the one before it.
  unfoldable pub can_merge :
      CompletionMessage ToolCall Image → CompletionMessage ToolCall Image → Bool
  unfolding is_empty
  can_merge before msg =
      role_eqb msg.role before.role
      && not (is_tool msg)
      && is_empty before.tool_calls
      && is_empty msg.tool_calls

  -- `messages[i - 1]` with the content of the message that is removed.
  join :
      CompletionMessage ToolCall Image
      → CompletionMessage ToolCall Image
      → CompletionMessage ToolCall Image
  join before msg = record before { content = before.content ++ (10 ∷ msg.content) }

  -- The loop of `merge_consecutive_same_role` from `messages[i - 1]` on.
  merge_into :
      CompletionMessage ToolCall Image
      → List (CompletionMessage ToolCall Image)
      → List (CompletionMessage ToolCall Image)
  unfolding join
  merge_into before [] = before ∷ []
  merge_into before (msg ∷ msgs) =
      let merged = merge_into (join before msg) msgs in
      let parted = before ∷ merge_into msg msgs in if can_merge before msg then merged else parted

  unfoldable pub merge_consecutive_same_role :
      List (CompletionMessage ToolCall Image) → List (CompletionMessage ToolCall Image)
  unfolding merge_into
  merge_consecutive_same_role [] = []
  merge_consecutive_same_role (msg ∷ msgs) = merge_into msg msgs

  -- The inner loop of the pruning: the leading answers of tools go, and are counted.
  strip_tools :
      List (CompletionMessage ToolCall Image) → List (CompletionMessage ToolCall Image) × ℕ
  strip_tools [] = ([], 0)
  strip_tools (msg ∷ msgs) =
      let rest = strip_tools msgs in if is_tool msg then (rest.0, suc rest.1) else (msg ∷ msgs, 0)

  -- The outer loop; each round removes a message, and there are `left` at most.
  prune :
      ℕ
      → ℕ
      → List (CompletionMessage ToolCall Image)
      → ℕ
      → List (CompletionMessage ToolCall Image) × ℕ
  unfolding strip_tools
  prune zero budget kept pruned_count = (kept, pruned_count)
  prune (suc left) budget [] pruned_count = ([], pruned_count)
  prune (suc left) budget (oldest ∷ msgs) pruned_count =
      let rest = strip_tools msgs in
      let pruned = prune left budget rest.0 (pruned_count + 1 + rest.1) in
      if ltb budget (estimate_messages_tokens (oldest ∷ msgs))
        && ltb min_keep_messages (length (oldest ∷ msgs))
      then pruned
      else (oldest ∷ msgs, pruned_count)

-- `saturating_sub` is the subtraction of ℕ.
unfoldable pub available_input_budget : ModelDef → Option (List ℕ) → ℕ
available_input_budget model none =
    5 * (model.context_window - model.max_output_tokens - system_overhead_tokens) / 6
available_input_budget model (some prompt) =
    5
    * (model.context_window
        - model.max_output_tokens
        - add_u32 system_overhead_tokens (estimate_tokens prompt))
    / 6

pub record ContextWindow (ToolCall Image : Type 0) : Type 0 where
  pub messages : List (CompletionMessage ToolCall Image)
  pub estimated_tokens : ℕ
  pub pruned_count : ℕ
  pub compacted : Bool

module _ {ToolCall Image : Type 0} (summary : ℕ → List ℕ) where
  -- What stands after the pruning.
  compact : List (CompletionMessage ToolCall Image) × ℕ → ContextWindow ToolCall Image
  compact pruned = record {
    messages = text user (summary pruned.1) ∷ pruned.0;
    estimated_tokens = estimate_messages_tokens (text user (summary pruned.1) ∷ pruned.0);
    pruned_count = pruned.1;
    compacted = ltb 0 pruned.1;
  }

  unfoldable pub optimize_context :
      List (CompletionMessage ToolCall Image)
      → ModelDef
      → Option (List ℕ)
      → ContextWindow ToolCall Image
  unfolding compact prune
  optimize_context messages model system_prompt =
      let budget = available_input_budget model system_prompt in
      let merged = merge_consecutive_same_role (repair_tool_pairing messages) in
      if leb (estimate_messages_tokens merged) budget
      then record {
        messages = merged;
        estimated_tokens = estimate_messages_tokens merged;
        pruned_count = 0;
        compacted = false;
      }
      else compact (prune (length merged) budget merged 0)

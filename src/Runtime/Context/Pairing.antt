-- ===== src/Runtime/Context/Pairing.antt =====
-- The answers of tools in what crates/frankclaw-runtime/src/context.rs sends: each follows its call.
use frankclaw.Prelude.{
  ℕ, zero, suc, ◌+◌, ◌≡◌, true, Option, none, some, Bool-cases, inl, inr, List, [], ◌∷◌, ◌++◌, not,
  ◌&&◌, ltb, leb, length, arith,
}
use frankclaw.Core.Message.{user, CompletionMessage, text}
use frankclaw.Runtime.Context.{
  ModelDef, contains, is_empty, tool_call_marker, is_tool, asks_tool, answers, keep_paired,
  pop_last, pop_pending, repair_tool_pairing, can_merge, join, merge_into,
  merge_consecutive_same_role, strip_tools, prune, estimate_messages_tokens, min_keep_messages,
  available_input_budget, compact, optimize_context,
}

contains-append : (xs ys part : List ℕ) → contains ys part ≡ true → contains (xs ++ ys) part ≡ true
unfolding contains
contains-append [] ys part h = h
contains-append (x ∷ xs) ys part h = ground (arith, contains-append xs ys part h)

module _ {ToolCall Image : Type 0} where
  -- Every tool's message follows a tool's message or an assistant's message with calls.
  abbrev pub IsPaired :
      Option (CompletionMessage ToolCall Image) → List (CompletionMessage ToolCall Image) → Type 0
  IsPaired before [] = Unit
  IsPaired before (msg ∷ msgs) =
      (is_tool msg ≡ true → answers before ≡ true) × IsPaired (some msg) msgs

  IsPaired-weaken :
      (before other : Option (CompletionMessage ToolCall Image))
      (msgs : List (CompletionMessage ToolCall Image))
      → (answers before ≡ true → answers other ≡ true)
      → IsPaired before msgs
      → IsPaired other msgs
  IsPaired-weaken before other [] f h = tt
  IsPaired-weaken before other (msg ∷ msgs) f h = (λ t. f (h.0 t), h.1)

  keep_paired-IsPaired :
      (before : Option (CompletionMessage ToolCall Image))
      (msgs : List (CompletionMessage ToolCall Image))
      → IsPaired before (keep_paired before msgs)
  unfolding keep_paired
  keep_paired-IsPaired before [] = tt
  keep_paired-IsPaired before (msg ∷ msgs) =
      elim (Bool-cases (is_tool msg && not (answers before))) [
        | inl orphan ↦ rw (orphan, keep_paired) (keep_paired-IsPaired before msgs)
        | inr sound ↦
            rw (sound, keep_paired)
              (λ t. ground (arith, t, sound), keep_paired-IsPaired (some msg) msgs)
      ]

  pop_last-IsPaired :
      (before : Option (CompletionMessage ToolCall Image)) (msg : CompletionMessage ToolCall Image)
      (msgs : List (CompletionMessage ToolCall Image))
      → IsPaired before (msg ∷ msgs)
      → IsPaired before (pop_last msg msgs)
  unfolding pop_last
  pop_last-IsPaired before msg [] h = elim (Bool-cases (asks_tool msg)) [
    | inl pending ↦ rw pending tt
    | inr other ↦ rw other h
  ]
  pop_last-IsPaired before msg (m ∷ ms) h = h

  pop_pending-IsPaired :
      (before : Option (CompletionMessage ToolCall Image))
      (msgs : List (CompletionMessage ToolCall Image))
      → IsPaired before msgs
      → IsPaired before (pop_pending msgs)
  unfolding pop_pending
  pop_pending-IsPaired before [] h = tt
  pop_pending-IsPaired before (msg ∷ msgs) h =
      pop_last-IsPaired before msg (pop_pending msgs)
        (h.0, pop_pending-IsPaired (some msg) msgs h.1)

  answers-join :
      (before msg : CompletionMessage ToolCall Image)
      → can_merge before msg ≡ true
      → answers (some msg) ≡ true
      → answers (some (join before msg)) ≡ true
  unfolding answers asks_tool is_tool can_merge join is_empty
  answers-join before msg h asked =
      ground (arith, contains-append before.content (10 ∷ msg.content) tool_call_marker)

  merge_into-IsPaired :
      (other : Option (CompletionMessage ToolCall Image))
      (before : CompletionMessage ToolCall Image) (msgs : List (CompletionMessage ToolCall Image))
      → (is_tool before ≡ true → answers other ≡ true)
      → IsPaired (some before) msgs
      → IsPaired other (merge_into before msgs)
  unfolding merge_into join is_tool
  merge_into-IsPaired other before [] f h = (f, tt)
  merge_into-IsPaired other before (msg ∷ msgs) f h = elim (Bool-cases (can_merge before msg)) [
    | inl merged ↦
        rw (merged, merge_into)
          (merge_into-IsPaired other (join before msg) msgs f (
            IsPaired-weaken (some msg) (some (join before msg)) msgs
              (answers-join before msg merged) h.1))
    | inr parted ↦ rw (parted, merge_into) (f, merge_into-IsPaired (some before) msg msgs h.0 h.1)
  ]

  strip_tools-IsPaired :
      (before : Option (CompletionMessage ToolCall Image))
      (msgs : List (CompletionMessage ToolCall Image))
      → IsPaired before msgs
      → IsPaired none (strip_tools msgs).0
  unfolding strip_tools
  strip_tools-IsPaired before [] h = tt
  strip_tools-IsPaired before (msg ∷ msgs) h = elim (Bool-cases (is_tool msg)) [
    | inl stripped ↦ rw (stripped, strip_tools) (strip_tools-IsPaired (some msg) msgs h.1)
    | inr other ↦ rw (other, strip_tools) (λ t. absurd (ground (arith, t, other)), h.1)
  ]

  prune-IsPaired :
      (left budget : ℕ) (kept : List (CompletionMessage ToolCall Image)) (pruned_count : ℕ)
      → IsPaired none kept
      → IsPaired none (prune left budget kept pruned_count).0
  unfolding prune
  prune-IsPaired zero budget kept pruned_count h = h
  prune-IsPaired (suc left) budget [] pruned_count h = tt
  prune-IsPaired (suc left) budget (oldest ∷ msgs) pruned_count h =
      elim (Bool-cases (
        ltb budget (estimate_messages_tokens (oldest ∷ msgs))
        && ltb min_keep_messages (length (oldest ∷ msgs)))) [
          | inl over ↦
              rw (over, prune)
                (prune-IsPaired left budget (strip_tools msgs).0
                  (pruned_count + 1 + (strip_tools msgs).1)
                  (strip_tools-IsPaired (some oldest) msgs h.1))
          | inr fits ↦ rw (fits, prune) h
        ]

  merge-IsPaired :
      (msgs : List (CompletionMessage ToolCall Image))
      → IsPaired none msgs
      → IsPaired none (merge_consecutive_same_role msgs)
  unfolding merge_consecutive_same_role
  merge-IsPaired [] h = tt
  merge-IsPaired (msg ∷ msgs) h = merge_into-IsPaired none msg msgs h.0 h.1

  merged-IsPaired :
      (msgs : List (CompletionMessage ToolCall Image))
      → IsPaired none (merge_consecutive_same_role (repair_tool_pairing msgs))
  unfolding repair_tool_pairing
  merged-IsPaired msgs =
      merge-IsPaired (repair_tool_pairing msgs)
        (pop_pending-IsPaired none (keep_paired none msgs) (keep_paired-IsPaired none msgs))

  -- A user's message may stand before what follows nothing.
  text-IsPaired :
      (content : List ℕ) (msgs : List (CompletionMessage ToolCall Image))
      → IsPaired none msgs
      → IsPaired none (text user content ∷ msgs)
  unfolding is_tool answers
  text-IsPaired content msgs h = (
    λ t. t,
    IsPaired-weaken none (some (text user content)) msgs (λ t. absurd (ground (arith, t))) h,
  )

module _ {ToolCall Image : Type 0} (summary : ℕ → List ℕ) where
  -- Whatever the history, the model and the prompt, in the messages that are sent every tool's message
  -- directly follows a tool's message or an assistant's message with calls, structured or in its text:
  -- repairing, merging and pruning leave no answer without its call.
  pub optimize_context-IsPaired :
      (messages : List (CompletionMessage ToolCall Image)) (model : ModelDef)
      (system_prompt : Option (List ℕ))
      → IsPaired none (optimize_context summary messages model system_prompt).messages
  unfolding optimize_context compact
  optimize_context-IsPaired messages model system_prompt =
      let merged = merge_consecutive_same_role (repair_tool_pairing messages) in
      let budget = available_input_budget model system_prompt in
      let pruned = prune (length merged) budget merged 0 in
      elim (Bool-cases (leb (estimate_messages_tokens merged) budget)) [
        | inl fits ↦ rw fits (merged-IsPaired messages)
        | inr over ↦ rw over (
            text-IsPaired (summary pruned.1) pruned.0
              (prune-IsPaired (length merged) budget merged 0 (merged-IsPaired messages)))
      ]

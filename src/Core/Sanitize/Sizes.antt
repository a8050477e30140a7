-- ===== src/Core/Sanitize/Sizes.antt =====
-- The limit on prompts of crates/frankclaw-core/src/sanitize.rs.
use frankclaw.Prelude.{
  ℕ, ◌+◌, ◌≤◌, ◌≡◌, ◌↔◌, true, Option, none, some, ◌⊎◌, List, [], ◌∷◌, length, arith,
}
use frankclaw.Core.Message.{CompletionMessage}
use frankclaw.Core.Sanitize.{max_prompt_bytes, sizes_from, check_prompt_size}

abbrev pub system_bytes : Option (List ℕ) → ℕ
system_bytes none = 0
system_bytes (some system) = length system

module _ {ToolCall Image : Type 0} where
  abbrev pub content_bytes : List (CompletionMessage ToolCall Image) → ℕ
  content_bytes [] = 0
  content_bytes (msg ∷ msgs) = length msg.content + content_bytes msgs

  sizes_from_lem :
      (total : ℕ) (msg : CompletionMessage ToolCall Image)
      (msgs : List (CompletionMessage ToolCall Image))
      → (sizes_from total (msg ∷ msgs) ≡ true)
        ↔ (total + content_bytes (msg ∷ msgs) ≤ max_prompt_bytes)
  unfolding sizes_from
  sizes_from_lem total msg [] = ground arith
  sizes_from_lem total msg (next ∷ msgs) =
      ground (arith, sizes_from_lem (total + length msg.content) next msgs)

  -- With a message at least, the check passes exactly when the bytes of the system prompt and of all the
  -- messages are 2 MB at most; with none it passes however long the system prompt is.
  pub check_prompt_size_iff :
      (messages : List (CompletionMessage ToolCall Image)) (system : Option (List ℕ))
      → (check_prompt_size messages system ≡ true)
        ↔ ((messages ≡ []) ⊎ (system_bytes system + content_bytes messages ≤ max_prompt_bytes))
  unfolding check_prompt_size sizes_from
  check_prompt_size_iff [] none = ground arith
  check_prompt_size_iff [] (some system) = ground arith
  check_prompt_size_iff (msg ∷ msgs) none = ground (arith, sizes_from_lem 0 msg msgs)
  check_prompt_size_iff (msg ∷ msgs) (some system) =
      ground (arith, sizes_from_lem (length system) msg msgs)

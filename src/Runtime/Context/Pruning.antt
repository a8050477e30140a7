-- ===== src/Runtime/Context/Pruning.antt =====
-- What crates/frankclaw-runtime/src/context.rs takes off the history, and what it reports of it.
use frankclaw.Prelude.{
  ℕ, zero, suc, ◌+◌, ◌≤◌, ◌<◌, ◌≡◌, refl, sym, ap, ◌∙◌, false, Option, Bool-cases, inl, inr, ◌⊎◌,
  List, [], ◌∷◌, drop, length-drop, ◌-◌, ◌&&◌, ltb, leb, length, arith,
}
use frankclaw.Core.Message.{user, CompletionMessage, text}
use frankclaw.Runtime.Context.{
  ModelDef, is_tool, strip_tools, prune, estimate_messages_tokens, min_keep_messages,
  available_input_budget, ContextWindow, compact, optimize_context, merge_consecutive_same_role,
  repair_tool_pairing,
}

drop-nil : {A : Type 0} (n : ℕ) → drop {A = A} n [] ≡ []
drop-nil zero = refl
drop-nil (suc n) = refl

drop-drop : {A : Type 0} (n k : ℕ) (xs : List A) → drop k (drop n xs) ≡ drop (n + k) xs
drop-drop zero k xs = ap (λ m. drop m xs) (omega arith)
drop-drop (suc n) k [] = drop-nil k ∙ sym (drop-nil (suc n + k))
drop-drop (suc n) k (x ∷ xs) =
    let shifted : suc (n + k) ≡ suc n + k = omega arith in
    drop-drop n k xs ∙ ap (λ m. drop m (x ∷ xs)) shifted

module _ {ToolCall Image : Type 0} where
  drop-strip_tools :
      (msgs : List (CompletionMessage ToolCall Image))
      → ((strip_tools msgs).0 ≡ drop (strip_tools msgs).1 msgs)
        × ((strip_tools msgs).1 ≤ length msgs)
  unfolding strip_tools
  drop-strip_tools [] = (refl, omega arith)
  drop-strip_tools (msg ∷ msgs) =
      let rest = drop-strip_tools msgs in
      elim (Bool-cases (is_tool msg)) [
        | inl stripped ↦ rw (stripped, strip_tools) (rest.0, omega (arith, rest.1))
        | inr other ↦ rw (other, strip_tools) (refl, omega arith)
      ]

  -- `kept` is what stays of `msgs` when `count` are taken off the front; it fits or is short.
  abbrev pub Keeps :
      ℕ
      → List (CompletionMessage ToolCall Image)
      → ℕ
      → List (CompletionMessage ToolCall Image)
      → Type 0
  Keeps budget msgs count kept =
      (kept ≡ drop count msgs)
      × ((count ≤ length msgs)
          × ((estimate_messages_tokens kept ≤ budget) ⊎ (length kept ≤ min_keep_messages)))

  prune-Keeps :
      (left budget : ℕ) (msgs : List (CompletionMessage ToolCall Image)) (pruned_count : ℕ)
      → length msgs ≤ left
      → (count : ℕ) × (((prune left budget msgs pruned_count).1 ≡ pruned_count + count)
          × Keeps budget msgs count (prune left budget msgs pruned_count).0)
  unfolding prune
  prune-Keeps zero budget msgs pruned_count h =
      (0, (omega arith, (refl, (omega arith, inr (omega arith)))))
  prune-Keeps (suc left) budget [] pruned_count h =
      (0, (omega arith, (refl, (omega arith, inr (omega arith)))))
  prune-Keeps (suc left) budget (oldest ∷ msgs) pruned_count h =
      elim (Bool-cases (
        ltb budget (estimate_messages_tokens (oldest ∷ msgs))
        && ltb min_keep_messages (length (oldest ∷ msgs)))) [
          | inr done ↦
              rw (done, prune) (0, (omega arith, (refl, (omega arith, ground (arith, done)))))
          | inl over ↦
              let count = (strip_tools msgs).1 in
              let rest = drop-strip_tools msgs in
              let shorter : length (strip_tools msgs).0 ≡ length msgs - count =
                ap length rest.0 ∙ length-drop count msgs in
              let later =
                prune-Keeps left budget (strip_tools msgs).0 (pruned_count + 1 + count)
                  (omega (arith, shorter, h)) in
              let short = later.1.1.1.0 in
              rw (over, prune)
                (
                  suc (count + later.0),
                  (
                    omega (arith, later.1.0),
                    (
                      later.1.1.0 ∙ ap (drop later.0) rest.0 ∙ drop-drop count later.0 msgs,
                      (omega (arith, shorter, short, rest.1), later.1.1.1.1),
                    ),
                  ),
                )
        ]

  prune-Keeps_all :
      (budget : ℕ) (msgs : List (CompletionMessage ToolCall Image))
      → Keeps budget msgs
          (prune (length msgs) budget msgs 0).1
          (prune (length msgs) budget msgs 0).0
  prune-Keeps_all budget msgs =
      let kept = prune-Keeps (length msgs) budget msgs 0 (omega arith) in
      let same : kept.0 ≡ (prune (length msgs) budget msgs 0).1 = omega (arith, kept.1.0) in
      (kept.1.1.0 ∙ ap (λ n. drop n msgs) same, (omega (arith, same, kept.1.1.1.0), kept.1.1.1.1))

  -- What a window says of the merged history `msgs` of a conversation, under the text `summary`.
  abbrev pub Prunes :
      (ℕ → List ℕ)
      → ℕ
      → List (CompletionMessage ToolCall Image)
      → ContextWindow ToolCall Image
      → Type 0
  Prunes summary budget msgs w =
      ((estimate_messages_tokens msgs ≤ budget)
        × ((w.messages ≡ msgs) × ((w.pruned_count ≡ 0) × (w.compacted ≡ false))))
      ⊎ ((budget < estimate_messages_tokens msgs)
          × ((kept : List (CompletionMessage ToolCall Image)) × ((w.messages
                  ≡ text user (summary w.pruned_count) ∷ kept)
                × (Keeps budget msgs w.pruned_count kept × (w.compacted ≡ ltb 0 w.pruned_count)))))

module _ {ToolCall Image : Type 0} (summary : ℕ → List ℕ) where
  -- A history that fits the budget after the repair and the merging is sent whole. Otherwise a summary
  -- that names the count of pruned messages stands before the rest of the history behind exactly so many
  -- messages, the rest fits the budget or has at most four messages, and the window is marked compacted
  -- when the count is positive. The reported estimate is that of the messages sent, the summary included.
  pub optimize_context-Prunes :
      (messages : List (CompletionMessage ToolCall Image)) (model : ModelDef)
      (system_prompt : Option (List ℕ))
      → let w = optimize_context summary messages model system_prompt in
        (w.estimated_tokens ≡ estimate_messages_tokens w.messages)
        × Prunes summary
            (available_input_budget model system_prompt)
            (merge_consecutive_same_role (repair_tool_pairing messages))
            w
  unfolding optimize_context compact
  optimize_context-Prunes messages model system_prompt =
      let merged = merge_consecutive_same_role (repair_tool_pairing messages) in
      let budget = available_input_budget model system_prompt in
      elim (Bool-cases (leb (estimate_messages_tokens merged) budget)) [
        | inl fits ↦ rw fits (refl, inl (ground (arith, fits), (refl, (refl, refl))))
        | inr over ↦ rw over (
          refl,
          inr (
            ground (arith, over),
            (
              (prune (length merged) budget merged 0).0,
              (refl, (prune-Keeps_all budget merged, refl)),
            ),
          ),
        )
      ]

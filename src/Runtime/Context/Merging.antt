-- ===== src/Runtime/Context/Merging.antt =====
-- The order of roles after the merging of crates/frankclaw-runtime/src/context.rs.
use frankclaw.Prelude.{◌≡◌, false, Bool-cases, inl, inr, List, [], ◌∷◌}
use frankclaw.Core.Message.{CompletionMessage}
use frankclaw.Runtime.Context.{is_tool, can_merge, join, merge_into, merge_consecutive_same_role}

module _ {ToolCall Image : Type 0} where
  -- No message could be merged into the one before it, which for the first is `before`.
  abbrev IsPartedFrom :
      CompletionMessage ToolCall Image → List (CompletionMessage ToolCall Image) → Type 0
  IsPartedFrom before [] = Unit
  IsPartedFrom before (msg ∷ msgs) = (can_merge before msg ≡ false) × IsPartedFrom msg msgs

  abbrev IsParted : List (CompletionMessage ToolCall Image) → Type 0
  IsParted [] = Unit
  IsParted (msg ∷ msgs) = IsPartedFrom msg msgs

  merge_into-IsPartedFrom :
      (other before : CompletionMessage ToolCall Image)
      (msgs : List (CompletionMessage ToolCall Image))
      → can_merge other before ≡ false
      → IsPartedFrom other (merge_into before msgs)
  unfolding merge_into join can_merge is_tool
  merge_into-IsPartedFrom other before [] h = (h, tt)
  merge_into-IsPartedFrom other before (msg ∷ msgs) h = elim (Bool-cases (can_merge before msg)) [
    | inl merged ↦ rw (merged, merge_into) (merge_into-IsPartedFrom other (join before msg) msgs h)
    | inr parted ↦ rw (parted, merge_into) (h, merge_into-IsPartedFrom before msg msgs parted)
  ]

  merge_into-IsParted :
      (before : CompletionMessage ToolCall Image) (msgs : List (CompletionMessage ToolCall Image))
      → IsParted (merge_into before msgs)
  unfolding merge_into
  merge_into-IsParted before [] = tt
  merge_into-IsParted before (msg ∷ msgs) = elim (Bool-cases (can_merge before msg)) [
    | inl merged ↦ rw (merged, merge_into) (merge_into-IsParted (join before msg) msgs)
    | inr parted ↦ rw (parted, merge_into) (merge_into-IsPartedFrom before msg msgs parted)
  ]

  -- One pass leaves nothing to merge: after `merge_consecutive_same_role` no two neighbours have the
  -- same role, unless it is the tools' or one of them has structured calls.
  merge-IsParted :
      (msgs : List (CompletionMessage ToolCall Image)) → IsParted (merge_consecutive_same_role msgs)
  unfolding merge_consecutive_same_role
  merge-IsParted [] = tt
  merge-IsParted (msg ∷ msgs) = merge_into-IsParted msg msgs

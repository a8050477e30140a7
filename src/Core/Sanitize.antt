-- ===== src/Core/Sanitize.antt =====
-- crates/frankclaw-core/src/sanitize.rs. A text is the list of its code points; the sizes of prompts are counted on the
-- bytes of Core/Message.
pub mod Boundaries
pub mod Sizes
mod Tests
use frankclaw.Prelude.{
  ℕ, ◌+◌, ◌*◌, Bool, true, false, Option, none, some, List, [], ◌∷◌, ◌++◌, ◌&&◌, ◌||◌, not, ltb,
  leb, nat_eqb, any, filter, chars, length, if◌then◌else◌,
}
use frankclaw.Core.Message.{CompletionMessage}

-- `MAX_PROMPT_BYTES`.
abbrev pub max_prompt_bytes : ℕ
max_prompt_bytes = 2097152

-- `char::is_control`: the category Cc.
abbrev pub is_control : ℕ → Bool
is_control c = leb c 31 || (leb 127 c && leb c 159)

abbrev format_chars : List ℕ
format_chars =
    0xad ∷ 0x200b ∷ 0x200c ∷ 0x200d ∷ 0x200e ∷ 0x200f ∷ 0x202a ∷ 0x202b ∷ 0x202c ∷ 0x202d ∷ 0x202e
    ∷ 0x2060 ∷ 0x2066 ∷ 0x2067 ∷ 0x2068 ∷ 0x2069 ∷ 0xfeff ∷ 0xfff9 ∷ 0xfffa ∷ 0xfffb ∷ 0xfffc ∷ []

unfoldable pub is_format_char : ℕ → Bool
is_format_char c = any (λ f. nat_eqb c f) format_chars

-- The closure of the filter.
unfoldable pub is_kept : ℕ → Bool
is_kept c =
    if nat_eqb c 9 || nat_eqb c 10 || nat_eqb c 13
    then true
    else not (is_control c) && not (is_format_char c)

unfoldable pub sanitize_for_prompt : List ℕ → List ℕ
sanitize_for_prompt input = filter is_kept input

-- The tags of `wrap_untrusted_text`, with the newlines inside them.
abbrev pub untrusted_start : List ℕ
untrusted_start = chars "<untrusted-text>\n"

abbrev pub untrusted_end : List ℕ
untrusted_end = chars "\n</untrusted-text>"

unfoldable pub wrap_untrusted_text : List ℕ → List ℕ
wrap_untrusted_text text = untrusted_start ++ (sanitize_for_prompt text ++ untrusted_end)

abbrev pub external_end : List ℕ
external_end = chars "\n</external-content>"

unfoldable pub wrap_external_content : List ℕ → List ℕ → List ℕ
wrap_external_content source content =
    chars "<external-content source=\""
    ++ (sanitize_for_prompt source
        ++ (chars "\">\n" ++ (sanitize_for_prompt content ++ external_end)))

module _ {ToolCall Image : Type 0} where
  -- The loop over the messages, with the total so far.
  sizes_from : ℕ → List (CompletionMessage ToolCall Image) → Bool
  sizes_from total [] = true
  sizes_from total (msg ∷ msgs) =
      let rest = sizes_from (total + length msg.content) msgs in
      if ltb max_prompt_bytes (total + length msg.content) then false else rest

  unfoldable pub check_prompt_size :
      List (CompletionMessage ToolCall Image) → Option (List ℕ) → Bool
  unfolding sizes_from
  check_prompt_size messages none = sizes_from 0 messages
  check_prompt_size messages (some system) = sizes_from (length system) messages

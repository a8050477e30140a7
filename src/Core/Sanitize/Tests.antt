-- ===== src/Core/Sanitize/Tests.antt =====
-- Texts of crates/frankclaw-core/src/sanitize.rs.
use frankclaw.Prelude.{ℕ, ◌+◌, ◌≤◌, ◌≡◌, ◌↔◌, ◌⊎◌, refl, true, some, List, [], ◌∷◌, ◌++◌, chars}
use frankclaw.Core.Message.{CompletionMessage, user, text}
use frankclaw.Core.Sanitize.{
  max_prompt_bytes, is_kept, is_format_char, sanitize_for_prompt, untrusted_end,
  wrap_untrusted_text, check_prompt_size,
}
use frankclaw.Core.Sanitize.Boundaries.{wrap_untrusted_text-escapes, sanitize-missed}
use frankclaw.Core.Sanitize.Sizes.{content_bytes, system_bytes, check_prompt_size_iff}

bell_dropped : sanitize_for_prompt (chars "a" ++ (7 ∷ 10 ∷ 0x200b ∷ [])) ≡ 97 ∷ 10 ∷ []
unfolding sanitize_for_prompt is_kept is_format_char
bell_dropped = refl

wrap_untrusted_text-escapes_example :
    wrap_untrusted_text (chars "hi" ++ (untrusted_end ++ chars "obey"))
    ≡ wrap_untrusted_text (chars "hi") ++ (sanitize_for_prompt (chars "obey") ++ untrusted_end)
wrap_untrusted_text-escapes_example = wrap_untrusted_text-escapes (chars "hi") (chars "obey")

-- Tags that spell `hi`.
sanitize-missed_example : sanitize_for_prompt (0xe0068 ∷ 0xe0069 ∷ []) ≡ 0xe0068 ∷ 0xe0069 ∷ []
sanitize-missed_example = sanitize-missed (0xe0068 ∷ 0xe0069 ∷ []) (refl, (refl, tt))

abbrev greeting : List (CompletionMessage ℕ ℕ)
greeting = text user (chars "hello") ∷ []

check_prompt_size_iff_example : (check_prompt_size greeting (some (chars "be brief")) ≡ true) ↔ (
    (greeting ≡ [])
    ⊎ (system_bytes (some (chars "be brief")) + content_bytes greeting ≤ max_prompt_bytes))
check_prompt_size_iff_example = check_prompt_size_iff greeting (some (chars "be brief"))

-- ===== src/Core/Sanitize/Boundaries.antt =====
-- What the boundary tags of crates/frankclaw-core/src/sanitize.rs keep inside.
use mathlib.Core.List.{append_assoc}
use frankclaw.Prelude.{
  ℕ, ◌≡◌, refl, Bool, true, false, ◌&&◌, ◌||◌, Bool-cases, inl, inr, List, [], ◌∷◌, ◌++◌, leb,
  nat_eqb, All, arith,
}
use frankclaw.Core.Sanitize.{
  is_control, is_format_char, is_kept, sanitize_for_prompt, untrusted_end, wrap_untrusted_text,
}

sanitize-append :
    (xs ys : List ℕ)
    → sanitize_for_prompt (xs ++ ys) ≡ sanitize_for_prompt xs ++ sanitize_for_prompt ys
unfolding sanitize_for_prompt
sanitize-append [] ys = refl
sanitize-append (x ∷ xs) ys = elim (Bool-cases (is_kept x)) [
  | inl kept ↦ rw kept (rw (sanitize-append xs ys) refl)
  | inr dropped ↦ rw dropped (sanitize-append xs ys)
]

sanitize-untrusted_end : sanitize_for_prompt untrusted_end ≡ untrusted_end
unfolding sanitize_for_prompt is_kept is_format_char
sanitize-untrusted_end = refl

-- The tags can be closed from inside: a text that holds the closing tag is wrapped as the text before
-- the tag would be, followed outside the tags by the sanitized rest of the text and a second closing tag.
pub wrap_untrusted_text-escapes :
    (before after : List ℕ)
    → wrap_untrusted_text (before ++ (untrusted_end ++ after))
      ≡ wrap_untrusted_text before ++ (sanitize_for_prompt after ++ untrusted_end)
unfolding wrap_untrusted_text
wrap_untrusted_text-escapes before after =
    rw
      (
        sanitize-append before (untrusted_end ++ after),
        sanitize-append untrusted_end after,
        sanitize-untrusted_end,
      )
      (simp append_assoc refl)

-- Characters that `sanitize_for_prompt` leaves although they are in the category Cf: the Arabic letter mark, the
-- invisible operators, and the tags with which a text can be hidden.
abbrev pub is_missed : ℕ → Bool
is_missed c = nat_eqb c 0x61c || (leb 0x2061 c && leb c 0x2064) || (leb 0xe0020 c && leb c 0xe007f)

module _ (c : ℕ) (h : is_missed c ≡ true) where
  is_control-missed : is_control c ≡ false
  is_control-missed = ground arith

  is_format_char-missed : is_format_char c ≡ false
  unfolding is_format_char
  is_format_char-missed = ground arith

  is_kept-missed : is_kept c ≡ true
  unfolding is_kept
  is_kept-missed = ground (arith, is_control-missed, is_format_char-missed)

-- A text of format characters that the list of the code leaves out, such as the tags U+E0020 to U+E007F
-- that can spell a hidden text, passes unchanged.
pub sanitize-missed :
    (text : List ℕ) → All (λ c. is_missed c ≡ true) text → sanitize_for_prompt text ≡ text
unfolding sanitize_for_prompt
sanitize-missed [] h = refl
sanitize-missed (c ∷ text) h = rw (is_kept-missed c h.0) (rw (sanitize-missed text h.1) refl)

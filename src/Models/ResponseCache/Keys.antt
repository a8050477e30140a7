-- ===== src/Models/ResponseCache/Keys.antt =====
-- Which requests share a key in crates/frankclaw-models/src/cache.rs.
use mathlib.Core.List.{append_assoc}
use frankclaw.Prelude.{ℕ, ◌≡◌, refl, String, List, ◌∷◌, ◌++◌}
use frankclaw.Core.Message.{Role, CompletionMessage, text}
use frankclaw.Models.ResponseCache.{
  CompletionRequest, bar, colon, role_name, message_bytes, key_bytes, cache_key,
}

module _ {ToolCall Image : Type 0} where
  message_bytes-joined :
      (r r' : Role) (a b : List ℕ) (rest : List (CompletionMessage ToolCall Image))
      → message_bytes (text r (a ++ (bar ∷ (role_name r' ++ (colon ∷ b)))) ∷ rest)
        ≡ message_bytes (text r a ∷ text r' b ∷ rest)
  unfolding message_bytes
  message_bytes-joined r r' a b rest = simp append_assoc refl

-- A message whose content spells the framing of a second message gives the same key as the two
-- messages: a text `a`, a bar, the name of a role, a colon and a text `b` in one message of any role `r`
-- share the key of the message `a` of role `r` followed by the message `b` of the spelt role, whatever
-- the other fields, the messages after them and the hash are.
pub cache_key-collides :
    {ToolCall Image Tool Other : Type 0} (sha256 : List ℕ → String)
    (request : CompletionRequest ToolCall Image Tool Other) (r r' : Role) (a b : List ℕ)
    (rest : List (CompletionMessage ToolCall Image))
    → cache_key sha256
        (record request { messages = text r (a ++ (bar ∷ (role_name r' ++ (colon ∷ b)))) ∷ rest })
      ≡ cache_key sha256 (record request { messages = text r a ∷ text r' b ∷ rest })
unfolding cache_key key_bytes
cache_key-collides sha256 request r r' a b rest = rw (message_bytes-joined r r' a b rest) refl

-- ===== src/Core/Ids.antt =====
-- The identifiers of crates/frankclaw-core/src/types.rs, as the bytes of their text. A slice at an
-- index that is no boundary of a character panics: `none`.
pub mod SessionKeys
pub mod Clamp
mod Tests
use frankclaw.Prelude.{
  ℕ, zero, suc, ◌+◌, Bool, true, false, Option, none, some, List, [], ◌∷◌, ◌++◌, ◌&&◌, not, leb,
  ltb, nat_eqb, length, if◌then◌else◌,
}

-- `MAX_ID_LEN`.
abbrev pub max_id_len : ℕ
max_id_len = 255

-- No character is cut before these bytes: the first of them continues none.
abbrev pub is_boundary : List ℕ → Bool
is_boundary [] = true
is_boundary (b ∷ bs) = not (leb 128 b && ltb b 192)

-- `&s[..n]`.
unfoldable pub prefix : ℕ → List ℕ → Option (List ℕ)
prefix zero s = if is_boundary s then some [] else none
prefix (suc n) [] = none
prefix (suc n) (b ∷ bs) = elim (prefix n bs) [ none ↦ none | some front ↦ some (b ∷ front) ]

unfoldable pub clamp_id : List ℕ → Option (List ℕ)
clamp_id s = if leb (length s) max_id_len then some s else prefix max_id_len s

pub record ChannelId : Type 0 where
  pub channel_text : List ℕ

pub record AgentId : Type 0 where
  pub agent_text : List ℕ

pub record SessionKey : Type 0 where
  pub key_text : List ℕ

-- `ChannelId::new`.
unfoldable pub new_channel : List ℕ → Option ChannelId
new_channel id = elim (clamp_id id) [
  | none ↦ none
  | some text ↦ some (record { channel_text = text })
]

-- `AgentId::new`.
unfoldable pub new_agent : List ℕ → Option AgentId
new_agent id = elim (clamp_id id) [ none ↦ none | some text ↦ some (record { agent_text = text }) ]

-- `:`.
abbrev pub colon : ℕ
colon = 58

-- `SessionKey::new`.
unfoldable pub new_key : AgentId → ChannelId → List ℕ → SessionKey
new_key agent_id channel account_id = record {
  key_text = agent_id.agent_text ++ (colon ∷ (channel.channel_text ++ (colon ∷ account_id)));
}

-- `SessionKey::from_raw`.
unfoldable pub from_raw : List ℕ → Option SessionKey
from_raw key =
    if ltb 800 (length key)
    then elim (prefix 800 key) [ none ↦ none | some text ↦ some (record { key_text = text }) ]
    else some (record { key_text = key })

-- The text before the first colon and the text after it, if there is one: a step of `splitn`.
unfoldable pub split_colon : List ℕ → Option (List ℕ × List ℕ)
split_colon [] = none
split_colon (b ∷ bs) =
    let rest = split_colon bs in
    if nat_eqb b colon
    then some ([], bs)
    else elim rest [ none ↦ none | some (front, back) ↦ some (b ∷ front, back) ]

-- The result of `SessionKey::parse`; `panicked` is a slice inside a character.
pub data Parsed : Type 0 where
  malformed panicked : Parsed
  parsed : AgentId → ChannelId → List ℕ → Parsed

parsed_ids : Option AgentId → Option ChannelId → List ℕ → Parsed
parsed_ids (some agent) (some channel) account = parsed agent channel account
parsed_ids _ _ account = panicked

unfoldable pub parse : SessionKey → Parsed
unfolding parsed_ids
parse key = elim (split_colon key.key_text) [
  | none ↦ malformed
  | some (agent, rest) ↦ elim (split_colon rest) [
    | none ↦ malformed
    | some (channel, account) ↦ parsed_ids (new_agent agent) (new_channel channel) account
  ]
]

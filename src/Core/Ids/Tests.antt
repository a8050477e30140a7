-- ===== src/Core/Ids/Tests.antt =====
-- Keys with and without a colon in the account, and an identifier of 256 bytes.
use frankclaw.Prelude.{
  ℕ, ◌≤◌, ◌<◌, ◌≡◌, ◌↔◌, refl, false, none, some, List, [], ◌∷◌, ◌++◌, chars, drop, length,
  replicate, arith,
}
use frankclaw.Core.Ids.{
  AgentId, ChannelId, parse, parsed, new_key, new_agent, new_channel, clamp_id, split_colon,
  max_id_len, is_boundary, prefix,
}
use frankclaw.Core.Ids.SessionKeys.{HasNoColon, parse-new_key}
use frankclaw.Core.Ids.Clamp.{clamp_id-none_iff}

abbrev agent : AgentId
agent = record { agent_text = chars "default" }

abbrev channel : ChannelId
channel = record { channel_text = chars "web" }

colon_in_account :
    parse (new_key agent channel (chars "team:42")) ≡ parsed agent channel (chars "team:42")
unfolding parse new_key new_agent new_channel clamp_id split_colon
colon_in_account = refl

parse-new_key_example :
    (parse (new_key agent channel (chars "team:42")) ≡ parsed agent channel (chars "team:42"))
    ↔ (HasNoColon agent.agent_text × HasNoColon channel.channel_text)
parse-new_key_example = parse-new_key agent channel (chars "team:42") (omega arith) (omega arith)

-- 254 letters and a character of two bytes.
abbrev long_id : List ℕ
long_id = replicate 254 97 ++ 0xc3 ∷ 0xa9 ∷ []

long_id_panics : clamp_id long_id ≡ none
unfolding clamp_id prefix
long_id_panics = refl

clamp_id-none_iff_example :
    ((clamp_id long_id ≡ none)
      ↔ ((max_id_len < length long_id) × (is_boundary (drop max_id_len long_id) ≡ false)))
    × ((text : List ℕ) → clamp_id long_id ≡ some text → length text ≤ max_id_len)
clamp_id-none_iff_example = clamp_id-none_iff long_id

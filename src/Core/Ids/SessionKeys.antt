-- ===== src/Core/Ids/SessionKeys.antt =====
-- Reading a session key of crates/frankclaw-core/src/types.rs back.
use frankclaw.Prelude.{
  ℕ, zero, suc, ◌≤◌, ◌≡◌, ◌≢◌, ◌↔◌, refl, ap, ◌∙◌, some, leb, Bool-cases, Option-cases, inl, inr,
  List, [], ◌∷◌, ◌++◌, nat_eqb, length, All, arith,
}
use frankclaw.Core.Ids.{
  AgentId, ChannelId, SessionKey, parsed, prefix, clamp_id, new_agent, new_channel, new_key,
  max_id_len, colon, split_colon, parse,
}

-- No colon among the bytes.
abbrev pub HasNoColon : List ℕ → Type 0
HasNoColon = All (λ b. b ≢ colon)

pub split_colon-append :
    (front back : List ℕ)
    → HasNoColon front
    → split_colon (front ++ (colon ∷ back)) ≡ some (front, back)
unfolding split_colon
split_colon-append [] back h = refl
split_colon-append (b ∷ bs) back (h, hs) = ground (arith, split_colon-append bs back hs)

-- The part before the split holds no colon.
split_colon-HasNoColon :
    (s front back : List ℕ) → split_colon s ≡ some (front, back) → HasNoColon front
unfolding split_colon
split_colon-HasNoColon [] front back h = cc
split_colon-HasNoColon (b ∷ bs) front back h = elim (Bool-cases (nat_eqb b colon)) [
  | inl here ↦ let nothing : [] ≡ front = ground arith in rw (← nothing) tt
  | inr later ↦ elim (Option-cases (split_colon bs)) [
    | inl absent ↦ absurd (ground arith)
    | inr ((start, end), rest) ↦
        let whole : b ∷ start ≡ front = ground arith in
        rw (← whole) (ground arith, split_colon-HasNoColon bs start end rest)
  ]
]

prefix-HasNoColon :
    (n : ℕ) (s front : List ℕ) → prefix n s ≡ some front → HasNoColon s → HasNoColon front
unfolding prefix
prefix-HasNoColon zero s front h k = let nothing : [] ≡ front = ground arith in rw (← nothing) tt
prefix-HasNoColon (suc n) [] front h k = cc
prefix-HasNoColon (suc n) (b ∷ bs) front h k = elim (Option-cases (prefix n bs)) [
  | inl absent ↦ absurd (ground arith)
  | inr (start, found) ↦
      let whole : b ∷ start ≡ front = ground arith in
      rw (← whole) (k.0, prefix-HasNoColon n bs start found k.1)
]

clamp_id-HasNoColon : (s front : List ℕ) → clamp_id s ≡ some front → HasNoColon s → HasNoColon front
unfolding clamp_id
clamp_id-HasNoColon s front h k = elim (Bool-cases (leb (length s) max_id_len)) [
  | inl short ↦ let same : s ≡ front = ground arith in rw (← same) k
  | inr long ↦ prefix-HasNoColon max_id_len s front (ground arith) k
]

new_agent-HasNoColon :
    (s : List ℕ) (a : AgentId) → new_agent s ≡ some a → HasNoColon s → HasNoColon a.agent_text
unfolding new_agent
new_agent-HasNoColon s a h k = elim (Option-cases (clamp_id s)) [
  | inl absent ↦ absurd (ground arith)
  | inr (text, found) ↦ clamp_id-HasNoColon s a.agent_text (ground arith) k
]

new_channel-HasNoColon :
    (s : List ℕ) (c : ChannelId) → new_channel s ≡ some c → HasNoColon s → HasNoColon c.channel_text
unfolding new_channel
new_channel-HasNoColon s c h k = elim (Option-cases (clamp_id s)) [
  | inl absent ↦ absurd (ground arith)
  | inr (text, found) ↦ clamp_id-HasNoColon s c.channel_text (ground arith) k
]

-- What a key that parses was split into.
parse-parsed :
    (key : SessionKey) (a : AgentId) (c : ChannelId) (account : List ℕ)
    → parse key ≡ parsed a c account
    → HasNoColon a.agent_text × HasNoColon c.channel_text
unfolding parse
parse-parsed key a c account h = elim (Option-cases (split_colon key.key_text)) [
  | inl absent ↦ absurd (ground arith)
  | inr ((agent, rest), first) ↦ elim (Option-cases (split_colon rest)) [
    | inl absent ↦ absurd (ground arith)
    | inr ((channel, last), second) ↦ elim (Option-cases (new_agent agent)) [
      | inl absent ↦ absurd (ground arith)
      | inr (a', made) ↦ elim (Option-cases (new_channel channel)) [
        | inl absent ↦ absurd (ground arith)
        | inr (c', made') ↦
            let same : a' ≡ a = ground arith in
            let same' : c' ≡ c = ground arith in
            (
              new_agent-HasNoColon agent a (made ∙ ap some same)
                  (split_colon-HasNoColon key.key_text agent rest first),
              new_channel-HasNoColon channel c (made' ∙ ap some same')
                  (split_colon-HasNoColon rest channel last second),
            )
      ]
    ]
  ]
]

-- A session key made of an agent and a channel of at most 255 bytes, and an account, parses back to
-- these three exactly when neither the agent nor the channel holds a colon; the account may.
pub parse-new_key :
    (agent_id : AgentId) (channel : ChannelId) (account_id : List ℕ)
    → length agent_id.agent_text ≤ max_id_len
    → length channel.channel_text ≤ max_id_len
    → (parse (new_key agent_id channel account_id) ≡ parsed agent_id channel account_id)
      ↔ (HasNoColon agent_id.agent_text × HasNoColon channel.channel_text)
unfolding new_key parse new_agent new_channel clamp_id
parse-new_key agent_id channel account_id short short' = (
  parse-parsed (new_key agent_id channel account_id) agent_id channel account_id,
  λ (h, h').
      rw
        (
          split_colon-append agent_id.agent_text (channel.channel_text ++ (colon ∷ account_id)) h,
          split_colon-append channel.channel_text account_id h',
          parse,
        )
        (ground arith),
)

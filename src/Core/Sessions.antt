-- ===== src/Core/Sessions.antt =====
-- `SessionScoping` of crates/frankclaw-core/src/session.rs and `session_key_for_inbound` of
-- crates/frankclaw-runtime/src/lib.rs. A text is its bytes, as in Core/Ids; of a message, the fields
-- that the session depends on.
pub mod Isolation
mod Tests
use frankclaw.Prelude.{
  ℕ, Bool, true, false, Option, none, some, List, [], ◌∷◌, ◌++◌, chars, if◌then◌else◌,
}
use frankclaw.Core.Ids.{AgentId, ChannelId, SessionKey, colon, new_key}

pub data SessionScoping : Type 0 where
  main per_peer per_channel_peer global : SessionScoping

-- `SessionScoping::default`.
abbrev pub default_scoping : SessionScoping
default_scoping = per_channel_peer

-- `thread_id.unwrap_or(..)` in a group.
unfoldable pub peer_of : Bool → Option (List ℕ) → List ℕ → List ℕ
peer_of false thread_id other = other
peer_of true none other = other
peer_of true (some thread) other = thread

unfoldable pub resolve_inbound_account_scope :
    SessionScoping → List ℕ → List ℕ → Option (List ℕ) → Bool → List ℕ
unfolding peer_of
resolve_inbound_account_scope main account_id sender_id thread_id is_group =
    peer_of is_group thread_id (chars "main")
resolve_inbound_account_scope per_peer account_id sender_id thread_id is_group =
    peer_of is_group thread_id sender_id
resolve_inbound_account_scope per_channel_peer account_id sender_id thread_id is_group =
    account_id ++ (colon ∷ peer_of is_group thread_id sender_id)
resolve_inbound_account_scope global account_id sender_id thread_id is_group = chars "global"

-- `InboundMessage`.
pub record InboundMessage : Type 0 where
  pub from_channel : ChannelId
  pub account_id : List ℕ
  pub sender_id : List ℕ
  pub thread_id : Option (List ℕ)
  pub is_group : Bool

-- `Runtime::session_key_for_inbound`, with the scoping and the default agent of the configuration.
unfoldable pub session_key_for_inbound : SessionScoping → AgentId → InboundMessage → SessionKey
session_key_for_inbound scoping default_agent inbound = new_key default_agent inbound.from_channel (
    resolve_inbound_account_scope scoping inbound.account_id inbound.sender_id inbound.thread_id
      inbound.is_group)

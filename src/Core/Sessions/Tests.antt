-- ===== src/Core/Sessions/Tests.antt =====
-- Two senders, and accounts with a colon in their name.
use frankclaw.Prelude.{◌≡◌, ◌↔◌, refl, true, false, some, chars, arith}
use frankclaw.Core.Ids.{AgentId, ChannelId}
use frankclaw.Core.Sessions.{
  InboundMessage, session_key_for_inbound, resolve_inbound_account_scope, per_channel_peer, main,
}
use frankclaw.Core.Sessions.Isolation.{peer, session_key_for_inbound_iff}

abbrev agent : AgentId
agent = record { agent_text = chars "default" }

abbrev channel : ChannelId
channel = record { channel_text = chars "irc" }

abbrev from_ann : InboundMessage
from_ann = record {
  from_channel = channel;
  account_id = chars "bot";
  sender_id = chars "ann:1";
  thread_id = some (chars "7");
  is_group = false;
}

abbrev from_bob : InboundMessage
from_bob = record from_ann { sender_id = chars "bob"; is_group = true }

-- An account `bot:ann` whose sender is `1`.
abbrev from_one : InboundMessage
from_one = record from_ann { account_id = chars "bot:ann"; sender_id = chars "1" }

collision :
    session_key_for_inbound per_channel_peer agent from_ann
    ≡ session_key_for_inbound per_channel_peer agent from_one
unfolding session_key_for_inbound resolve_inbound_account_scope
collision = refl

-- The scoping `Main` has one session for all senders.
shared_main :
    session_key_for_inbound main agent from_ann ≡ session_key_for_inbound main agent from_one
unfolding session_key_for_inbound resolve_inbound_account_scope
shared_main = refl

session_key_for_inbound_iff_example :
    (session_key_for_inbound per_channel_peer agent from_ann
      ≡ session_key_for_inbound per_channel_peer agent from_bob)
    ↔ ((channel.channel_text ≡ channel.channel_text)
        × (from_ann.account_id ≡ from_bob.account_id)
        × (peer from_ann ≡ peer from_bob))
session_key_for_inbound_iff_example =
    session_key_for_inbound_iff agent from_ann from_bob (ground arith) (ground arith) (ground arith)
      (ground arith)

-- ===== src/Core/Sessions/Isolation.antt =====
-- Which inbound messages share a session.
use frankclaw.Prelude.{ℕ, Option, some, ◌≡◌, ◌↔◌, ◌∙◌, refl, ap, sym, List, [], ◌∷◌, ◌++◌}
use frankclaw.Core.Ids.{AgentId, colon, new_key, split_colon}
use frankclaw.Core.Ids.SessionKeys.{HasNoColon, split_colon-append}
use frankclaw.Core.Sessions.{
  InboundMessage, session_key_for_inbound, resolve_inbound_account_scope, peer_of, per_channel_peer,
}

-- The sender, or the thread of a group that has one.
abbrev pub peer : InboundMessage → List ℕ
peer m = peer_of m.is_group m.thread_id m.sender_id

cancel_front : (front xs ys : List ℕ) → front ++ xs ≡ front ++ ys → xs ≡ ys
cancel_front [] xs ys h = h
cancel_front (b ∷ bs) xs ys h = cancel_front bs xs ys cc

cancel_colon :
    (front front' xs ys : List ℕ)
    → HasNoColon front
    → HasNoColon front'
    → front ++ (colon ∷ xs) ≡ front' ++ (colon ∷ ys)
    → (front ≡ front') × (xs ≡ ys)
cancel_colon front front' xs ys h h' same =
    let here : split_colon (front ++ (colon ∷ xs)) ≡ some (front, xs) =
      split_colon-append front xs h in
    let there : split_colon (front' ++ (colon ∷ ys)) ≡ some (front', ys) =
      split_colon-append front' ys h' in
    let both : ◌≡◌ {A = Option (List ℕ × List ℕ)} (some (front, xs)) (some (front', ys)) =
      sym here ∙ ap split_colon same ∙ there in
    (cc, cc)

-- With the default scoping and for channels and accounts without a colon in their names, two inbound
-- messages get the same session key exactly when their channel, their account and their peer (the
-- sender, or the thread of a group message that has one) are the same.
pub session_key_for_inbound_iff :
    (default_agent : AgentId) (m m' : InboundMessage)
    → HasNoColon m.from_channel.channel_text
    → HasNoColon m'.from_channel.channel_text
    → HasNoColon m.account_id
    → HasNoColon m'.account_id
    → (session_key_for_inbound per_channel_peer default_agent m
        ≡ session_key_for_inbound per_channel_peer default_agent m')
      ↔ ((m.from_channel.channel_text ≡ m'.from_channel.channel_text)
          × (m.account_id ≡ m'.account_id)
          × (peer m ≡ peer m'))
unfolding session_key_for_inbound resolve_inbound_account_scope new_key
session_key_for_inbound_iff default_agent m m' c c' a a' = (
  λ same.
      let rest = cancel_front default_agent.agent_text _ _ (ap (λ k. k.key_text) same) in
      let channels =
        cancel_colon m.from_channel.channel_text m'.from_channel.channel_text _ _ c c' cc in
      let accounts = cancel_colon m.account_id m'.account_id _ _ a a' channels.1 in
      (channels.0, accounts.0, accounts.1),
  λ (e, e', e''). rw (e, e', e'') refl,
)

-- ===== src/Core/Message.antt =====
-- `Role` of crates/frankclaw-core/src/types.rs and `CompletionMessage` of
-- crates/frankclaw-core/src/model.rs. A text is its bytes; tool calls and images are passed on unread.
use frankclaw.Prelude.{ℕ, Bool, true, false, Option, none, List, []}

pub data Role : Type 0 where
  system user assistant tool : Role

abbrev pub role_eqb : Role → Role → Bool
role_eqb system system = true
role_eqb user user = true
role_eqb assistant assistant = true
role_eqb tool tool = true
role_eqb _ _ = false

pub record CompletionMessage (ToolCall Image : Type 0) : Type 0 where
  pub role : Role
  pub content : List ℕ
  pub tool_calls : List ToolCall
  pub tool_call_id : Option (List ℕ)
  pub image_content : List Image

-- `CompletionMessage::text`.
abbrev pub text : {ToolCall Image : Type 0} → Role → List ℕ → CompletionMessage ToolCall Image
text role content = record {
  role = role;
  content = content;
  tool_calls = [];
  tool_call_id = none;
  image_content = [];
}

-- ===== src/Runtime/Subagent/Calls.antt =====
-- The calls of crates/frankclaw-runtime/src/subagent.rs in an order.
use frankclaw.Prelude.{ℕ, ◌≡◌, String, string_eq, true, false, none, some, List, [], ◌∷◌, lookup}
use frankclaw.Runtime.Subagent.{
  SpawnRequest, is_active, RunRecord, CompletionNotice, SubagentRegistry, register_spawn,
  mark_running, complete, listen_completion, cleanup_old_runs,
}

-- The calls that change the registry.
pub data Call (Sender : Type 0) : Type 0 where
  spawn : SpawnRequest → String → ℕ → Call Sender
  start : String → ℕ → Call Sender
  finish : CompletionNotice → ℕ → Call Sender
  watch : String → Sender → Call Sender
  clean : ℕ → ℕ → Call Sender

module _ {Sender : Type 0} where
  unfoldable pub step : SubagentRegistry Sender → Call Sender → SubagentRegistry Sender
  step reg (spawn request run_id now) = (register_spawn request run_id now reg).1
  step reg (start run_id now) = (mark_running run_id now reg).1
  step reg (finish notice now) = (complete notice now reg).1
  step reg (watch run_id tx) = listen_completion run_id tx reg
  step reg (clean max_age now) = cleanup_old_runs max_age now reg

  -- What the caller and the UUID owe: the identifier of a new run is unused, only an active run is
  -- started, and a notice carries a final state.
  abbrev pub IsDue : SubagentRegistry Sender → Call Sender → Type 0
  IsDue reg (spawn request run_id now) = lookup run_id reg.runs ≡ none
  IsDue reg (start run_id now) =
      (r : RunRecord) → lookup run_id reg.runs ≡ some r → is_active r.state ≡ true
  IsDue reg (finish notice now) = is_active notice.state ≡ false
  IsDue reg _ = Unit

  unfoldable pub run : SubagentRegistry Sender → List (Call Sender) → SubagentRegistry Sender
  run reg [] = reg
  run reg (call ∷ calls) = run (step reg call) calls

  abbrev pub AreDue : SubagentRegistry Sender → List (Call Sender) → Type 0
  AreDue reg [] = Unit
  AreDue reg (call ∷ calls) = IsDue reg call × AreDue (step reg call) calls

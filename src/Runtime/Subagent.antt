-- ===== src/Runtime/Subagent.antt =====
-- crates/frankclaw-runtime/src/subagent.rs. Each method is one step under the locks. Identifiers are the
-- strings that they wrap; the UUID of a run, the channel of a listener and the clock are arguments. An
-- agent's identifier has at most 255 bytes, so `SessionKey::from_raw` leaves a child's key whole.
pub mod Calls
pub mod Limits
mod Tests
use Prim.Native.String.{◌++◌}
use frankclaw.Prelude.{
  ℕ, zero, suc, ◌+◌, String, string_eq, Bool, true, false, Option, none, some, List, [], ◌∷◌, ◌&&◌,
  ltb, leb, ◌==◌, add_u32, show, find, filter, Map, values, lookup, insert, remove, modify, retain,
  if◌then◌else◌,
}
use frankclaw.Core.Error.{internal, Result, ok, err}

-- `DEFAULT_MAX_DEPTH`, `DEFAULT_MAX_CHILDREN`, `DEFAULT_TIMEOUT_SECS`.
abbrev pub default_max_depth : ℕ
default_max_depth = 3

abbrev pub default_max_children : ℕ
default_max_children = 5

abbrev pub default_timeout_secs : ℕ
default_timeout_secs = 300

pub record SpawnRequest : Type 0 where
  pub task : String
  pub label : Option String
  pub agent_id : String
  pub model_override : Option String
  pub timeout_secs : Option ℕ
  pub parent_session_key : String
  pub parent_depth : ℕ  -- u32

pub data SpawnResult : Type 0 where
  accepted : String → String → SpawnResult
  rejected : String → SpawnResult

pub data RunState : Type 0 where
  pending running completed failed timed_out killed : RunState

-- `matches!(state, Pending | Running)`.
unfoldable pub is_active : RunState → Bool
is_active pending = true
is_active running = true
is_active _ = false

pub record RunRecord : Type 0 where
  pub run_id : String
  pub child_session_key : String
  pub parent_session_key : String
  pub agent_id : String
  pub task : String
  pub label : Option String
  pub model_override : Option String
  pub depth : ℕ  -- u32
  pub state : RunState
  pub created_at : ℕ
  pub started_at : Option ℕ
  pub ended_at : Option ℕ
  pub result_text : Option String
  pub error : Option String
  pub timeout_secs : ℕ  -- u64

pub record CompletionNotice : Type 0 where
  pub run_id : String
  pub state : RunState
  pub result_text : Option String
  pub error : Option String

-- `Sender` is a `oneshot::Sender`; `sent` is what was sent on the channels, the newest first.
pub record SubagentRegistry (Sender : Type 0) : Type 0 where
  pub runs : Map String RunRecord
  pub completions : Map String Sender
  pub sent : List (Sender × CompletionNotice)
  pub max_depth : ℕ  -- u32
  pub max_children : ℕ  -- usize

-- `opt.unwrap_or(default)`.
unwrap_or : {A : Type 0} → A → Option A → A
unwrap_or default none = default
unwrap_or default (some a) = a

-- `values().filter(p).count()`.
unfoldable pub count : (RunRecord → Bool) → Map String RunRecord → ℕ
count p [] = 0
count p ((k, r) ∷ m) = let rest = count p m in if p r then suc rest else rest

-- The filter of `register_spawn`.
abbrev pub is_active_child : String → RunRecord → Bool
is_active_child parent r = (r.parent_session_key == parent) && is_active r.state

not_found : String → String
not_found run_id = "subagent run not found: " ++ run_id

-- The record that `register_spawn` inserts.
new_record : SpawnRequest → String → ℕ → RunRecord
unfolding unwrap_or
new_record request run_id now = record {
  run_id = run_id;
  child_session_key = "subagent:" ++ request.agent_id ++ ":" ++ run_id;
  parent_session_key = request.parent_session_key;
  agent_id = request.agent_id;
  task = request.task;
  label = request.label;
  model_override = request.model_override;
  depth = add_u32 request.parent_depth 1;
  state = pending;
  created_at = now;
  started_at = none;
  ended_at = none;
  result_text = none;
  error = none;
  timeout_secs = unwrap_or default_timeout_secs request.timeout_secs;
}

depth_reason : ℕ → ℕ → String
depth_reason depth max = "spawn depth limit exceeded: depth " ++ show depth ++ " > max " ++ show max

children_reason : ℕ → ℕ → String
children_reason active max =
    "concurrent children limit exceeded: " ++ show active ++ " active >= max " ++ show max

-- Whether a finished run is younger than `max_age` at `now`: `t > now - max_age`. An age beyond the
-- range of `chrono::Duration`, which the code reads as 0, is left out.
is_recent : ℕ → ℕ → Option ℕ → Bool
is_recent max_age now none = true
is_recent max_age now (some t) = ltb now (t + max_age)

module _ {Sender : Type 0} where
  unfoldable pub with_limits : ℕ → ℕ → SubagentRegistry Sender
  with_limits max_depth max_children = record {
    runs = [];
    completions = [];
    sent = [];
    max_depth = max_depth;
    max_children = max_children;
  }

  -- `SubagentRegistry::new`.
  unfoldable pub new : SubagentRegistry Sender
  new = with_limits default_max_depth default_max_children

  unfoldable pub register_spawn :
      SpawnRequest → String → ℕ → SubagentRegistry Sender → SpawnResult × SubagentRegistry Sender
  unfolding new_record depth_reason children_reason
  register_spawn request run_id now reg =
      let child_depth = add_u32 request.parent_depth 1 in
      let active = count (is_active_child request.parent_session_key) reg.runs in
      let entry = new_record request run_id now in
      if ltb reg.max_depth child_depth
      then (rejected (depth_reason child_depth reg.max_depth), reg)
      else if leb reg.max_children active
      then (rejected (children_reason active reg.max_children), reg)
      else (
        accepted run_id entry.child_session_key,
        record reg { runs = insert run_id entry reg.runs },
      )

  unfoldable pub mark_running :
      String → ℕ → SubagentRegistry Sender → Result {0} Unit × SubagentRegistry Sender
  unfolding not_found
  mark_running run_id now reg = elim (lookup run_id reg.runs) [
    | none ↦ (err (internal (not_found run_id)), reg)
    | some held ↦ (
      ok tt,
      record reg {
        runs = modify run_id (λ r. record r { state = running; started_at = some now }) reg.runs;
      },
    )
  ]

  -- `completions.remove(..)` and the send.
  notify : CompletionNotice → SubagentRegistry Sender → SubagentRegistry Sender
  notify notice reg = elim (lookup notice.run_id reg.completions) [
    | none ↦ reg
    | some tx ↦ record reg {
      completions = remove notice.run_id reg.completions;
      sent = (tx, notice) ∷ reg.sent;
    }
  ]

  unfoldable pub complete :
      CompletionNotice → ℕ → SubagentRegistry Sender → Result {0} Unit × SubagentRegistry Sender
  unfolding not_found notify
  complete notice now reg = elim (lookup notice.run_id reg.runs) [
    | none ↦ (err (internal (not_found notice.run_id)), reg)
    | some held ↦ (
      ok tt,
      notify notice (record reg {
        runs =
            modify notice.run_id
              (λ r. record r {
                state = notice.state;
                ended_at = some now;
                result_text = notice.result_text;
                error = notice.error;
              })
              reg.runs;
      }),
    )
  ]

  unfoldable pub listen_completion :
      String → Sender → SubagentRegistry Sender → SubagentRegistry Sender
  listen_completion run_id tx reg = record reg { completions = insert run_id tx reg.completions }

  unfoldable pub get_run : String → SubagentRegistry Sender → Option RunRecord
  get_run run_id reg = lookup run_id reg.runs

  unfoldable pub list_children : String → SubagentRegistry Sender → List RunRecord
  list_children parent reg = filter (λ r. r.parent_session_key == parent) (values reg.runs)

  unfoldable pub active_runs : SubagentRegistry Sender → List RunRecord
  active_runs reg = filter (λ r. is_active r.state) (values reg.runs)

  unfoldable pub kill :
      String → ℕ → SubagentRegistry Sender → Result {0} Unit × SubagentRegistry Sender
  kill run_id now reg =
      complete
        (record {
          run_id = run_id;
          state = killed;
          result_text = none;
          error = some "killed by parent";
        })
        now reg

  unfoldable pub cleanup_old_runs : ℕ → ℕ → SubagentRegistry Sender → SubagentRegistry Sender
  unfolding is_recent
  cleanup_old_runs max_age now reg = record reg {
    runs =
        retain (λ k r. if is_active r.state then true else is_recent max_age now r.ended_at)
          reg.runs;
  }

  unfoldable pub depth_of : String → SubagentRegistry Sender → ℕ
  depth_of session_key reg =
      elim (find (λ r. r.child_session_key == session_key) (values reg.runs)) [
        | none ↦ 0
        | some r ↦ r.depth
      ]

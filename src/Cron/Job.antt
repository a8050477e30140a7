-- ===== src/Cron/Job.antt =====
-- crates/frankclaw-cron/src/job.rs. A `DateTime<Utc>` is a number, and a method takes the instants
-- that it reads from the clock.
pub mod Steps
pub mod History
pub mod Lifecycle
mod Tests
use Prim.Native.String.{◌++◌}
use frankclaw.Prelude.{
  ℕ, ◌-◌, String, Bool, true, false, Option, none, some, List, [], ◌∷◌, ◌&&◌, not, add_u32,
  saturating_add_u64, length, drop, show, ltb, leb, is_some, if◌then◌else◌,
}
use mathlib.Core.List

-- `MAX_TRANSITIONS`.
abbrev pub max_transitions : ℕ
max_transitions = 200

-- `DEFAULT_MAX_REPAIR_ATTEMPTS`.
abbrev pub default_max_repair_attempts : ℕ
default_max_repair_attempts = 3

pub data JobState : Type 0 where
  pending in_progress completed submitted accepted failed stuck cancelled : JobState

unfoldable pub can_transition_to : JobState → JobState → Bool
can_transition_to pending in_progress = true
can_transition_to pending cancelled = true
can_transition_to in_progress completed = true
can_transition_to in_progress failed = true
can_transition_to in_progress stuck = true
can_transition_to in_progress cancelled = true
can_transition_to completed submitted = true
can_transition_to completed failed = true
can_transition_to submitted accepted = true
can_transition_to submitted failed = true
can_transition_to stuck in_progress = true
can_transition_to stuck failed = true
can_transition_to stuck cancelled = true
can_transition_to _ _ = false

unfoldable pub is_terminal : JobState → Bool
is_terminal accepted = true
is_terminal failed = true
is_terminal cancelled = true
is_terminal _ = false

-- `Display` of `JobState`.
state_text : JobState → String
state_text pending = "pending"
state_text in_progress = "in_progress"
state_text completed = "completed"
state_text submitted = "submitted"
state_text accepted = "accepted"
state_text failed = "failed"
state_text stuck = "stuck"
state_text cancelled = "cancelled"

pub record StateTransition : Type 0 where
  pub source : JobState
  pub target : JobState
  pub timestamp : ℕ
  pub reason : Option String

pub record JobContext : Type 0 where
  pub job_id : String
  pub state : JobState
  pub title : String
  pub description : String
  pub total_tokens_used : ℕ  -- u64
  pub max_tokens : ℕ  -- u64
  pub repair_attempts : ℕ  -- u32
  pub max_repair_attempts : ℕ  -- u32
  pub created_at : ℕ
  pub started_at : Option ℕ
  pub completed_at : Option ℕ
  pub transitions : List StateTransition

-- `Result<(), String>`.
pub data Outcome : Type 0 where
  done : Outcome
  refused : String → Outcome

-- `JobContext::new`.
unfoldable pub new : String → String → String → ℕ → JobContext
new job_id title description now = record {
  job_id = job_id;
  state = pending;
  title = title;
  description = description;
  total_tokens_used = 0;
  max_tokens = 0;
  repair_attempts = 0;
  max_repair_attempts = default_max_repair_attempts;
  created_at = now;
  started_at = none;
  completed_at = none;
  transitions = [];
}

-- The cap on the history.
cap_history : List StateTransition → List StateTransition
cap_history ts =
    if ltb max_transitions (length ts) then drop (length ts - max_transitions) ts else ts

-- The `match new_state` that updates the two timestamps.
stamp : JobState → ℕ → JobContext → JobContext
stamp in_progress now ctx =
    if not (is_some ctx.started_at) then record ctx { started_at = some now } else ctx
stamp completed now ctx = record ctx { completed_at = some now }
stamp accepted now ctx = record ctx { completed_at = some now }
stamp failed now ctx = record ctx { completed_at = some now }
stamp cancelled now ctx = record ctx { completed_at = some now }
stamp _ now ctx = ctx

-- The clock is read for the entry of the history (`now`) and for the timestamps (`later`).
unfoldable pub transition_to : JobState → Option String → ℕ → ℕ → JobContext → Outcome × JobContext
unfolding cap_history stamp state_text
transition_to new_state reason now later ctx =
    if not (can_transition_to ctx.state new_state)
    then (
      refused ("cannot transition from " ++ state_text ctx.state ++ " to " ++ state_text new_state),
      ctx,
    )
    else let entry : StateTransition = record {
      source = ctx.state;
      target = new_state;
      timestamp = now;
      reason = reason;
    } in
      let pushed = record ctx {
        transitions = cap_history (List.◌++◌ ctx.transitions (entry ∷ []));
        state = new_state;
      } in
      (done, stamp new_state later pushed)

unfoldable pub mark_stuck : String → ℕ → ℕ → JobContext → Outcome × JobContext
mark_stuck reason now later ctx = transition_to stuck (some reason) now later ctx

-- `state == JobState::Stuck`.
pub is_stuck : JobState → Bool
is_stuck stuck = true
is_stuck _ = false

unfoldable pub attempt_recovery : ℕ → ℕ → JobContext → Outcome × JobContext
unfolding is_stuck state_text
attempt_recovery now later ctx =
    if not (is_stuck ctx.state)
    then (refused ("job is not stuck (state: " ++ state_text ctx.state ++ ")"), ctx)
    else if leb ctx.max_repair_attempts ctx.repair_attempts
    then (
      refused (
          "exceeded max repair attempts ("
          ++ show ctx.repair_attempts
          ++ "/"
          ++ show ctx.max_repair_attempts
          ++ ")"),
      ctx,
    )
    else let attempts = add_u32 ctx.repair_attempts 1 in
      transition_to in_progress (some ("recovery attempt " ++ show attempts)) now later
        (record ctx { repair_attempts = attempts })

unfoldable pub transition_count : JobContext → ℕ
transition_count ctx = length ctx.transitions

unfoldable pub add_tokens : ℕ → JobContext → JobContext
add_tokens tokens ctx = record ctx {
  total_tokens_used = saturating_add_u64 ctx.total_tokens_used tokens;
}

unfoldable pub is_over_budget : JobContext → Bool
is_over_budget ctx = ltb 0 ctx.max_tokens && ltb ctx.max_tokens ctx.total_tokens_used

-- `RepairResult`; the code makes no `Retry`.
pub data RepairResult : Type 0 where
  success retry repair_failed manual_required : String → RepairResult

pub record StuckJob : Type 0 where
  pub job_id : String
  pub last_activity : ℕ
  pub stuck_duration : ℕ
  pub repair_attempts : ℕ
  pub max_repair_attempts : ℕ

-- What `repair_stuck_job` makes of the outcome of `attempt_recovery`.
repair_result : Outcome × JobContext → RepairResult
repair_result (done, ctx) = success (
    "job "
    ++ ctx.job_id
    ++ " recovered to in_progress (attempt "
    ++ show ctx.repair_attempts
    ++ ")")
repair_result (refused e, ctx) = repair_failed ("failed to recover job " ++ ctx.job_id ++ ": " ++ e)

unfoldable pub repair_stuck_job : ℕ → ℕ → JobContext → RepairResult × JobContext
unfolding is_stuck state_text repair_result
repair_stuck_job now later ctx =
    if not (is_stuck ctx.state)
    then (
      repair_failed
          ("job " ++ ctx.job_id ++ " is not stuck (state: " ++ state_text ctx.state ++ ")"),
      ctx,
    )
    else if leb ctx.max_repair_attempts ctx.repair_attempts
    then (
      manual_required (
          "job "
          ++ ctx.job_id
          ++ " exceeded "
          ++ show ctx.max_repair_attempts
          ++ " repair attempts"),
      ctx,
    )
    else let r = attempt_recovery now later ctx in (repair_result r, r.1)

-- The calls on a job that change it.
pub data JobCall : Type 0 where
  transition : JobState → Option String → ℕ → ℕ → JobCall
  stall : String → ℕ → ℕ → JobCall
  recover : ℕ → ℕ → JobCall
  repair : ℕ → ℕ → JobCall
  spend : ℕ → JobCall

unfoldable pub step : JobContext → JobCall → JobContext
step ctx (transition new_state reason now later) = (transition_to new_state reason now later ctx).1
step ctx (stall reason now later) = (mark_stuck reason now later ctx).1
step ctx (recover now later) = (attempt_recovery now later ctx).1
step ctx (repair now later) = (repair_stuck_job now later ctx).1
step ctx (spend tokens) = add_tokens tokens ctx

unfoldable pub run : JobContext → List JobCall → JobContext
run ctx [] = ctx
run ctx (c ∷ cs) = run (step ctx c) cs

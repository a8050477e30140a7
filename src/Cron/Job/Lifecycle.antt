-- ===== src/Cron/Job/Lifecycle.antt =====
-- How a job of crates/frankclaw-cron/src/job.rs ends, and how often it is repaired.
use frankclaw.Prelude.{
  ℕ, ◌+◌, ◌≤◌, ◌<◌, ◌^◌, ◌≡◌, ◌↔◌, leb, refl, ap, ◌∙◌, String, Bool, true, false, Option, List, [],
  ◌∷◌, arith, Bool-cases, inl, inr, is_some, max_u64,
}
use frankclaw.Cron.Job.{
  JobState, pending, in_progress, completed, submitted, accepted, failed, stuck, cancelled,
  JobContext, JobCall, transition, stall, recover, repair, spend, can_transition_to, is_terminal,
  stamp, transition_to, mark_stuck, attempt_recovery, repair_stuck_job, add_tokens, new, step, run,
  is_stuck,
}
use frankclaw.Cron.Job
use frankclaw.Cron.Job.Steps.{is_stuck_only, IsRepairable, count_repair, run_keeps}

-- The states of a job whose work is over.
abbrev pub is_over : JobState → Bool
is_over completed = true
is_over submitted = true
is_over accepted = true
is_over failed = true
is_over cancelled = true
is_over _ = false

-- The states of a job that may never have been in progress.
abbrev pub is_fresh : JobState → Bool
is_fresh pending = true
is_fresh cancelled = true
is_fresh _ = false

pub record IsConsistent (ctx : JobContext) : Type 0 where
  pub attempts_le : ctx.repair_attempts ≤ ctx.max_repair_attempts
  pub max_fits : ctx.max_repair_attempts < 2 ^ 32
  pub tokens_fit : ctx.total_tokens_used ≤ max_u64
  pub completed_iff : is_some ctx.completed_at ≡ is_over ctx.state
  pub unstarted : is_some ctx.started_at ≡ false → is_fresh ctx.state ≡ true

transition_to-IsConsistent :
    (s : JobState) (reason : Option String) (now later : ℕ) (ctx : JobContext)
    → IsConsistent ctx
    → IsConsistent (transition_to s reason now later ctx).1
unfolding transition_to can_transition_to stamp
transition_to-IsConsistent s reason now later ctx v = record {
  attempts_le = ground (arith, v.attempts_le);
  max_fits = ground (arith, v.max_fits);
  tokens_fit = ground (arith, v.tokens_fit);
  completed_iff = ground (arith, v.completed_iff);
  unstarted = λ h. ground (arith, v.unstarted);
}

count_repair-IsConsistent :
    (ctx : JobContext) → IsRepairable ctx → IsConsistent ctx → IsConsistent (count_repair ctx)
count_repair-IsConsistent ctx (_, left) v = record {
  attempts_le = ground (arith, v.max_fits);
  max_fits = v.max_fits;
  tokens_fit = v.tokens_fit;
  completed_iff = v.completed_iff;
  unstarted = v.unstarted;
}

add_tokens-IsConsistent :
    (tokens : ℕ) (ctx : JobContext) → IsConsistent ctx → IsConsistent (add_tokens tokens ctx)
unfolding add_tokens
add_tokens-IsConsistent tokens ctx v = record {
  attempts_le = v.attempts_le;
  max_fits = v.max_fits;
  tokens_fit = omega arith;
  completed_iff = v.completed_iff;
  unstarted = v.unstarted;
}

new-IsConsistent :
    (job_id title description : String) (now : ℕ) → IsConsistent (new job_id title description now)
unfolding new
new-IsConsistent job_id title description now = record {
  attempts_le = omega arith;
  max_fits = omega arith;
  tokens_fit = omega arith;
  completed_iff = refl;
  unstarted = λ _. refl;
}

-- After any calls on a new job its repair attempts are at most its maximum, its tokens fit u64, it has
-- a completion time exactly when its work is over (completed, submitted, accepted, failed or
-- cancelled), and with no start time it is pending or cancelled.
pub run-IsConsistent :
    (job_id title description : String) (now : ℕ) (calls : List JobCall)
    → IsConsistent (run (new job_id title description now) calls)
run-IsConsistent job_id title description now calls =
    run_keeps IsConsistent transition_to-IsConsistent count_repair-IsConsistent
      add_tokens-IsConsistent _ calls (new-IsConsistent job_id title description now)

-- A job in a terminal state: a call changes its tokens at most.
step-terminal :
    (ctx : JobContext) (call : JobCall)
    → is_terminal ctx.state ≡ true
    → step ctx call ≡ record ctx { total_tokens_used = (step ctx call).total_tokens_used }
unfolding step mark_stuck attempt_recovery repair_stuck_job add_tokens transition_to is_terminal
    is_stuck can_transition_to
step-terminal ctx (transition s reason now later) h = ground arith
step-terminal ctx (stall reason now later) h = ground arith
step-terminal ctx (recover now later) h = ground arith
step-terminal ctx (repair now later) h = ground arith
step-terminal ctx (spend tokens) h = refl

-- Whether a call repairs the job.
abbrev pub repaired : JobContext → JobCall → ℕ
repaired ctx (recover now later) = elim (attempt_recovery now later ctx).0 [
  | Job.done ↦ 1
  | Job.refused e ↦ 0
]
repaired ctx (repair now later) = elim (repair_stuck_job now later ctx).0 [
  | Job.success m ↦ 1
  | _ ↦ 0
]
repaired ctx _ = 0

-- How many of the calls repair it.
abbrev pub repairs : JobContext → List JobCall → ℕ
repairs ctx [] = 0
repairs ctx (c ∷ cs) = repaired ctx c + repairs (step ctx c) cs

step-attempts :
    (ctx : JobContext) (call : JobCall)
    → IsConsistent ctx
    → repaired ctx call + ctx.repair_attempts ≡ (step ctx call).repair_attempts
unfolding step mark_stuck attempt_recovery repair_stuck_job add_tokens transition_to is_stuck
    can_transition_to stamp
step-attempts ctx (transition s reason now later) v = ground arith
step-attempts ctx (stall reason now later) v = ground arith
step-attempts ctx (recover now later) v = ground (arith, v.attempts_le, v.max_fits)
step-attempts ctx (repair now later) v = ground (arith, v.attempts_le, v.max_fits)
step-attempts ctx (spend tokens) v = ground arith

-- Accepted, failed and cancelled jobs stay what they are: whatever is called on them, no field but the
-- count of tokens changes.
pub run-terminal :
    (ctx : JobContext) (calls : List JobCall)
    → is_terminal ctx.state ≡ true
    → run ctx calls ≡ record ctx { total_tokens_used = (run ctx calls).total_tokens_used }
unfolding run
run-terminal ctx [] h = refl
run-terminal ctx (c ∷ cs) h =
    let now = step-terminal ctx c h in
    let later = run-terminal (step ctx c) cs (rw (ap (λ j. j.state) now) h) in
    later
    ∙ ap {A = JobContext}
        (λ j. record j { total_tokens_used = (run (step ctx c) cs).total_tokens_used }) now

run-attempts :
    (ctx : JobContext) (calls : List JobCall)
    → IsConsistent ctx
    → repairs ctx calls + ctx.repair_attempts ≡ (run ctx calls).repair_attempts
unfolding run
run-attempts ctx [] v = omega arith
run-attempts ctx (c ∷ cs) v =
    let next =
      run_keeps IsConsistent transition_to-IsConsistent count_repair-IsConsistent
        add_tokens-IsConsistent ctx (c ∷ []) v in
    omega (arith, step-attempts ctx c v, run-attempts (step ctx c) cs next)

HasDefaultMax : JobContext → Type 0
HasDefaultMax ctx = ctx.max_repair_attempts ≡ 3

transition_to-HasDefaultMax :
    (s : JobState) (reason : Option String) (now later : ℕ) (ctx : JobContext)
    → HasDefaultMax ctx
    → HasDefaultMax (transition_to s reason now later ctx).1
unfolding transition_to HasDefaultMax stamp
transition_to-HasDefaultMax s reason now later ctx h = ground arith

run-HasDefaultMax :
    (ctx : JobContext) (calls : List JobCall)
    → ctx.max_repair_attempts ≡ 3
    → (run ctx calls).max_repair_attempts ≡ 3
unfolding add_tokens HasDefaultMax
run-HasDefaultMax ctx calls h =
    run_keeps HasDefaultMax transition_to-HasDefaultMax (λ ctx r p. p) (λ tokens ctx p. p) ctx calls
      h

-- A new job is repaired at most three times, whatever is called on it and in whatever order.
pub repairs_bounded :
    (job_id title description : String) (now : ℕ) (calls : List JobCall)
    → repairs (new job_id title description now) calls ≤ 3
unfolding new
repairs_bounded job_id title description now calls =
    let start = new job_id title description now in
    let v = run-IsConsistent job_id title description now calls in
    let most = run-HasDefaultMax start calls refl in
    omega (
      arith,
      run-attempts start calls (new-IsConsistent job_id title description now),
      v.attempts_le,
      most,
    )

-- `repair_stuck_job` repairs a job exactly when it is stuck and has repair attempts left; then the job
-- is in progress with one more attempt counted (its maximum fits u32), and else it is unchanged.
repair_stuck_job_iff :
    (ctx : JobContext) (now later : ℕ)
    → ctx.max_repair_attempts < 2 ^ 32
    → ((repaired ctx (repair now later) ≡ 1) ↔ IsRepairable ctx)
      × (IsRepairable ctx
          → ((repair_stuck_job now later ctx).1.state ≡ in_progress)
            × ((repair_stuck_job now later ctx).1.repair_attempts ≡ ctx.repair_attempts + 1))
      × ((¬ IsRepairable ctx) → (repair_stuck_job now later ctx).1 ≡ ctx)
unfolding repair_stuck_job attempt_recovery transition_to is_stuck can_transition_to stamp
repair_stuck_job_iff ctx now later fits = (
  (λ h. ground arith, λ h. ground arith),
  λ h. ground arith,
  λ h. elim (Bool-cases (is_stuck ctx.state)) [
    | inl in_state ↦ elim (Bool-cases (leb ctx.max_repair_attempts ctx.repair_attempts)) [
      | inl spent ↦ ground arith
      | inr left ↦ absurd (h (is_stuck_only ctx.state in_state, ground arith))
    ]
    | inr other ↦ ground arith
  ],
)

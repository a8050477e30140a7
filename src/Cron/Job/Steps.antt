-- ===== src/Cron/Job/Steps.antt =====
-- Induction over the calls on a job of crates/frankclaw-cron/src/job.rs.
use frankclaw.Prelude.{
  ℕ, ◌<◌, ◌≡◌, String, true, Option, some, List, [], ◌∷◌, arith, add_u32, leb, Bool-cases, inl, inr,
}
use frankclaw.Cron.Job.{
  JobState, in_progress, stuck, JobContext, JobCall, transition, stall, recover, repair, spend,
  transition_to, mark_stuck, attempt_recovery, repair_stuck_job, add_tokens, step, run, is_stuck,
}

-- The job after the count of a repair attempt.
abbrev pub count_repair : JobContext → JobContext
count_repair ctx = record ctx { repair_attempts = add_u32 ctx.repair_attempts 1 }

-- A job that is stuck and has repair attempts left.
abbrev pub IsRepairable : JobContext → Type 0
IsRepairable ctx = (ctx.state ≡ stuck) × (ctx.repair_attempts < ctx.max_repair_attempts)

pub is_stuck_only : (s : JobState) → is_stuck s ≡ true → s ≡ stuck
unfolding is_stuck
is_stuck_only s h = ground arith

-- What transitions, counted repair attempts and token counts keep, all calls keep.
module _ (P : JobContext → Type 0)
    (by_transition : (s : JobState) (reason : Option String) (now later : ℕ) (ctx : JobContext)
      → P ctx
      → P (transition_to s reason now later ctx).1)
    (by_repair : (ctx : JobContext) → IsRepairable ctx → P ctx → P (count_repair ctx))
    (by_tokens : (tokens : ℕ) (ctx : JobContext) → P ctx → P (add_tokens tokens ctx)) where
  recovery_keeps : (now later : ℕ) (ctx : JobContext) → P ctx → P (attempt_recovery now later ctx).1
  unfolding attempt_recovery
  recovery_keeps now later ctx p = elim (Bool-cases (is_stuck ctx.state)) [
    | inl in_state ↦ elim (Bool-cases (leb ctx.max_repair_attempts ctx.repair_attempts)) [
      | inl spent ↦ rw (in_state, spent) p
      | inr left ↦
          let next =
            by_transition in_progress _ now later (count_repair ctx)
              (by_repair ctx (is_stuck_only ctx.state in_state, ground arith) p) in
          rw (in_state, left) next
    ]
    | inr other ↦ rw other p
  ]

  repair_keeps : (now later : ℕ) (ctx : JobContext) → P ctx → P (repair_stuck_job now later ctx).1
  unfolding repair_stuck_job
  repair_keeps now later ctx p = elim (Bool-cases (is_stuck ctx.state)) [
    | inl in_state ↦ elim (Bool-cases (leb ctx.max_repair_attempts ctx.repair_attempts)) [
      | inl spent ↦ rw (in_state, spent) p
      | inr left ↦ rw (in_state, left) (recovery_keeps now later ctx p)
    ]
    | inr other ↦ rw other p
  ]

  pub step_keeps : (ctx : JobContext) (call : JobCall) → P ctx → P (step ctx call)
  unfolding step mark_stuck
  step_keeps ctx (transition s reason now later) p = by_transition s reason now later ctx p
  step_keeps ctx (stall reason now later) p = by_transition stuck (some reason) now later ctx p
  step_keeps ctx (recover now later) p = recovery_keeps now later ctx p
  step_keeps ctx (repair now later) p = repair_keeps now later ctx p
  step_keeps ctx (spend tokens) p = by_tokens tokens ctx p

  pub run_keeps : (ctx : JobContext) (calls : List JobCall) → P ctx → P (run ctx calls)
  unfolding run
  run_keeps ctx [] p = p
  run_keeps ctx (c ∷ cs) p = run_keeps (step ctx c) cs (step_keeps ctx c p)

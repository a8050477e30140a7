-- ===== src/Cron/Job/Tests.antt =====
-- A job that stalls until its repair attempts are used up.
use frankclaw.Prelude.{◌≤◌, ◌≡◌, refl, none, List, [], ◌∷◌}
use frankclaw.Cron.Job.{
  is_terminal, in_progress, stuck, cancelled, JobContext, JobCall, transition, stall, repair, spend,
  transition_to, mark_stuck, attempt_recovery, repair_stuck_job, can_transition_to, add_tokens, new,
  step, run,
}
use frankclaw.Cron.Job.History.{HasHistory, run-HasHistory}
use frankclaw.Cron.Job.Lifecycle.{
  IsConsistent, run-IsConsistent, run-terminal, repairs, repairs_bounded,
}

abbrev job : JobContext
job = new "job" "Build" "" 0

abbrev calls : List JobCall
calls =
    transition in_progress none 1 1
    ∷ stall "no progress" 2 2
    ∷ repair 3 3
    ∷ spend 100
    ∷ stall "again" 4 4
    ∷ repair 5 5
    ∷ stall "again" 6 6
    ∷ repair 7 7
    ∷ stall "again" 8 8
    ∷ repair 9 9
    ∷ []

calls_end :
    ((run job calls).state ≡ stuck)
    × ((run job calls).repair_attempts ≡ 3)
    × (repairs job calls ≡ 3)
unfolding run step transition_to can_transition_to mark_stuck attempt_recovery repair_stuck_job new
    add_tokens
calls_end = (refl, refl, refl)

abbrev dropped : JobContext
dropped = (transition_to cancelled none 1 2 job).1

run-HasHistory_example : HasHistory (run (new "job" "Build" "" 0) calls)
run-HasHistory_example = run-HasHistory "job" "Build" "" 0 calls

run-IsConsistent_example : IsConsistent (run (new "job" "Build" "" 0) calls)
run-IsConsistent_example = run-IsConsistent "job" "Build" "" 0 calls

repairs_bounded_example : repairs (new "job" "Build" "" 0) calls ≤ 3
repairs_bounded_example = repairs_bounded "job" "Build" "" 0 calls

run-terminal_example :
    run dropped calls ≡ record dropped { total_tokens_used = (run dropped calls).total_tokens_used }
unfolding transition_to can_transition_to new is_terminal
run-terminal_example = run-terminal dropped calls refl

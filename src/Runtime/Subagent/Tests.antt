-- ===== src/Runtime/Subagent/Tests.antt =====
-- A parent that may have one child at a time.
use frankclaw.Prelude.{ℕ, ◌≤◌, refl, none, some, List, [], ◌∷◌, lookup, insert, modify}
use frankclaw.Runtime.Subagent.{
  SpawnRequest, completed, is_active, CompletionNotice, count, is_active_child, with_limits,
  register_spawn, complete, listen_completion,
}
use frankclaw.Runtime.Subagent.Calls.{Call, spawn, finish, watch, step, run, AreDue}
use frankclaw.Runtime.Subagent.Limits.{count-run-le}

abbrev ask : SpawnRequest
ask = record {
  task = "look it up";
  label = none;
  agent_id = "helper";
  model_override = none;
  timeout_secs = none;
  parent_session_key = "main";
  parent_depth = 0;
}

abbrev done : CompletionNotice
done = record { run_id = "r1"; state = completed; result_text = some "found"; error = none }

abbrev calls : List (Call ℕ)
calls =
    spawn ask "r1" 10 ∷ spawn ask "r2" 11 ∷ watch "r1" 7 ∷ finish done 20 ∷ spawn ask "r3" 30 ∷ []

calls-AreDue : AreDue (with_limits 3 1) calls
unfolding with_limits step register_spawn complete is_active lookup count insert listen_completion
    modify
calls-AreDue = (refl, (refl, (tt, (refl, (refl, tt)))))

count-run-le_example : count (is_active_child "main") (run (with_limits 3 1) calls).runs ≤ 1
count-run-le_example = count-run-le "main" 3 1 calls calls-AreDue

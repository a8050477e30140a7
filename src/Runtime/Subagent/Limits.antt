-- ===== src/Runtime/Subagent/Limits.antt =====
-- The limits that crates/frankclaw-runtime/src/subagent.rs puts on runs.
use frankclaw.Prelude.{
  ℕ, ◌+◌, ◌≤◌, ◌≡◌, ◌∙◌, refl, String, string_eq, Bool, true, false, none, some, Bool-cases,
  Option-cases, inl, inr, List, [], ◌∷◌, ltb, leb, ◌==◌, add_u32, Map, lookup, insert, modify,
  retain, if◌then◌else◌, arith,
}
use frankclaw.Runtime.Subagent.Calls.{
  Call, spawn, start, finish, watch, clean, step, run, IsDue, AreDue,
}
use frankclaw.Runtime.Subagent.{
  SpawnRequest, is_active, RunRecord, CompletionNotice, SubagentRegistry, count, is_active_child,
  new_record, is_recent, with_limits, register_spawn, mark_running, notify, complete,
  listen_completion, cleanup_old_runs,
}

count-insert_fresh :
    (p : RunRecord → Bool) (k : String) (r : RunRecord) (m : Map String RunRecord)
    → lookup k m ≡ none
    → count p (insert k r m) ≤ count p m + 1
unfolding count insert lookup
count-insert_fresh p k r [] h = ground arith
count-insert_fresh p k r ((j, s) ∷ m) h = ground (arith, count-insert_fresh p k r m)

count-insert_other :
    (p : RunRecord → Bool) (k : String) (r : RunRecord) (m : Map String RunRecord)
    → lookup k m ≡ none
    → p r ≡ false
    → count p (insert k r m) ≤ count p m
unfolding count insert lookup
count-insert_other p k r [] h f = ground arith
count-insert_other p k r ((j, s) ∷ m) h f = ground (arith, count-insert_other p k r m)

count-modify-le :
    (p : RunRecord → Bool) (k : String) (f : RunRecord → RunRecord) (m : Map String RunRecord)
    → ((r : RunRecord) → lookup k m ≡ some r → p (f r) ≡ true → p r ≡ true)
    → count p (modify k f m) ≤ count p m
unfolding count modify lookup
count-modify-le p k f [] h = omega arith
count-modify-le p k f ((j, s) ∷ m) h = elim (Bool-cases (j == k)) [
  | inl same ↦
      let here : p (f s) ≡ true → p s ≡ true = h s (rw same refl) in rw same (ground (arith, here))
  | inr other ↦
      let later = count-modify-le p k f m (λ r q. h r (rw other q)) in
      rw other (ground (arith, later))
]

count-retain-le :
    (p : RunRecord → Bool) (keep : String → RunRecord → Bool) (m : Map String RunRecord)
    → count p (retain keep m) ≤ count p m
unfolding count retain
count-retain-le p keep [] = omega arith
count-retain-le p keep ((j, s) ∷ m) = ground (arith, count-retain-le p keep m)

module _ {Sender : Type 0} where
  runs-notify :
      (notice : CompletionNotice) (reg : SubagentRegistry Sender)
      → (notify notice reg).runs ≡ reg.runs
  unfolding notify
  runs-notify notice reg = ground arith

  max_children-notify :
      (notice : CompletionNotice) (reg : SubagentRegistry Sender)
      → (notify notice reg).max_children ≡ reg.max_children
  unfolding notify
  max_children-notify notice reg = ground arith

  spawn-le :
      (parent : String) (request : SpawnRequest) (run_id : String) (now : ℕ)
      (reg : SubagentRegistry Sender)
      → lookup run_id reg.runs ≡ none
      → count (is_active_child parent) reg.runs ≤ reg.max_children
      → count (is_active_child parent) (register_spawn request run_id now reg).1.runs
        ≤ reg.max_children
  unfolding register_spawn new_record
  spawn-le parent request run_id now reg fresh h =
      let entry = new_record request run_id now in
      let p = is_active_child parent in
      elim (Bool-cases (ltb reg.max_depth (add_u32 request.parent_depth 1))) [
        | inl deep ↦ rw deep h
        | inr shallow ↦
            elim (Bool-cases (
              leb reg.max_children (count (is_active_child request.parent_session_key) reg.runs))) [
                | inl full ↦ rw (shallow, full) h
                | inr room ↦
                    rw (shallow, room)
                      (elim (Bool-cases (request.parent_session_key == parent)) [
                        | inl same ↦
                            let key =
                              (string_eq.same_iff request.parent_session_key parent).0 same in
                            let fewer = rw key at room in
                            ground (arith, count-insert_fresh p run_id entry reg.runs fresh, fewer)
                        | inr other ↦ ground (
                          arith,
                          count-insert_other p run_id entry reg.runs fresh (rw other refl),
                          h,
                        )
                      ])
              ]
      ]

  start-le :
      (parent : String) (run_id : String) (now : ℕ) (reg : SubagentRegistry Sender)
      → ((r : RunRecord) → lookup run_id reg.runs ≡ some r → is_active r.state ≡ true)
      → count (is_active_child parent) (mark_running run_id now reg).1.runs
        ≤ count (is_active_child parent) reg.runs
  unfolding mark_running
  start-le parent run_id now reg due = elim (Option-cases (lookup run_id reg.runs)) [
    | inl absent ↦ rw (absent, mark_running) (omega arith)
    | inr (held, found) ↦
        rw (found, mark_running)
          (count-modify-le (is_active_child parent) run_id _ reg.runs
            (λ r q. ground (arith, due r q)))
  ]

  finish-le :
      (parent : String) (notice : CompletionNotice) (now : ℕ) (reg : SubagentRegistry Sender)
      → is_active notice.state ≡ false
      → count (is_active_child parent) (complete notice now reg).1.runs
        ≤ count (is_active_child parent) reg.runs
  unfolding complete
  finish-le parent notice now reg final = elim (Option-cases (lookup notice.run_id reg.runs)) [
    | inl absent ↦ rw (absent, complete) (omega arith)
    | inr (held, found) ↦
        rw (found, complete)
          (rw (runs-notify notice _) (
            count-modify-le (is_active_child parent) notice.run_id _ reg.runs
              (λ r q. ground (arith, final))))
  ]

  max_children-step :
      (reg : SubagentRegistry Sender) (call : Call Sender)
      → (step reg call).max_children ≡ reg.max_children
  unfolding step register_spawn mark_running complete listen_completion cleanup_old_runs
  max_children-step reg (spawn request run_id now) = ground arith
  max_children-step reg (start run_id now) = ground arith
  max_children-step reg (finish notice now) = elim (Option-cases (lookup notice.run_id reg.runs)) [
    | inl absent ↦ rw (absent, step, complete) refl
    | inr (held, found) ↦ rw (found, step, complete) (max_children-notify notice _)
  ]
  max_children-step reg (watch run_id tx) = refl
  max_children-step reg (clean max_age now) = refl

  step-le :
      (parent : String) (reg : SubagentRegistry Sender) (call : Call Sender)
      → IsDue reg call
      → count (is_active_child parent) reg.runs ≤ reg.max_children
      → count (is_active_child parent) (step reg call).runs ≤ reg.max_children
  unfolding step listen_completion cleanup_old_runs
  step-le parent reg (spawn request run_id now) due h = spawn-le parent request run_id now reg due h
  step-le parent reg (start run_id now) due h = omega (arith, start-le parent run_id now reg due, h)
  step-le parent reg (finish notice now) due h =
      omega (arith, finish-le parent notice now reg due, h)
  step-le parent reg (watch run_id tx) due h = h
  step-le parent reg (clean max_age now) due h = omega (
    arith,
    count-retain-le (is_active_child parent)
        (λ k r. if is_active r.state then true else is_recent max_age now r.ended_at) reg.runs,
    h,
  )

  count-run :
      (parent : String) (limit : ℕ) (reg : SubagentRegistry Sender) (calls : List (Call Sender))
      → AreDue reg calls
      → reg.max_children ≡ limit
      → count (is_active_child parent) reg.runs ≤ limit
      → count (is_active_child parent) (run reg calls).runs ≤ limit
  unfolding run
  count-run parent limit reg [] due same h = h
  count-run parent limit reg (call ∷ calls) due same h =
      count-run parent limit (step reg call) calls due.1 (max_children-step reg call ∙ same)
        (omega (arith, step-le parent reg call due.0 (omega (arith, same, h)), same))

  -- However spawns, starts, completions, listeners and clean-ups are interleaved on a new registry, no
  -- parent session has more pending and running children than the configured maximum, if each new run has
  -- an unused identifier, only pending or running runs are started, and the notices carry final states.
  pub count-run-le :
      (parent : String) (max_depth max_children : ℕ) (calls : List (Call Sender))
      → AreDue (with_limits max_depth max_children) calls
      → count (is_active_child parent) (run (with_limits max_depth max_children) calls).runs
        ≤ max_children
  unfolding with_limits count
  count-run-le parent max_depth max_children calls due =
      count-run parent max_children (with_limits max_depth max_children) calls due refl
        (omega arith)

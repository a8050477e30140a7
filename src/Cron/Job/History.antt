-- ===== src/Cron/Job/History.antt =====
-- The history that a job of crates/frankclaw-cron/src/job.rs keeps.
use frankclaw.Prelude.{
  ℕ, zero, suc, ◌+◌, ◌-◌, ◌≤◌, dec_le, ◌≡◌, refl, sym, ap, ◌∙◌, String, true, false, Option, List,
  [], ◌∷◌, ◌++◌, arith, Bool-cases, inl, inr, length, length-append, length-drop, drop, ltb,
}
use frankclaw.Cron.Job.{
  JobState, pending, StateTransition, JobContext, JobCall, max_transitions, can_transition_to,
  cap_history, stamp, transition_to, add_tokens, new, run,
}
use frankclaw.Cron.Job.Steps.{run_keeps}

-- Allowed transitions that lead from one state to another.
abbrev pub Leads : JobState → List StateTransition → JobState → Type 0
Leads s [] t = s ≡ t
Leads s (x ∷ xs) t = (x.source ≡ s) × (can_transition_to s x.target ≡ true) × Leads x.target xs t

Leads-append :
    (xs : List StateTransition) (x : StateTransition) (s : JobState)
    → Leads s xs x.source
    → can_transition_to x.source x.target ≡ true
    → Leads s (xs ++ x ∷ []) x.target
Leads-append [] x s h c = (sym h, rw h c, refl)
Leads-append (y ∷ ys) x s (a, b, l) c = (a, b, Leads-append ys x y.target l c)

-- The last entries of a log.
abbrev pub last_entries : ℕ → List StateTransition → List StateTransition
last_entries n log = drop (length log - n) log

drop-append :
    (k : ℕ) (xs ys : List StateTransition) → k ≤ length xs → drop k (xs ++ ys) ≡ drop k xs ++ ys
drop-append zero xs ys h = refl
drop-append (suc k) [] ys h = absurd (omega arith)
drop-append (suc k) (x ∷ xs) ys h = drop-append k xs ys (omega arith)

drop_one_more : (k : ℕ) (xs : List StateTransition) → drop 1 (drop k xs) ≡ drop (suc k) xs
drop_one_more zero xs = refl
drop_one_more (suc k) [] = refl
drop_one_more (suc k) (x ∷ xs) = drop_one_more k xs

-- The capped list is its last part.
cap_history-eq :
    (ts : List StateTransition) → cap_history ts ≡ drop (length ts - max_transitions) ts
unfolding cap_history
cap_history-eq ts = elim (Bool-cases (ltb max_transitions (length ts))) [
  | inl long ↦ rw long
  | inr short ↦
      let none_over : length ts - max_transitions ≡ 0 = ground arith in rw (short, none_over)
]

cap_history-last_entries :
    (log : List StateTransition) (x : StateTransition)
    → cap_history (last_entries max_transitions log ++ x ∷ [])
      ≡ last_entries max_transitions (log ++ x ∷ [])
cap_history-last_entries log x =
    let over = length log - max_transitions in
    let pushed = drop over log ++ x ∷ [] in
    let size : length pushed ≡ length log - over + 1 =
      rw (length-append (drop over log) (x ∷ []), length-drop over log) in
    let grown : length (log ++ x ∷ []) ≡ length log + 1 = rw (length-append log (x ∷ [])) in
    cap_history-eq pushed ∙ elim (dec_le max_transitions (length log)) [
      | yes full ↦
          let one : length pushed - max_transitions ≡ 1 = omega arith in
          let all : length (log ++ x ∷ []) - max_transitions ≡ suc over = omega arith in
          ap (λ n. drop n pushed) one
          ∙ ap (drop 1) (sym (drop-append over log (x ∷ []) (omega arith)))
          ∙ drop_one_more over (log ++ x ∷ [])
          ∙ ap (λ n. drop n (log ++ x ∷ [])) (sym all)
      | no room ↦
          let none : over ≡ 0 = omega arith in
          let fits : length pushed - max_transitions ≡ 0 = omega arith in
          let all : length (log ++ x ∷ []) - max_transitions ≡ 0 = omega arith in
          ap (λ n. drop n pushed) fits
          ∙ ap (λ n. drop n log ++ x ∷ []) none
          ∙ ap (λ n. drop n (log ++ x ∷ [])) (sym all)
    ]

-- The job has gone through a log of allowed transitions from `pending`, and keeps its last part.
pub record HasHistory (ctx : JobContext) : Type 0 where
  pub log : List StateTransition
  pub leads : Leads pending log ctx.state
  pub kept : ctx.transitions ≡ last_entries max_transitions log

stamp_kept :
    (s : JobState) (now : ℕ) (ctx : JobContext)
    → ((stamp s now ctx).state ≡ ctx.state) × ((stamp s now ctx).transitions ≡ ctx.transitions)
unfolding stamp
stamp_kept s now ctx = ground arith

-- The entry that a transition records.
abbrev entry : JobState → Option String → ℕ → JobContext → StateTransition
entry target reason now ctx = record {
  source = ctx.state;
  target = target;
  timestamp = now;
  reason = reason;
}

transition_to-allowed :
    (s : JobState) (reason : Option String) (now later : ℕ) (ctx : JobContext)
    → can_transition_to ctx.state s ≡ true
    → ((transition_to s reason now later ctx).1.state ≡ s)
      × ((transition_to s reason now later ctx).1.transitions
          ≡ cap_history (ctx.transitions ++ entry s reason now ctx ∷ []))
unfolding transition_to
transition_to-allowed s reason now later ctx c = rw c (stamp_kept s later _)

transition_to-refused :
    (s : JobState) (reason : Option String) (now later : ℕ) (ctx : JobContext)
    → can_transition_to ctx.state s ≡ false
    → (transition_to s reason now later ctx).1 ≡ ctx
unfolding transition_to
transition_to-refused s reason now later ctx c = rw c

transition_to-HasHistory :
    (s : JobState) (reason : Option String) (now later : ℕ) (ctx : JobContext)
    → HasHistory ctx
    → HasHistory (transition_to s reason now later ctx).1
transition_to-HasHistory s reason now later ctx h =
    elim (Bool-cases (can_transition_to ctx.state s)) [
      | inl allowed ↦
          let (state, transitions) = transition_to-allowed s reason now later ctx allowed in
          let x = entry s reason now ctx in
          record {
            log = h.log ++ x ∷ [];
            leads = rw state (Leads-append h.log x pending h.leads allowed);
            kept = transitions ∙ rw h.kept (cap_history-last_entries h.log x);
          }
      | inr refused ↦ rw (transition_to-refused s reason now later ctx refused) h
    ]

add_tokens-HasHistory :
    (tokens : ℕ) (ctx : JobContext) → HasHistory ctx → HasHistory (add_tokens tokens ctx)
unfolding add_tokens
add_tokens-HasHistory tokens ctx h = record { log = h.log; leads = h.leads; kept = h.kept }

new-HasHistory :
    (job_id title description : String) (now : ℕ) → HasHistory (new job_id title description now)
unfolding new
new-HasHistory job_id title description now = record { log = []; leads = refl; kept = refl }

-- After any calls on a new job there is a log of allowed transitions from `pending` to its state
-- such that the job's history is the last 200 entries of the log.
pub run-HasHistory :
    (job_id title description : String) (now : ℕ) (calls : List JobCall)
    → HasHistory (run (new job_id title description now) calls)
run-HasHistory job_id title description now calls =
    run_keeps HasHistory transition_to-HasHistory
      (λ ctx r h. record { log = h.log; leads = h.leads; kept = h.kept }) add_tokens-HasHistory _
      calls (new-HasHistory job_id title description now)

-- ===== src/Cron/Service.antt =====
-- crates/frankclaw-cron/src/service.rs with the types of lib.rs beside it. A tick of the interval, the end of
-- a run and each method are one step under the lock with the save that follows it; `sync_jobs` reads the
-- jobs in a step of its own. The parser of a schedule and its next instant come
-- from the cron package, and `is_whitespace` from std; the clock and what the runner of a job does are
-- arguments. The file is what was last saved; a save that fails, which the code ignores, is left out.
pub mod Calls
pub mod Ticks
pub mod Slots
pub mod Syncs
pub mod Flights
mod Tests
use Prim.Native.String.{◌++◌}
use frankclaw.Prelude.{
  ℕ, ◌+◌, ◌-◌, String, string_eq, Bool, true, false, Option, none, some, List, [], ◌∷◌, not, ltb,
  leb, ◌==◌, from_secs, chars, any, Map, values, lookup, insert, remove, modify, if◌then◌else◌,
}
use frankclaw.Core.Error.{
  FrankClawError, config_validation, agent_runtime, Result, ok, err, to_string,
}

pub data RunStatus : Type 0 where
  running success failed skipped : RunStatus

pub record RunLog : Type 0 where
  pub job_id : String
  pub started_at : ℕ
  pub finished_at : Option ℕ
  pub status : RunStatus
  pub error : Option String

pub record CronJob : Type 0 where
  pub id : String
  pub schedule : String
  pub agent_id : String
  pub session_key : String
  pub prompt : String
  pub enabled : Bool
  pub created_at : ℕ
  pub last_run : Option RunLog

-- `file` is the content at `path`, where there is a path.
pub record CronService : Type 0 where
  pub jobs : Map String CronJob
  pub file : Option (Map String CronJob)

-- What `parse::<Schedule>()` gives, an error as its text.
pub data ParsedSchedule (Schedule : Type 0) : Type 0 where
  valid : Schedule → ParsedSchedule Schedule
  invalid : String → ParsedSchedule Schedule

-- What `timeout(JOB_TIMEOUT, runner(job))` gives.
pub data Outcome : Type 0 where
  returned : Result {0} Unit → Outcome
  timed_out : Outcome

unfoldable pub new : CronService
new = record { jobs = []; file = none }

-- `open` of a path at which `load_jobs` read `loaded`.
unfoldable pub open_with : Map String CronJob → CronService
open_with loaded = record { jobs = loaded; file = some loaded }

-- `save_jobs`.
unfoldable pub save_jobs : CronService → CronService
save_jobs c = elim c.file [ none ↦ c | some old ↦ record c { file = some c.jobs } ]

-- `last_run.is_some_and(|run| run.status == RunStatus::Running)`.
unfoldable pub is_running : CronJob → Bool
is_running job = elim job.last_run [
  | none ↦ false
  | some log ↦ elim log.status [ running ↦ true | _ ↦ false ]
]

-- `already_started`.
already_started : ℕ → CronJob → Bool
already_started next_run job = elim job.last_run [
  | none ↦ false
  | some log ↦ leb next_run log.started_at
]

-- The job as a tick leaves it when it starts it.
unfoldable pub start_run : ℕ → CronJob → CronJob
start_run now job = record job {
  last_run = some (record {
    job_id = job.id;
    started_at = now;
    finished_at = none;
    status = running;
    error = none;
  });
}

module _ {Schedule : Type 0} (parse : String → ParsedSchedule Schedule)
    (after : Schedule → ℕ → Option ℕ) where
  -- `schedule.after(&window_start).next()` of the parsed schedule.
  unfoldable pub next_slot : ℕ → CronJob → Option ℕ
  next_slot now job = elim (parse job.schedule) [
    | invalid e ↦ none
    | valid schedule ↦ after schedule (now - from_secs 60)
  ]

  -- The guards of the loop over the jobs.
  unfoldable pub is_due : ℕ → CronJob → Bool
  unfolding already_started
  is_due now job = if not job.enabled then false else elim (next_slot now job) [
    | none ↦ false
    | some next_run ↦
        if ltb now next_run
        then false
        else if is_running job
        then false
        else not (already_started next_run job)
  ]

  -- The loop over the jobs: the copies that are run, and the jobs as it leaves them.
  pub visit_jobs : ℕ → Map String CronJob → List CronJob × Map String CronJob
  visit_jobs now [] = ([], [])
  visit_jobs now ((k, job) ∷ m) =
      let rest = visit_jobs now m in
      if is_due now job
      then (start_run now job ∷ rest.0, (k, start_run now job) ∷ rest.1)
      else (rest.0, (k, job) ∷ rest.1)

  -- A tick at `now`: the jobs that it starts, and the service after it.
  unfoldable pub tick : ℕ → CronService → List CronJob × CronService
  unfolding visit_jobs
  tick now c =
      let visited = visit_jobs now c.jobs in (visited.0, save_jobs (record c { jobs = visited.1 }))

-- The text of the error that a run which timed out ends with; the limit is 600 s.
timeout_error : CronJob → FrankClawError
timeout_error job = agent_runtime ("cron job '" ++ job.id ++ "' timed out after 600s")

result_of : CronJob → Outcome → Result {0} Unit
unfolding timeout_error
result_of job (returned result) = result
result_of job timed_out = err (timeout_error job)

status_of : Result {0} Unit → RunStatus
status_of (ok u) = success
status_of (err e) = failed

error_of : Result {0} Unit → Option String
error_of (ok u) = none
error_of (err e) = some (to_string e)

-- The log of a finished run.
unfoldable pub finished_log : CronJob → ℕ → ℕ → Outcome → RunLog
unfolding result_of status_of error_of
finished_log job started_at finished_at outcome = record {
  job_id = job.id;
  started_at = started_at;
  finished_at = some finished_at;
  status = status_of (result_of job outcome);
  error = error_of (result_of job outcome);
}

-- The end of the run of the copy `job`.
unfoldable pub finish : CronJob → ℕ → ℕ → Outcome → CronService → CronService
finish job started_at finished_at outcome c = save_jobs (record c {
  jobs =
      modify job.id
        (λ stored. record stored {
          last_run = some (finished_log job started_at finished_at outcome);
        })
        c.jobs;
})

unfoldable pub remove_id : String → CronService → CronService
remove_id id c = save_jobs (record c { jobs = remove id c.jobs })

-- `CronManager::remove_job`.
unfoldable pub remove_job : String → CronService → Bool × CronService
remove_job id c = (any (λ job. job.id == id) (values c.jobs), remove_id id c)

unfoldable pub list : CronService → List CronJob
list c = values c.jobs

-- `text.trim().is_empty()`: all its characters are white space.
is_blank : (ℕ → Bool) → String → Bool
is_blank is_whitespace text = not (any (λ ch. not (is_whitespace ch)) (chars text))

schedule_error : CronJob → String → FrankClawError
schedule_error job e = config_validation ("invalid cron schedule '" ++ job.schedule ++ "': " ++ e)

module _ {Schedule : Type 0} (parse : String → ParsedSchedule Schedule) where
  unfoldable pub add : (ℕ → Bool) → CronJob → CronService → Result {0} Unit × CronService
  unfolding schedule_error is_blank
  add is_whitespace job c =
      let added = save_jobs (record c { jobs = insert job.id job c.jobs }) in
      elim (parse job.schedule) [
        | invalid e ↦ (err (schedule_error job e), c)
        | valid schedule ↦
            if is_blank is_whitespace job.prompt
            then (err (config_validation "cron job prompt must not be empty"), c)
            else if is_blank is_whitespace job.id
            then (err (config_validation "cron job id must not be empty"), c)
            else (ok tt, added)
      ]

  -- `job.last_run = Some(previous)`, where there is a previous run.
  unfoldable pub with_previous : Map String CronJob → CronJob → CronJob
  with_previous existing job = elim (lookup job.id existing) [
    | none ↦ job
    | some stored ↦ elim stored.last_run [
      | none ↦ job
      | some log ↦ record job { last_run = some log }
    ]
  ]

  -- The loop of `sync_jobs`.
  pub sync_from :
      Map String CronJob → List CronJob → Map String CronJob → Result (Map String CronJob)
  unfolding schedule_error
  sync_from existing [] next = ok next
  sync_from existing (job ∷ jobs) next =
      let kept = with_previous existing job in
      elim (parse job.schedule) [
        | invalid e ↦ err (schedule_error job e)
        | valid schedule ↦ sync_from existing jobs (insert kept.id kept next)
      ]

  -- `existing` is the map of jobs as the loop has read it. The read lock is released before the write
  -- lock is taken, so that other steps may stand between the two: this step is the write and its save.
  unfoldable pub sync_jobs :
      Map String CronJob → List CronJob → CronService → Result {0} Unit × CronService
  unfolding sync_from
  sync_jobs existing jobs c = elim (sync_from existing jobs []) [
    | err e ↦ (err e, c)
    | ok next ↦ (ok tt, save_jobs (record c { jobs = next }))
  ]

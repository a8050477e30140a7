-- ===== src/Cron/Service/Tests.antt =====
-- A job that is due each minute.
use frankclaw.Prelude.{
  ℕ, ◌+◌, ◌*◌, ◌/◌, ◌≤◌, ◌≡◌, refl, String, string_eq, nat_eqb, Bool, true, false, Option, none,
  some, List, [], ◌∷◌, map, Map, lookup, insert, Distinct, Everywhere-empty, Everywhere-insert,
  from_secs, arith,
}
use frankclaw.Core.Error.{ok}
use frankclaw.Cron.Service.{
  CronJob, CronService, ParsedSchedule, valid, returned, timed_out, new, open_with, is_running,
  start_run, next_slot, is_due, already_started, visit_jobs, tick, save_jobs, finish, add, is_blank,
  sync_jobs, sync_from, with_previous,
}
use frankclaw.Cron.Service.Calls.{
  Call, ticks, ends, adds, syncs, started, step, flights, flights_after, runs_at, AreOrderly,
}
use frankclaw.Cron.Service.Flights.{flights_after-le-1}
use frankclaw.Cron.Service.Slots.{slot_runs_once, restart_disables}

-- A schedule is its period.
abbrev parse_minutes : String → ParsedSchedule ℕ
parse_minutes text = valid (from_secs 60)

abbrev after_period : ℕ → ℕ → Option ℕ
after_period period t = some ((t / period + 1) * period)

abbrev is_space : ℕ → Bool
is_space c = nat_eqb c 32

abbrev hourly : CronJob
hourly = record {
  id = "tidy";
  schedule = "0 * * * * *";
  agent_id = "main";
  session_key = "main:web:ops";
  prompt = "tidy up";
  enabled = true;
  created_at = 0;
  last_run = none;
}

abbrev held : CronService
held = open_with (insert "tidy" hourly [])

abbrev begun : CronJob
begun = start_run (from_secs 120) hourly

abbrev calls : List Call
calls =
    adds hourly
    ∷ ticks (from_secs 120)
    ∷ syncs (insert "tidy" begun []) (hourly ∷ [])
    ∷ ticks (from_secs 180)
    ∷ ends begun (from_secs 121) (from_secs 190) timed_out
    ∷ ticks (from_secs 240)
    ∷ []

calls-AreOrderly : AreOrderly parse_minutes after_period is_space "tidy" 0 new calls
unfolding new step flights add tick started save_jobs insert visit_jobs is_due next_slot is_running
    start_run already_started is_blank sync_jobs sync_from with_previous lookup runs_at
calls-AreOrderly = (λ e. refl, (tt, (λ e. (refl, refl), (tt, (λ e. omega arith, (tt, tt))))))

flights_after-le-1_example :
    flights_after parse_minutes after_period is_space "tidy" 0 new calls ≤ 1
flights_after-le-1_example =
    flights_after-le-1 parse_minutes after_period is_space "tidy" calls calls-AreOrderly

slot_runs_once_example :
    (ended : CronJob) × ((lookup "tidy"
          (finish begun
            (from_secs 121)
            (from_secs 130)
            (returned (ok tt))
            (tick parse_minutes after_period (from_secs 120) held).1).jobs
        ≡ some ended)
      × (is_due parse_minutes after_period (from_secs 150) ended ≡ false))
unfolding open_with lookup insert is_due next_slot is_running already_started
slot_runs_once_example =
    slot_runs_once parse_minutes after_period held "tidy" hourly (from_secs 120) (from_secs 120)
      (from_secs 121) (from_secs 130) (from_secs 150) (returned (ok tt)) refl refl refl refl
      (omega arith) refl

-- A synchronisation reads the job before a tick starts it, and writes what it has read after the tick:
-- the next tick starts a second run beside the first.
abbrev race : List Call
race =
    adds hourly
    ∷ ticks (from_secs 120)
    ∷ syncs (insert "tidy" hourly []) (hourly ∷ [])
    ∷ ticks (from_secs 180)
    ∷ []

race_flights : flights_after parse_minutes after_period is_space "tidy" 0 new race ≡ 2
unfolding new step flights flights_after add tick started save_jobs insert visit_jobs is_due
    next_slot is_running start_run already_started is_blank sync_jobs sync_from with_previous lookup
race_flights = refl

held-Distinct : Distinct held.jobs
unfolding open_with insert lookup
held-Distinct = (refl, tt)

restart_disables_example :
    (started "tidy" (tick parse_minutes after_period (from_secs 120) held).0 ≡ 1)
    × ((saved : Map String CronJob) × ((tick parse_minutes after_period (from_secs 120) held).1.file
          ≡ some saved)
        × (flights_after parse_minutes after_period is_space "tidy" 0
              (open_with saved)
              (map ticks (from_secs 600 ∷ from_secs 660 ∷ []))
            ≡ 0))
unfolding open_with lookup insert is_due next_slot is_running already_started
restart_disables_example =
    restart_disables parse_minutes after_period is_space held held.jobs "tidy" hourly
      (from_secs 120) (from_secs 600 ∷ from_secs 660 ∷ []) refl held-Distinct
      (Everywhere-insert _ "tidy" hourly [] refl (Everywhere-empty _)) refl refl

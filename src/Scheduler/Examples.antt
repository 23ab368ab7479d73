-- ===== src/Scheduler/Examples.antt =====
-- Runs of the model of portal/scheduler.py on sample tasks, in UTC.
use modular_discord_bot_oper.Common.{
  ◌<◌, ℕ, ◌+◌, ◌*◌, ◌%◌, ◌≤◌, true, false, none, some, List, [], ◌∷◌, ◌≡◌, refl, arith, ok, err,
  eq_iff, length, select,
}
use Prim.Native.Nat.{◌/◌}
use modular_discord_bot_oper.Common.Json.{pos}
use modular_discord_bot_oper.Common.Text.{text_length, has_slash}
use modular_discord_bot_oper.Portal.Authorization.{Principal, can}
use modular_discord_bot_oper.Scheduler.Model.{
  Error, Schedule, ScheduledTask, TaskExecution, ExecutionStatus, stale_revision,
}
use modular_discord_bot_oper.Scheduler.Calendar.{
  Calendar, found, aware, validate_schedule, check_zone, check_recurring, check_interval, next_run,
  has_duplicate,
}
use modular_discord_bot_oper.Scheduler.Calendar.NextRun.{IsOccurrence, next_run-IsOccurrence}
use modular_discord_bot_oper.Scheduler.Calendar.Validity.{IsRegular, next_run-total}
use modular_discord_bot_oper.Scheduler.Store.{
  Store, claimed, admits, claim, finish, is_of, acquire_lease, update_task,
}
use modular_discord_bot_oper.Scheduler.Store.Claims.{claim_once, finish_bounded}
use modular_discord_bot_oper.Scheduler.Store.Leases.{
  LeaseCall, acquire, release, calls, lease_exclusive,
}
use modular_discord_bot_oper.Scheduler.Store.Revisions.{update_task-stale}
use modular_discord_bot_oper.Scheduler.Service.{Scheduler, create}
use modular_discord_bot_oper.Scheduler.Service.Admission.{IsAdmitted, create-IsAdmitted}
use modular_discord_bot_oper.Common.{◌⊎◌}
use modular_discord_bot_oper.Scheduler.Execution.{World, Identities, execution_of, execute}
use modular_discord_bot_oper.Scheduler.Execution.Outcome.{IsGuarded, execute-IsGuarded}

abbrev day : ℕ
day = 86400000000

abbrev calendar : Calendar
calendar = record {
  zone = λ name. found;
  from_iso = λ text. aware 1000;
  time_from_iso = λ text. some 100;
  weekday = λ d. (d + 3) % 7;
  to_wall = λ zone t. record { day = t / day; time = t % day };
  to_utc = λ zone w. w.day * day + w.time;
}

abbrev weekly : Schedule
weekly = record {
  kind = "weekly";
  timezone = "UTC";
  at = none;
  local_time = some "00:00:00.000100";
  weekdays = pos 2 ∷ pos 5 ∷ [];
  interval_seconds = none;
}

abbrev interval : Schedule
interval = record {
  kind = "interval";
  timezone = "UTC";
  at = none;
  local_time = none;
  weekdays = [];
  interval_seconds = some (pos 3600);
}

utc-IsRegular : IsRegular calendar "UTC" 100 5000
utc-IsRegular = record {
  weekday_bound = λ d. omega arith;
  weekday_next = λ d. omega arith;
  time_exists = λ d. utc_time d;
  next_day_later = λ d h. omega arith;
}
  where
    utc_time : (d : ℕ) → calendar.to_wall "UTC" (d * day + 100) ≡ record { day = d; time = 100 }
    utc_time d =
        let e : (d * day + 100) / day ≡ d = omega arith in
        let e' : (d * day + 100) % day ≡ 100 = omega arith in rw (e, e')

weekly_valid : validate_schedule calendar weekly 5000 ≡ ok tt
unfolding validate_schedule check_zone check_recurring has_duplicate text_length has_slash
weekly_valid = refl

next_run-total_example : (t : ℕ) × (next_run calendar weekly 5000 false ≡ ok (some t))
next_run-total_example =
    next_run-total calendar weekly 5000 false utc-IsRegular weekly_valid refl refl

interval_next : next_run calendar interval 5000 false ≡ ok (some 3600005000)
unfolding next_run validate_schedule check_zone check_interval text_length has_slash
interval_next = refl

next_run-IsOccurrence_example :
    (5000 < 3600005000) × IsOccurrence calendar interval 5000 false 3600005000
next_run-IsOccurrence_example = next_run-IsOccurrence calendar interval 5000 false interval_next

abbrev task : ScheduledTask
task = record {
  task_id = "a1";
  name = "nightly";
  bot_id = "unbot";
  task_type_id = "commands.sync";
  owner_id = "owner";
  is_enabled = true;
  schedule = interval;
  parameters = [];
  definition_version = 1;
  revision = 4;
  created_at = 1;
  updated_at = 1;
  next_run_at = some 5000;
  last_run_at = none;
  suspended_reason = none;
  deleted_at = none;
}

abbrev world : World
world = record {
  execution_id = "e1";
  request_id = "r1";
  occurrence = "o1";
  now = 6000;
  suspended = 6001;
  finished = 6002;
  adapter = some (some "op1");
}

abbrev execution : TaskExecution
execution = execution_of task 5000 world

abbrev rival : TaskExecution
rival = claimed "e2" "a1" "o1" 5000 6100 "r2"

abbrev store : Store
store = record { tasks = task ∷ []; executions = []; lease = none; history_per_task = 20 }

claim_once_example : claim rival (claim execution store).1 ≡ (none, (claim execution store).1)
unfolding admits
claim_once_example = claim_once execution rival store refl refl

finish_bounded_example :
    length (
      select
        (is_of "a1")
        (finish execution ExecutionStatus.succeeded 6002 none none
          (claim execution store).1).executions)
    ≤ (claim execution store).1.history_per_task
finish_bounded_example =
    finish_bounded execution ExecutionStatus.succeeded 6002 none none (claim execution store).1

abbrev lease_calls : List LeaseCall
lease_calls = acquire "b" 6000 ∷ release "c" ∷ []

lease_exclusive_example :
    let s = (calls lease_calls (acquire_lease "a" 5000 store).1).1 in
    acquire_lease "b" 7000 s ≡ (false, s)
unfolding acquire_lease
lease_exclusive_example =
    lease_exclusive "a" "b" 5000 7000 lease_calls store refl
      ((λ e. cc ((eq_iff "b" "a").1 e), omega arith), (λ e. cc ((eq_iff "c" "a").1 e), tt))
      (λ e. cc ((eq_iff "b" "a").1 e)) (omega arith)

abbrev renamed : ScheduledTask
renamed = record task { name = "renamed"; revision = 5 }

update_task-stale_example :
    update_task (record renamed { name = "other" }) 4 (update_task renamed 4 store).1
    ≡ (err stale_revision, (update_task renamed 4 store).1)
unfolding update_task
update_task-stale_example =
    update_task-stale renamed (record renamed { name = "other" }) 4 store refl
      (λ e. omega (arith, e)) refl

abbrev owner : Principal
owner = record {
  principal_id = "owner";
  permissions = "scheduler.manage" ∷ "commands.sync" ∷ [];
  bot_ids = none;
}

abbrev identities : Identities
identities = λ id. some (record { is_enabled = true; principal = owner })

abbrev scheduler : Store → Scheduler
scheduler s = record {
  store = s;
  locks = [];
  audit_log = [];
  adapter_calls = [];
  max_total = 100;
  max_per_owner_bot = 10;
}

execute-IsGuarded_example :
    IsGuarded can identities task 5000 none world
      (scheduler store)
      (execute can identities task 5000 none world (scheduler store)).1
execute-IsGuarded_example = execute-IsGuarded can identities task 5000 none world (scheduler store)

create-IsAdmitted_example :
    ((e : Error) × (create calendar can owner "nightly" "unbot" "commands.sync" interval [] true
          "r1" "b2" 5000
          (scheduler store)
        ≡ (err e, scheduler store)))
    ⊎ ((made : ScheduledTask) × (s' : Scheduler) × (create calendar can owner "nightly" "unbot"
            "commands.sync" interval [] true "r1" "b2" 5000
            (scheduler store)
          ≡ (ok made, s'))
        × IsAdmitted calendar can owner "nightly" "unbot" "commands.sync" interval [] true "r1" "b2"
            5000
            (scheduler store)
            made
            s')
create-IsAdmitted_example =
    create-IsAdmitted calendar can owner "nightly" "unbot" "commands.sync" interval [] true "r1"
      "b2" 5000 (scheduler store)

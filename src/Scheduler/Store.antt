-- ===== src/Scheduler/Store.antt =====
-- `SQLiteSchedulerStore` of portal/scheduler.py: each method is one transaction over three tables.
-- The tables' constraints are those of `migrate`: unique task and execution ids, one execution for a
-- task and an occurrence, and an execution's task must exist.
pub mod Claims
pub mod Leases
pub mod Revisions
use modular_discord_bot_oper.Common.{
  ℕ, ◌+◌, String, Bool, true, false, Option, none, some, List, [], ◌∷◌, ◌++◌, map, ◌&&◌, ◌||◌, not,
  leb, ltb, any, select, drop, take, length, str_eq, is_some, if◌then◌else◌, ◌==◌, Exec, Result, ok,
  err, min, max,
}
use modular_discord_bot_oper.Common.Text.{is_hex_id}
use modular_discord_bot_oper.Scheduler.Model.{
  Error, stale_revision, foreign, ScheduledTask, TaskExecution, ExecutionStatus, seconds,
}

-- The lease's one row.
pub record Lease : Type 0 where
  pub owner : String
  pub expires_at : ℕ

pub record Store : Type 0 where
  pub tasks : List ScheduledTask
  pub executions : List TaskExecution
  pub lease : Option Lease
  pub history_per_task : ℕ

abbrev pub is_listed : ScheduledTask → Bool
is_listed t = not (is_some t.deleted_at)

-- SELECT * FROM scheduled_tasks WHERE task_id=? AND deleted_at IS NULL
unfoldable pub find_task : String → List ScheduledTask → Option ScheduledTask
find_task id [] = none
find_task id (t ∷ ts) = if str_eq t.task_id id && is_listed t then some t else find_task id ts

unfoldable pub get : String → Store → Option ScheduledTask
unfolding find_task
get id s = if is_hex_id id then find_task id s.tasks else none

-- ORDER BY created_at, where rows of the same instant keep their order
unfoldable pub insert_by_creation : ScheduledTask → List ScheduledTask → List ScheduledTask
insert_by_creation t [] = t ∷ []
insert_by_creation t (u ∷ us) =
    if leb t.created_at u.created_at then t ∷ u ∷ us else u ∷ insert_by_creation t us

unfoldable pub by_creation : List ScheduledTask → List ScheduledTask
unfolding insert_by_creation
by_creation [] = []
by_creation (t ∷ ts) = insert_by_creation t (by_creation ts)

-- `list`
unfoldable pub list_tasks : Store → List ScheduledTask
unfolding by_creation
list_tasks s = by_creation (select is_listed s.tasks)

-- `insert` writes NULL to the last three columns.
unfoldable pub insert_task : ScheduledTask → Exec Store Error (Unit {0})
insert_task t s =
    if any (λ (u : ScheduledTask). str_eq u.task_id t.task_id) s.tasks then (err foreign, s) else (
      ok tt,
      record s {
        tasks =
            s.tasks
            ++ record t { last_run_at = none; suspended_reason = none; deleted_at = none } ∷ [];
      },
    )

-- The columns that `update` writes.
abbrev pub updated_row : ScheduledTask → ScheduledTask → ScheduledTask
updated_row t row = record row {
  name = t.name;
  is_enabled = t.is_enabled;
  schedule = t.schedule;
  parameters = t.parameters;
  revision = t.revision;
  updated_at = t.updated_at;
  next_run_at = t.next_run_at;
  suspended_reason = t.suspended_reason;
  deleted_at = t.deleted_at;
}

-- WHERE task_id=? AND revision=?
abbrev pub is_current : ScheduledTask → ℕ → ScheduledTask → Bool
is_current t expected row = str_eq row.task_id t.task_id && (row.revision == expected)

-- `update`: unless exactly one row fits, it raises and the transaction is rolled back.
unfoldable pub update_task : ScheduledTask → ℕ → Exec Store Error (Unit {0})
update_task t expected s =
    if length (select (is_current t expected) s.tasks) == 1
    then (
      ok tt,
      record s {
        tasks = map (λ row. if is_current t expected row then updated_row t row else row) s.tasks;
      },
    )
    else (err stale_revision, s)

-- The constraints under which INSERT INTO task_executions succeeds.
abbrev pub same_occurrence : TaskExecution → TaskExecution → Bool
same_occurrence e f = str_eq f.task_id e.task_id && str_eq f.occurrence e.occurrence

unfoldable pub admits : TaskExecution → Store → Bool
admits e s =
    any (λ (t : ScheduledTask). str_eq t.task_id e.task_id) s.tasks
    && not (any (λ (f : TaskExecution). str_eq f.execution_id e.execution_id) s.executions)
    && not (any (same_occurrence e) s.executions)

abbrev pub claimed : String → String → String → ℕ → ℕ → String → TaskExecution
claimed execution_id task_id occurrence planned now request_id = record {
  execution_id = execution_id;
  task_id = task_id;
  occurrence = occurrence;
  planned_at = planned;
  started_at = now;
  completed_at = none;
  status = ExecutionStatus.running;
  request_id = request_id;
  operation_id = none;
  result = none;
}

-- `claim`: an `IntegrityError` is no execution, and rolls both statements back.
unfoldable pub claim : TaskExecution → Store → Option TaskExecution × Store
unfolding admits
claim e s =
    if admits e s
    then (
      some e,
      record s {
        executions = s.executions ++ e ∷ [];
        tasks =
            map
              (λ (t : ScheduledTask).
                if str_eq t.task_id e.task_id
                then record t { last_run_at = some e.planned_at }
                else t)
              s.tasks;
      },
    )
    else (none, s)

-- ORDER BY started_at DESC, newest first
unfoldable pub insert_by_start : TaskExecution → List TaskExecution → List TaskExecution
insert_by_start e [] = e ∷ []
insert_by_start e (f ∷ fs) =
    if leb f.started_at e.started_at then e ∷ f ∷ fs else f ∷ insert_by_start e fs

unfoldable pub newest_first : List TaskExecution → List TaskExecution
unfolding insert_by_start
newest_first [] = []
newest_first (e ∷ es) = insert_by_start e (newest_first es)

abbrev pub is_of : String → TaskExecution → Bool
is_of task_id e = str_eq e.task_id task_id

-- UPDATE task_executions SET ... WHERE execution_id=?
abbrev pub completed :
    ExecutionStatus → ℕ → Option String → Option String → TaskExecution → TaskExecution
completed status now operation_id result e = record e {
  completed_at = some now;
  status = status;
  operation_id = operation_id;
  result = result;
}

unfoldable pub complete :
    String
    → ExecutionStatus
    → ℕ
    → Option String
    → Option String
    → List TaskExecution
    → List TaskExecution
complete id status now operation_id result es =
    map
      (λ (e : TaskExecution).
        if str_eq e.execution_id id then completed status now operation_id result e else e)
      es

-- The executions of a task beyond the newest `keep`.
unfoldable pub surplus : ℕ → String → List TaskExecution → List TaskExecution
unfolding newest_first
surplus keep task_id es = drop keep (newest_first (select (is_of task_id) es))

unfoldable pub prune : ℕ → String → List TaskExecution → List TaskExecution
unfolding surplus
prune keep task_id es =
    select
      (λ (e : TaskExecution). not (
        any (λ (f : TaskExecution). str_eq f.execution_id e.execution_id)
          (surplus keep task_id es)))
      es

-- `finish`
unfoldable pub finish :
    TaskExecution → ExecutionStatus → ℕ → Option String → Option String → Store → Store
unfolding complete prune
finish e status now operation_id result s = record s {
  executions =
      prune s.history_per_task e.task_id
        (complete e.execution_id status now operation_id result s.executions);
}

-- `history`
unfoldable pub history : String → ℕ → Store → List TaskExecution
unfolding newest_first
history task_id limit s =
    take (min (max limit 1) 100) (newest_first (select (is_of task_id) s.executions))

abbrev pub is_running : ExecutionStatus → Bool
is_running ExecutionStatus.running = true
is_running _ = false

-- `recover_running`, without its count
unfoldable pub recover_running : ℕ → Store → Store
recover_running now s = record s {
  executions =
      map
        (λ (e : TaskExecution).
          if is_running e.status
          then record e {
            completed_at = some now;
            status = ExecutionStatus.unknown;
            result = some "completion_unknown";
          }
          else e)
        s.executions;
}

-- `row and row["owner"] != owner and row["expires_at"] > now`
abbrev pub held_by_other : String → ℕ → Option Lease → Bool
held_by_other owner now none = false
held_by_other owner now (some l) = not (str_eq l.owner owner) && ltb now l.expires_at

-- `acquire_lease` with its default of thirty seconds
unfoldable pub acquire_lease : String → ℕ → Store → Bool × Store
acquire_lease owner now s =
    if held_by_other owner now s.lease
    then (false, s)
    else (true, record s { lease = some (record { owner = owner; expires_at = now + seconds 30 }) })

abbrev pub is_owned : String → Option Lease → Bool
is_owned owner none = false
is_owned owner (some l) = str_eq l.owner owner

unfoldable pub release_lease : String → Store → Store
release_lease owner s = if is_owned owner s.lease then record s { lease = none } else s

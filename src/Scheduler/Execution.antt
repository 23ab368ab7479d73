-- ===== src/Scheduler/Execution.antt =====
-- `run_now`, `run_due`, `_execute` and `_suspend` of portal/scheduler.py, and `SchedulerRunner`. What
-- an execution meets (clocks, new ids, the adapter's result) is its argument.
pub mod Outcome
use modular_discord_bot_oper.Common.{
  ℕ, ◌+◌, String, Bool, true, false, Option, none, some, List, [], ◌∷◌, ◌++◌, map, ◌&&◌, ◌||◌, not,
  leb, ltb, any, select, str_eq, is_some, if◌then◌else◌, ◌==◌, Exec, Result, ok, err, pure, raise,
  gets, modify, require, or_raise, lift, ◌>>=◌, ◌>>◌,
}
use modular_discord_bot_oper.Portal.Authorization.{Principal, Authorizer, contains}
use modular_discord_bot_oper.Scheduler.Model.{
  Error, Schedule, ScheduledTask, TaskExecution, TaskType, ExecutionStatus, MisfirePolicy,
  execution_conflict, task_disabled,
}
use modular_discord_bot_oper.Scheduler.Calendar.{Calendar, next_run}
use modular_discord_bot_oper.Scheduler.Store
use modular_discord_bot_oper.Scheduler.Store.{
  claimed, claim, finish, list_tasks, update_task, acquire_lease, release_lease, recover_running,
}
use modular_discord_bot_oper.Scheduler.Service.{
  Scheduler, Action, AuditName, AdapterCall, on_store, log, log_execution, validate, type_of,
  permit, get_task,
}

-- What one execution meets: `now` is the clock when it begins, `finished` when the adapter is done,
-- `occurrence` is `planned.isoformat()`, or the text of a manual run. The adapter returns an
-- operation id or none, or raises (`none`).
pub record World : Type 0 where
  pub execution_id : String
  pub request_id : String
  pub occurrence : String
  pub now : ℕ
  pub suspended : ℕ
  pub finished : ℕ
  pub adapter : Option (Option String)

pub record Identity : Type 0 where
  pub is_enabled : Bool
  pub principal : Principal

abbrev pub Identities : Type 0
Identities = String → Option Identity

-- `identity.principal() if identity and identity.enabled else None`
abbrev pub enabled_principal : Option Identity → Option Principal
enabled_principal none = none
enabled_principal (some i) = if i.is_enabled then some i.principal else none

abbrev pub or_manual : Option Principal → Option Principal → Option Principal
or_manual none owner = owner
or_manual (some actor) owner = some actor

abbrev pub suspended_row : ScheduledTask → String → ℕ → ScheduledTask
suspended_row t reason now = record t {
  is_enabled = false;
  next_run_at = none;
  suspended_reason = some reason;
  revision = t.revision + 1;
  updated_at = now;
}

abbrev pub suspend_row : Option ScheduledTask → String → ℕ → Action (Unit {0})
suspend_row none reason now = pure tt
suspend_row (some t) reason now = on_store (update_task (suspended_row t reason now) t.revision)

-- `_suspend`
unfoldable pub suspend : ScheduledTask → String → ℕ → Action (Unit {0})
suspend task reason now = do
  current ← gets (λ s. Store.get task.task_id s.store)
  suspend_row current reason now

abbrev pub is_skip : MisfirePolicy → Bool
is_skip MisfirePolicy.skip = true
is_skip MisfirePolicy.grace = false

-- The misfire test of an occurrence that no actor asked for.
abbrev pub misfires : TaskType → ℕ → ℕ → Option Principal → Bool
misfires kind planned now (some actor) = false
misfires kind planned now none =
    (is_skip kind.misfire && ltb planned now) || ltb (planned + kind.grace_period) now

abbrev pub run_permission : Option Principal → String
run_permission none = "scheduler.manage"
run_permission (some _) = "scheduler.run"

abbrev pub succeeds : Result Error (Unit {0}) → Bool
succeeds (ok _) = true
succeeds (err _) = false

-- `self.store.finish(claimed, ...)`
abbrev pub close : TaskExecution → ExecutionStatus → ℕ → Option String → String → Action (Unit {0})
close e status now operation_id result =
    modify (λ s. record s { store = finish e status now operation_id (some result) s.store })

abbrev pub lock : String → Scheduler → Scheduler
lock id s = record s { locks = id ∷ s.locks }

-- `discard`
abbrev pub unlock : String → Scheduler → Scheduler
unlock id s = record s { locks = select (λ j. not (str_eq j id)) s.locks }

-- The adapter's call and the `try` around it.
unfoldable pub run_adapter :
    ScheduledTask → Principal → World → TaskExecution → Option (Option String) → Action (Unit {0})
run_adapter task actor w e (some operation_id) = do
  close e ExecutionStatus.succeeded w.finished operation_id "succeeded"
  modify (log_execution AuditName.succeeded task e "succeeded" operation_id)
run_adapter task actor w e none = do
  close e ExecutionStatus.failed w.finished none "underlying_operation_failed"
  modify (log_execution AuditName.failed task e "failed" none)

unfoldable pub perform : ScheduledTask → Principal → World → TaskExecution → Action TaskExecution
perform task actor w e = do
  modify (lock task.task_id)
  modify (log_execution AuditName.started task e "running" none)
  modify (λ s. record s {
    adapter_calls = s.adapter_calls ++ record { task = task; actor = actor } ∷ [];
  })
  run_adapter task actor w e w.adapter
  modify (unlock task.task_id)
  pure e

-- The name of a task's execution, as `claim` makes it.
abbrev pub execution_of : ScheduledTask → ℕ → World → TaskExecution
execution_of task planned w =
    claimed w.execution_id task.task_id w.occurrence planned w.now w.request_id

unfoldable pub revoke : ScheduledTask → World → TaskExecution → Action TaskExecution
revoke task w e = do
  close e ExecutionStatus.authorization_revoked w.now none "authorization_revoked"
  suspend task "authorization_revoked" w.suspended
  modify (log_execution AuditName.authorization_revoked task e "authorization_revoked" none)
  pure e

unfoldable pub drop_capability : ScheduledTask → World → TaskExecution → Action TaskExecution
drop_capability task w e = do
  close e ExecutionStatus.capability_unavailable w.now none "capability_not_supported"
  suspend task "capability_not_supported" w.suspended
  pure e

unfoldable pub close_with : TaskExecution → ExecutionStatus → World → String → Action TaskExecution
close_with e status w result = do close e status w.now none result; pure e

-- `claim` as an action
abbrev pub claim_now : TaskExecution → Action (Option TaskExecution)
claim_now e s = let (r, store') = claim e s.store in (ok r, record s { store = store' })

abbrev pub is_due : ℕ → ScheduledTask → Bool
is_due now t = t.is_enabled && elim t.next_run_at [ none ↦ false | some at ↦ leb at now ]

module _ (can : Authorizer) (identities : Identities) where
  -- The test before the adapter is called: an actor who may, and an unchanged task type.
  unfoldable pub is_authorized :
      ScheduledTask → TaskType → Option Principal → Option Principal → Bool
  is_authorized task kind manual none = false
  is_authorized task kind manual (some actor) =
      can actor (run_permission manual) (some task.bot_id)
      && can actor kind.underlying_permission (some task.bot_id)
      && (task.definition_version == kind.definition_version)

  -- What follows the two early returns.
  unfoldable pub authorize_and_run :
      ScheduledTask
      → TaskType
      → Option Principal
      → World
      → TaskExecution
      → Option Principal
      → Action TaskExecution
  authorize_and_run task kind manual w e none s = revoke task w e s
  authorize_and_run task kind manual w e (some actor) s =
      if not (is_authorized task kind manual (some actor))
      then revoke task w e s
      else if not (succeeds (validate task.bot_id kind task.parameters))
      then drop_capability task w e s
      else perform task actor w e s

  unfoldable pub run_claimed :
      ScheduledTask
      → ℕ
      → Option Principal
      → World
      → TaskType
      → Option TaskExecution
      → Action TaskExecution
  run_claimed task planned manual w kind none s = (err execution_conflict, s)
  run_claimed task planned manual w kind (some e) s =
      if contains s.locks task.task_id
      then close_with e ExecutionStatus.conflict w "overlap_forbidden" s
      else if misfires kind planned w.now manual
      then close_with e ExecutionStatus.misfired w "misfire_skipped" s
      else authorize_and_run task kind manual w e
          (or_manual manual (enabled_principal (identities task.owner_id))) s

  -- `_execute`
  unfoldable pub execute : ScheduledTask → ℕ → Option Principal → World → Action TaskExecution
  execute task planned manual w = do
    kind ← type_of task.task_type_id
    e ← claim_now (execution_of task planned w)
    run_claimed task planned manual w kind e

module _ (lib : Calendar) (can : Authorizer) (identities : Identities) where
  unfoldable pub run_now : Principal → String → World → Action TaskExecution
  run_now actor id w = do
    task ← get_task lib can actor id
    require task.is_enabled task_disabled
    kind ← type_of task.task_type_id
    permit lib can actor "scheduler.run" task.bot_id
    permit lib can actor kind.underlying_permission task.bot_id
    modify (log AuditName.run_now_requested actor.principal_id task w.request_id "requested")
    execute can identities task w.now (some actor) w

  -- `next_run(task.schedule, planned) if task.schedule.kind != "once" else None`
  abbrev pub following : ScheduledTask → ℕ → Action (Option ℕ)
  following task planned s =
      if str_eq task.schedule.kind "once"
      then (ok none, s)
      else (next_run lib task.schedule planned false, s)

  abbrev pub advanced_row : ScheduledTask → Option ℕ → ℕ → ScheduledTask
  advanced_row t next now = record t {
    is_enabled = t.is_enabled && is_some next;
    next_run_at = next;
    revision = t.revision + 1;
    updated_at = now;
  }

  abbrev pub advance_row : ScheduledTask → ℕ → ℕ → Option ScheduledTask → Action (Unit {0})
  advance_row task planned now none = pure tt
  advance_row task planned now (some current) = do
    next ← following task planned
    on_store (update_task (advanced_row current next now) current.revision)

  -- The body of the loop in `run_due` for a task that is due.
  unfoldable pub run_task : ScheduledTask → ℕ → ℕ → World → Action TaskExecution
  run_task task planned now w = do
    e ← execute can identities task planned none w
    current ← gets (λ s. Store.get task.task_id s.store)
    advance_row task planned now current
    pure e

  unfoldable pub run_if_due :
      ℕ → (ScheduledTask → World) → ScheduledTask → Option ℕ → Action (List TaskExecution)
  run_if_due now world task none s = (ok [], s)
  run_if_due now world task (some planned) s =
      if task.is_enabled && leb planned now
      then (do e ← run_task task planned now (world task); pure (e ∷ [])) s
      else (ok [], s)

  unfoldable pub run_each :
      ℕ → (ScheduledTask → World) → List ScheduledTask → Action (List TaskExecution)
  run_each now world [] = pure []
  run_each now world (t ∷ ts) = do
    es ← run_if_due now world t t.next_run_at
    rest ← run_each now world ts
    pure (es ++ rest)

  -- The loop reads the table once.
  unfoldable pub run_due : ℕ → (ScheduledTask → World) → Action (List TaskExecution)
  run_due now world = do tasks ← gets (λ s. list_tasks s.store); run_each now world tasks

  -- One round of `SchedulerRunner.run`; an exception ends the runner.
  unfoldable pub poll : String → ℕ → (ScheduledTask → World) → Action (List TaskExecution)
  poll owner now world s =
      let (got, store') = acquire_lease owner now s.store in
      let s' : Scheduler = record s { store = store' } in
      if got then run_due now world s' else (ok [], s')

-- ===== src/Scheduler/Service.antt =====
-- `SchedulerService` of portal/scheduler.py: its state, and the operations on task definitions. The
-- clock's reading and new ids are arguments.
pub mod Admission
use modular_discord_bot_oper.Common.{
  ℕ, ◌+◌, String, Bool, true, false, Option, none, some, List, [], ◌∷◌, ◌++◌, ◌&&◌, ◌||◌, not, ltb,
  any, all, select, length, str_eq, if◌then◌else◌, ◌==◌, Exec, Result, ok, err, pure, gets, modify,
  require, or_raise, lift, ◌>>=◌, ◌>>◌,
}
use modular_discord_bot_oper.Common.Dict.{Dict, lookup, values}
use modular_discord_bot_oper.Common.Text.{text_length, is_safe_name}
use modular_discord_bot_oper.Portal.Authorization.{Principal, Authorizer, contains}
use modular_discord_bot_oper.Scheduler.Model.{
  Error, Schedule, ScheduledTask, TaskExecution, TaskType, catalog, canonical_bots, is_backup_plan,
  task_type_not_supported, permission_denied, capability_not_supported, task_parameters_invalid,
  schedule_invalid, scheduled_task_not_found, scheduler_limit_reached, stale_revision,
}
use modular_discord_bot_oper.Scheduler.Calendar.{Calendar, validate_schedule, next_run}
use modular_discord_bot_oper.Scheduler.Store
use modular_discord_bot_oper.Scheduler.Store.{Store, list_tasks, insert_task, update_task}

pub data AuditName : Type 0 where
  created updated enabled disabled deleted run_now_requested : AuditName
  authorization_revoked started succeeded failed : AuditName

-- `SchedulerAuditEvent`, less its time.
pub record AuditEvent : Type 0 where
  pub name : AuditName
  pub actor : String
  pub bot_id : String
  pub task_id : String
  pub task_type_id : String
  pub request_id : String
  pub result : String
  pub execution_id : Option String
  pub operation_id : Option String
  pub initiated_by : String

-- A call of the task adapter: the task, and on whose authority.
pub record AdapterCall : Type 0 where
  pub task : ScheduledTask
  pub actor : Principal

pub record Scheduler : Type 0 where
  pub store : Store
  pub locks : List String
  pub audit_log : List AuditEvent
  pub adapter_calls : List AdapterCall
  pub max_total : ℕ
  pub max_per_owner_bot : ℕ

abbrev pub Action : Type 0 → Type 0
Action A = Exec Scheduler Error A

-- A transaction of the store.
abbrev pub on_store : {A : Type 0} → Exec Store Error A → Action A
on_store m s = let (r, store') = m s.store in (r, record s { store = store' })

-- `_audit`, of a sink that keeps the events
abbrev pub audit :
    AuditName
    → String
    → ScheduledTask
    → String
    → String
    → Option String
    → Option String
    → String
    → Scheduler
    → Scheduler
audit name actor task request result execution operation initiated_by s = record s {
  audit_log =
      s.audit_log
      ++ record {
        name = name;
        actor = actor;
        bot_id = task.bot_id;
        task_id = task.task_id;
        task_type_id = task.task_type_id;
        request_id = request;
        result = result;
        execution_id = execution;
        operation_id = operation;
        initiated_by = initiated_by;
      }
        ∷ [];
}

-- An event of an operation that was asked for.
abbrev pub log : AuditName → String → ScheduledTask → String → String → Scheduler → Scheduler
log name actor task request result = audit name actor task request result none none "portal"

-- An event of an execution.
abbrev pub log_execution :
    AuditName → ScheduledTask → TaskExecution → String → Option String → Scheduler → Scheduler
log_execution name task e result operation =
    audit name task.owner_id task e.request_id result (some e.execution_id) operation "scheduler"

abbrev pub keys : Dict String → List String
keys [] = []
keys ((k, _) ∷ d) = k ∷ keys d

-- `set(xs) == set(ys)`
abbrev pub same_set : List String → List String → Bool
same_set xs ys = all (contains ys) xs && all (contains xs) ys

abbrev pub plan_of : Option String → String
plan_of none = ""
plan_of (some p) = p

-- `_validate`
unfoldable pub validate : String → TaskType → Dict String → Result Error (Unit {0})
validate bot kind params =
    if not (contains canonical_bots bot) || not (contains kind.supported_bots bot)
    then err capability_not_supported
    else if not (same_set (keys params) kind.parameter_names)
        || any (λ v. ltb 64 (text_length v)) (values params)
    then err task_parameters_invalid
    else if str_eq kind.task_type_id "backup.create"
        && not (is_backup_plan bot (plan_of (lookup "plan_id" params)))
    then err task_parameters_invalid
    else ok tt

abbrev pub is_own : String → String → ScheduledTask → Bool
is_own owner bot t = str_eq t.owner_id owner && str_eq t.bot_id bot

-- `_type`
abbrev pub type_of : String → Action TaskType
type_of id = or_raise (catalog id) task_type_not_supported

module _ (lib : Calendar) (can : Authorizer) where
  -- `_require`
  abbrev pub permit : Principal → String → String → Action (Unit {0})
  permit actor permission bot = require (can actor permission (some bot)) permission_denied

  unfoldable pub visible_tasks : Principal → Scheduler → List ScheduledTask
  visible_tasks actor s =
      select (λ (t : ScheduledTask). can actor "scheduler.view" (some t.bot_id))
        (list_tasks s.store)

  abbrev pub visible : Principal → Option ScheduledTask → Option ScheduledTask
  visible actor none = none
  visible actor (some t) = if can actor "scheduler.view" (some t.bot_id) then some t else none

  unfoldable pub get_task : Principal → String → Action ScheduledTask
  get_task actor id = do
    task ← gets (λ s. visible actor (Store.get id s.store))
    or_raise task scheduled_task_not_found

  -- `next_run(schedule, now) if enabled else None`
  abbrev pub next_if : Bool → Schedule → ℕ → Action (Option ℕ)
  next_if true schedule now = lift (next_run lib schedule now false)
  next_if false schedule now = pure none

  -- The limits of `create` on the tasks that are listed.
  abbrev pub has_room : String → String → Scheduler → Bool
  has_room owner bot s =
      ltb (length (list_tasks s.store)) s.max_total
      && ltb (length (select (is_own owner bot) (list_tasks s.store))) s.max_per_owner_bot

  -- The task that `create` makes of its arguments.
  abbrev pub new_task :
      Principal
      → String
      → String
      → String
      → String
      → TaskType
      → Schedule
      → Dict String
      → Bool
      → ℕ
      → Option ℕ
      → ScheduledTask
  new_task actor id name bot type_id kind schedule params is_enabled now next = record {
    task_id = id;
    name = name;
    bot_id = bot;
    task_type_id = type_id;
    owner_id = actor.principal_id;
    is_enabled = is_enabled;
    schedule = schedule;
    parameters = params;
    definition_version = kind.definition_version;
    revision = 1;
    created_at = now;
    updated_at = now;
    next_run_at = next;
    last_run_at = none;
    suspended_reason = none;
    deleted_at = none;
  }

  unfoldable pub create :
      Principal
      → String
      → String
      → String
      → Schedule
      → Dict String
      → Bool
      → String
      → String
      → ℕ
      → Action ScheduledTask
  create actor name bot type_id schedule params is_enabled request new_id now = do
    kind ← type_of type_id
    permit actor "scheduler.manage" bot
    permit actor kind.underlying_permission bot
    lift (validate bot kind params)
    require (is_safe_name name) schedule_invalid
    lift (validate_schedule lib schedule now)
    room ← gets (has_room actor.principal_id bot)
    require room scheduler_limit_reached
    next ← next_if is_enabled schedule now
    on_store (
        insert_task
          (new_task actor new_id name bot type_id kind schedule params is_enabled now next))
    modify (
        log AuditName.created actor.principal_id
          (new_task actor new_id name bot type_id kind schedule params is_enabled now next) request
          "succeeded")
    pure (new_task actor new_id name bot type_id kind schedule params is_enabled now next)

  abbrev pub or_old : Bool → Option Bool → Bool
  or_old old none = old
  or_old old (some b) = b

  unfoldable pub update :
      Principal
      → String
      → ℕ
      → String
      → Schedule
      → Dict String
      → Option Bool
      → String
      → ℕ
      → Action ScheduledTask
  update actor id revision name schedule params is_enabled request now = do
    old ← get_task actor id
    kind ← type_of old.task_type_id
    permit actor "scheduler.manage" old.bot_id
    permit actor kind.underlying_permission old.bot_id
    lift (validate old.bot_id kind params)
    require (revision == old.revision) stale_revision
    require (is_safe_name name) schedule_invalid
    lift (validate_schedule lib schedule now)
    next ← next_if (or_old old.is_enabled is_enabled) schedule now
    task ← pure (record old {
      name = name;
      is_enabled = or_old old.is_enabled is_enabled;
      schedule = schedule;
      parameters = params;
      revision = old.revision + 1;
      updated_at = now;
      next_run_at = next;
      suspended_reason = none;
    })
    on_store (update_task task revision)
    modify (log AuditName.updated actor.principal_id task request "succeeded")
    pure task

  unfoldable pub set_enabled : Principal → String → ℕ → Bool → String → ℕ → Action ScheduledTask
  set_enabled actor id revision is_enabled request now = do
    old ← get_task actor id
    task ←
        update actor id revision old.name old.schedule old.parameters (some is_enabled) request now
    modify (
        log (if is_enabled then AuditName.enabled else AuditName.disabled) actor.principal_id task
          request "succeeded")
    pure task

  unfoldable pub delete : Principal → String → ℕ → String → ℕ → Action (Unit {0})
  delete actor id revision request now = do
    old ← get_task actor id
    kind ← type_of old.task_type_id
    permit actor "scheduler.manage" old.bot_id
    permit actor kind.underlying_permission old.bot_id
    require (revision == old.revision) stale_revision
    on_store (
        update_task
          (record old {
            revision = old.revision + 1;
            is_enabled = false;
            updated_at = now;
            next_run_at = none;
            deleted_at = some now;
          })
          revision)
    modify (log AuditName.deleted actor.principal_id old request "succeeded")

-- ===== src/Scheduler/Model.antt =====
-- The data of portal/scheduler.py. Instants and durations are microseconds.
use modular_discord_bot_oper.Common.{
  ℕ, ◌*◌, String, Bool, Option, none, some, List, [], ◌∷◌, str_eq, ◌&&◌, if◌then◌else◌,
}
use modular_discord_bot_oper.Common.Dict.{Dict}
use modular_discord_bot_oper.Common.Json.{ℤ}

-- The codes of `SchedulerError`; `foreign` is any other exception.
pub data Error : Type 0 where
  schedule_invalid timezone_invalid stale_revision task_type_not_supported permission_denied : Error
  capability_not_supported task_parameters_invalid scheduled_task_not_found : Error
  scheduler_limit_reached task_disabled execution_conflict foreign : Error

pub data MisfirePolicy : Type 0 where
  skip grace : MisfirePolicy

pub data ExecutionStatus : Type 0 where
  running succeeded failed misfired authorization_revoked : ExecutionStatus
  capability_unavailable conflict unknown : ExecutionStatus

pub record TaskType : Type 0 where
  pub task_type_id : String
  pub underlying_permission : String
  pub supported_bots : List String
  pub parameter_names : List String
  pub definition_version : ℕ
  pub misfire : MisfirePolicy
  pub grace_period : ℕ

pub record Schedule : Type 0 where
  pub kind : String
  pub timezone : String
  pub at : Option String
  pub local_time : Option String
  pub weekdays : List ℤ
  pub interval_seconds : Option ℤ

pub record ScheduledTask : Type 0 where
  pub task_id : String
  pub name : String
  pub bot_id : String
  pub task_type_id : String
  pub owner_id : String
  pub is_enabled : Bool
  pub schedule : Schedule
  pub parameters : Dict String
  pub definition_version : ℕ
  pub revision : ℕ
  pub created_at : ℕ
  pub updated_at : ℕ
  pub next_run_at : Option ℕ
  pub last_run_at : Option ℕ
  pub suspended_reason : Option String
  pub deleted_at : Option ℕ

-- `occurrence` is the planned instant, or the text of a manual run.
pub record TaskExecution : Type 0 where
  pub execution_id : String
  pub task_id : String
  pub occurrence : String
  pub planned_at : ℕ
  pub started_at : ℕ
  pub completed_at : Option ℕ
  pub status : ExecutionStatus
  pub request_id : String
  pub operation_id : Option String
  pub result : Option String

abbrev pub seconds : ℕ → ℕ
seconds n = n * 1000000

abbrev pub canonical_bots : List String
canonical_bots = "cda-admin" ∷ "cda-pay" ∷ "unbot" ∷ "rpa-admin" ∷ []

abbrev pub min_interval_seconds : ℕ
min_interval_seconds = 900

-- `MAX_HORIZON`, 3660 days, in seconds
abbrev pub max_horizon_seconds : ℕ
max_horizon_seconds = 316224000

-- `TRUSTED_BACKUP_PLANS` of portal/backups.py, which has one entry
unfoldable pub is_backup_plan : String → String → Bool
is_backup_plan bot plan = str_eq bot "cda-admin" && str_eq plan "cda-admin-configuration"

-- `AdministrativeTaskType(...)` with its default policies
abbrev pub task_type : String → String → List String → List String → MisfirePolicy → TaskType
task_type id permission bots names misfire = record {
  task_type_id = id;
  underlying_permission = permission;
  supported_bots = bots;
  parameter_names = names;
  definition_version = 1;
  misfire = misfire;
  grace_period = seconds 900;
}

-- `ADMINISTRATIVE_TASK_CATALOG.get`
unfoldable pub catalog : String → Option TaskType
catalog id =
    if str_eq id "backup.create"
    then some (
        task_type "backup.create" "backups.create" ("cda-admin" ∷ []) ("plan_id" ∷ [])
          MisfirePolicy.grace)
    else if str_eq id "bot.restart"
    then some (task_type "bot.restart" "bots.restart" canonical_bots [] MisfirePolicy.skip)
    else if str_eq id "commands.sync"
    then some (task_type "commands.sync" "commands.sync" canonical_bots [] MisfirePolicy.grace)
    else none

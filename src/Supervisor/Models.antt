-- ===== src/Supervisor/Models.antt =====
-- supervisor/models.py and supervisor/errors.py. Instants are microseconds since the epoch.
use modular_discord_bot_oper.Common.{ℕ, String, Bool, Option, List}
use modular_discord_bot_oper.Common.Json.{ℤ}

pub data ProcessState : Type 0 where
  disabled offline starting running stopping restarting crashed unknown : ProcessState

pub data LifecycleAction : Type 0 where
  start stop restart : LifecycleAction

pub data OperationStatus : Type 0 where
  requested running succeeded failed cancelled : OperationStatus

-- The classes of errors.py that the service raises; `timeout` and `os_error` are Python's own
-- `TimeoutError` and `OSError`, which are none of them.
pub data Error : Type 0 where
  unknown_bot bot_disabled already_running already_stopped operation_in_progress : Error
  startup_failed process_identity supervisor_closed timeout os_error : Error

pub record RegisteredBot : Type 0 where
  pub bot_id : String
  pub is_enabled : Bool
  pub entry_point : String
  pub executable : String
  pub token_variable : String
  pub shutdown_timeout : ℕ

-- `linux_process_identity`: kernel start ticks and argv.
pub record Identity : Type 0 where
  pub ticks : ℕ
  pub argv : List String

pub record ProcessRecord : Type 0 where
  pub bot_id : String
  pub process_instance_id : String
  pub pid : ℕ
  pub started_at : ℕ
  pub os_start_ticks : ℕ
  pub expected_argv : List String
  pub state : ProcessState
  pub adopted : Bool
  pub exit_code : Option ℤ
  pub exited_at : Option ℕ
  pub expected_exit : Bool
  pub forced : Bool

pub record OperationRecord : Type 0 where
  pub operation_id : String
  pub bot_id : String
  pub action : LifecycleAction
  pub requested_at : ℕ
  pub status : OperationStatus
  pub started_at : Option ℕ
  pub completed_at : Option ℕ
  pub error_category : Option Error
  pub actor : Option String

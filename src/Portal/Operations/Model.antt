-- ===== src/Portal/Operations/Model.antt =====
-- The data of portal/bot_operations.py.
use modular_discord_bot_oper.Common.{ℕ, String, Bool, Option, List, ◌==◌, any}
use modular_discord_bot_oper.Common.Dict.{Dict}
use modular_discord_bot_oper.Common.Json.{ℤ}
use modular_discord_bot_oper.Supervisor.Models.{ProcessState}
use modular_discord_bot_oper.Supervisor.Health.Store.{HealthSnapshot}

pub data Capability : Type 0 where
  cogs_view cogs_load cogs_unload cogs_reload cogs_reload_all : Capability
  commands_sync maintenance_view maintenance_enable maintenance_disable : Capability

pub data OperationType : Type 0 where
  cog_load cog_unload cog_reload cogs_reload_all : OperationType
  commands_sync maintenance_enable maintenance_disable : OperationType

pub data Status : Type 0 where
  requested running succeeded partial failed : Status

-- The codes of `ApplicationOperationError`.
pub data Code : Type 0 where
  unknown_bot permission_denied capability_not_supported cog_not_found cog_not_loadable : Code
  cog_not_unloadable cog_not_reloadable lifecycle_operation_in_progress bot_not_running : Code
  bot_not_ready process_instance_changed operation_in_progress cog_already_loaded : Code
  cog_not_loaded cog_dependency_conflict cog_operation_failed command_sync_failed : Code
  management_channel_unavailable operation_not_found : Code

pub record CogDefinition : Type 0 where
  pub cog_id : String
  pub display_name : String
  pub extension : String
  pub loadable : Bool
  pub unloadable : Bool
  pub reloadable : Bool
  pub dependencies : List String

pub record BotDefinition : Type 0 where
  pub capabilities : List Capability
  pub cogs : Dict CogDefinition
  pub command_scope : Option String

-- The texts of `result_summary`.
pub data Summary : Type 0 where
  cog_done : String → OperationType → Summary
  reloaded : ℕ → ℕ → Summary
  synchronized : ℤ → String → Summary
  maintenance : Bool → Summary

pub record ApplicationOperation : Type 0 where
  pub operation_id : String
  pub request_id : String
  pub bot_id : String
  pub process_instance_id : String
  pub operation_type : OperationType
  pub requested_at : ℕ
  pub status : Status
  pub started_at : Option ℕ
  pub completed_at : Option ℕ
  pub cog_id : Option String
  pub result_summary : Option Summary
  pub error_code : Option Code

-- The `result` of an audit event, which its name repeats.
pub data AuditResult : Type 0 where
  asked : AuditResult
  completed : Status → AuditResult
  refused : Code → AuditResult

pub record AuditEvent : Type 0 where
  pub operation_type : OperationType
  pub request_id : String
  pub actor : String
  pub bot_id : String
  pub operation_id : String
  pub result : AuditResult
  pub cog_id : Option String

-- How a call of the bot's control adapter ends: it returns, raises an `ApplicationOperationError`, or
-- raises anything else.
pub data Reply (A : Type 0) : Type 0 where
  returned : A → Reply A
  denied : Code → Reply A
  raised : Reply A

-- What the supervisor and the bot answer in one operation, in order: before it, the adapter, and the
-- second look at the process.
pub record World : Type 0 where
  pub registered : Bool
  pub state : ProcessState
  pub snapshot : Option HealthSnapshot
  pub process : Option String
  pub operation_id : String
  pub requested_at : ℕ
  pub started_at : ℕ
  pub completed_at : ℕ
  pub loaded : Reply (List String)
  pub done : Reply (Unit {0})
  pub command_count : Reply ℤ
  pub reloads : String → Reply (Unit {0})
  pub process_after : Option String
  pub state_after : ProcessState

-- A call of the adapter that changes the bot: the operation, the process it is bound to, and the
-- extension.
pub record ControlCall : Type 0 where
  pub operation_type : OperationType
  pub bot_id : String
  pub process_instance_id : String
  pub extension : String

-- `history` has the newest first.
pub record Operations : Type 0 where
  pub catalog : Dict BotDefinition
  pub locked : List String
  pub operations : Dict ApplicationOperation
  pub history : List String
  pub history_limit : ℕ
  pub audit : List AuditEvent
  pub control_calls : List ControlCall

-- Enumerations compare by their position.
abbrev pub capability_value : Capability → ℕ
capability_value Capability.cogs_view = 0
capability_value Capability.cogs_load = 1
capability_value Capability.cogs_unload = 2
capability_value Capability.cogs_reload = 3
capability_value Capability.cogs_reload_all = 4
capability_value Capability.commands_sync = 5
capability_value Capability.maintenance_view = 6
capability_value Capability.maintenance_enable = 7
capability_value Capability.maintenance_disable = 8

unfoldable pub supports : BotDefinition → Capability → Bool
supports d c = any (λ k. capability_value k == capability_value c) d.capabilities

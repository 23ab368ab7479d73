-- ===== src/Portal/Operations/Control.antt =====
-- The operations of `BotOperationService` (portal/bot_operations.py) that change a running bot.
pub mod Steps
pub mod Outcome
pub mod Abandoned
use modular_discord_bot_oper.Common.{
  ℕ, String, Bool, true, false, Option, none, some, List, [], ◌∷◌, ◌++◌, ◌&&◌, ◌||◌, not, ltb, any,
  length, str_eq, if◌then◌else◌, Exec, Result, ok, err, pure, raise, gets, modify, require,
  or_raise, ◌>>=◌, ◌>>◌,
}
use modular_discord_bot_oper.Common.Dict.{Dict, lookup, values}
use modular_discord_bot_oper.Common.Json.{ℤ, pos, negsuc}
use modular_discord_bot_oper.Common.Text.{text_length, is_cog_id}
use modular_discord_bot_oper.Portal.Authorization.{Principal, Authorizer, contains}
use modular_discord_bot_oper.Portal.Operations.Model
use modular_discord_bot_oper.Portal.Operations.Model.{
  Capability, OperationType, Status, Code, Summary, CogDefinition, BotDefinition,
  ApplicationOperation, Reply, returned, denied, raised, World, Operations, ControlCall,
}
use modular_discord_bot_oper.Portal.Operations.{
  Action, complete, fail, verified, begin_, take_lock, unlock, authorize,
}

-- `_resolve_cog`
unfoldable pub resolve_cog : BotDefinition → String → Action CogDefinition
resolve_cog d id = do
  require (not (ltb 64 (text_length id)) && is_cog_id id) Code.cog_not_found
  or_raise (lookup id d.cogs) Code.cog_not_found

abbrev pub is_allowed : OperationType → CogDefinition → Bool
is_allowed OperationType.cog_load cog = cog.loadable
is_allowed OperationType.cog_unload cog = cog.unloadable
is_allowed OperationType.cog_reload cog = cog.reloadable
is_allowed _ cog = false

abbrev pub not_allowed : OperationType → Code
not_allowed OperationType.cog_load = Code.cog_not_loadable
not_allowed OperationType.cog_unload = Code.cog_not_unloadable
not_allowed _ = Code.cog_not_reloadable

abbrev pub is_load : OperationType → Bool
is_load OperationType.cog_load = true
is_load _ = false

abbrev pub is_unload : OperationType → Bool
is_unload OperationType.cog_unload = true
is_unload _ = false

-- A loaded cog that depends on the given one.
abbrev pub blocks : CogDefinition → List String → CogDefinition → Bool
blocks cog loaded other = contains other.dependencies cog.cog_id && contains loaded other.extension

-- Why a cog operation may not begin, given what is loaded.
unfoldable pub cog_conflict :
    BotDefinition → CogDefinition → OperationType → List String → Option Code
cog_conflict d cog type loaded =
    if is_load type && contains loaded cog.extension
    then some Code.cog_already_loaded
    else if not (is_load type) && not (contains loaded cog.extension)
    then some Code.cog_not_loaded
    else if is_unload type && any (blocks cog loaded) (values d.cogs)
    then some Code.cog_dependency_conflict
    else none

-- The call of the adapter, which is kept, and the look at the process after it.
unfoldable pub call_cog :
    CogDefinition → ApplicationOperation → World → Operations → Reply (Unit {0}) × Operations
unfolding verified
call_cog cog op w s = (
  verified w op.process_instance_id w.done,
  record s {
    control_calls =
        s.control_calls
        ++ record {
          operation_type = op.operation_type;
          bot_id = op.bot_id;
          process_instance_id = op.process_instance_id;
          extension = cog.extension;
        }
          ∷ [];
  },
)

-- The `try` block of `_cog_operation`, after the adapter has said what is loaded.
unfoldable pub attempt_cog :
    BotDefinition
    → CogDefinition
    → ApplicationOperation
    → World
    → Reply (List String)
    → Operations
    → Reply (Unit {0}) × Operations
attempt_cog d cog op w (denied c) s = (denied c, s)
attempt_cog d cog op w raised s = (raised, s)
attempt_cog d cog op w (returned loaded) s = elim (cog_conflict d cog op.operation_type loaded) [
  | some c ↦ (denied c, s)
  | none ↦ call_cog cog op w s
]

abbrev pub succeeded_operation : ApplicationOperation → Summary → ApplicationOperation
succeeded_operation op summary = record op {
  status = Status.succeeded;
  result_summary = some summary;
}

-- How `_cog_operation` ends after its `try` block.
unfoldable pub close_cog :
    Principal
    → CogDefinition
    → ApplicationOperation
    → World
    → Reply (Unit {0})
    → Action ApplicationOperation
close_cog actor cog op w (returned _) = do
  modify (unlock op.bot_id)
  complete actor (succeeded_operation op (Summary.cog_done cog.display_name op.operation_type)) w
close_cog actor cog op w (denied c) = do
  modify (fail (some actor) op c w)
  modify (unlock op.bot_id)
  raise c
close_cog actor cog op w raised = do
  modify (fail (some actor) op Code.cog_operation_failed w)
  modify (unlock op.bot_id)
  raise Code.cog_operation_failed

-- The block that holds the lock, and what follows it.
unfoldable pub run_cog :
    Principal
    → BotDefinition
    → CogDefinition
    → World
    → ApplicationOperation
    → Action ApplicationOperation
run_cog actor d cog w op s =
    let (reply, s') = attempt_cog d cog op w w.loaded s in close_cog actor cog op w reply s'

abbrev pub begin_cog :
    Principal
    → String
    → CogDefinition
    → String
    → OperationType
    → World
    → Action ApplicationOperation
begin_cog actor bot cog request type w = begin_ actor bot request type (some cog.cog_id) false w

module _ (can : Authorizer) where
  -- `_cog_operation`
  unfoldable pub cog_operation :
      Principal
      → String
      → String
      → String
      → Capability
      → OperationType
      → World
      → Action ApplicationOperation
  cog_operation actor bot cog_id request capability type w = do
    d ← authorize can actor bot capability "cogs.manage" w
    cog ← resolve_cog d cog_id
    require (is_allowed type cog) (not_allowed type)
    op ← begin_cog actor bot cog request type w
    op' ← take_lock op w
    run_cog actor d cog w op'

  unfoldable pub load_cog :
      Principal → String → String → String → World → Action ApplicationOperation
  load_cog actor bot cog request w =
      cog_operation actor bot cog request Capability.cogs_load OperationType.cog_load w

  unfoldable pub unload_cog :
      Principal → String → String → String → World → Action ApplicationOperation
  unload_cog actor bot cog request w =
      cog_operation actor bot cog request Capability.cogs_unload OperationType.cog_unload w

  unfoldable pub reload_cog :
      Principal → String → String → String → World → Action ApplicationOperation
  reload_cog actor bot cog request w =
      cog_operation actor bot cog request Capability.cogs_reload OperationType.cog_reload w

-- How `sync_commands` ends: an error of the second look at the process passes through unrecorded.
unfoldable pub close_sync :
    Principal → BotDefinition → ApplicationOperation → World → Reply ℤ → Action ApplicationOperation
close_sync actor d op w (returned count) = do
  modify (unlock op.bot_id)
  complete actor
      (succeeded_operation op (
        Summary.synchronized (elim count [ pos n ↦ pos n | negsuc n ↦ pos 0 ])
          (elim d.command_scope [
            | none ↦ "configured"
            | some scope ↦ if str_eq scope "" then "configured" else scope
          ])))
      w
close_sync actor d op w (denied c) = do modify (unlock op.bot_id); raise c
close_sync actor d op w raised = do
  modify (fail (some actor) op Code.command_sync_failed w)
  modify (unlock op.bot_id)
  raise Code.command_sync_failed

-- How `_set_maintenance` ends.
unfoldable pub close_maintenance :
    Principal → Bool → ApplicationOperation → World → Reply (Unit {0}) → Action ApplicationOperation
close_maintenance actor enabled op w (returned _) = do
  modify (unlock op.bot_id)
  complete actor (succeeded_operation op (Summary.maintenance enabled)) w
close_maintenance actor enabled op w (denied c) = do modify (unlock op.bot_id); raise c
close_maintenance actor enabled op w raised = do
  modify (fail (some actor) op Code.management_channel_unavailable w)
  modify (unlock op.bot_id)
  raise Code.management_channel_unavailable

abbrev pub maintenance_type : Bool → OperationType
maintenance_type true = OperationType.maintenance_enable
maintenance_type false = OperationType.maintenance_disable

abbrev pub maintenance_capability : Bool → Capability
maintenance_capability true = Capability.maintenance_enable
maintenance_capability false = Capability.maintenance_disable

module _ (can : Authorizer) where
  unfoldable pub sync_commands : Principal → String → String → World → Action ApplicationOperation
  sync_commands actor bot request w = do
    d ← authorize can actor bot Capability.commands_sync "commands.sync" w
    op ← begin_ actor bot request OperationType.commands_sync none true w
    op' ← take_lock op w
    close_sync actor d op' w (verified w op'.process_instance_id w.command_count)

  -- `_set_maintenance`
  unfoldable pub set_maintenance :
      Principal → String → String → Bool → World → Action ApplicationOperation
  set_maintenance actor bot request enabled w = do
    d ← authorize can actor bot (maintenance_capability enabled) "maintenance.manage" w
    op ← begin_ actor bot request (maintenance_type enabled) none false w
    op' ← take_lock op w
    close_maintenance actor enabled op' w (verified w op'.process_instance_id w.done)

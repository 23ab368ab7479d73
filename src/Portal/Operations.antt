-- ===== src/Portal/Operations.antt =====
-- `BotOperationService` of portal/bot_operations.py: the checks before an operation, its record, and
-- the operations on cogs, commands and maintenance. Operations of one bot are serialized by its lock;
-- what else happens while one waits is its `World`.
pub mod Model
pub mod Control
use modular_discord_bot_oper.Common.{
  ℕ, String, Bool, true, false, Option, none, some, List, [], ◌∷◌, ◌++◌, ◌&&◌, ◌||◌, not, ltb, any,
  select, take, length, str_eq, is_some, if◌then◌else◌, Exec, Result, ok, err, pure, raise, gets,
  modify, require, or_raise, ◌>>=◌, ◌>>◌,
}
use modular_discord_bot_oper.Common.Dict.{lookup, insert, values}
use modular_discord_bot_oper.Common.Json.{ℤ, pos, negsuc}
use modular_discord_bot_oper.Common.Text.{text_length, is_cog_id}
use modular_discord_bot_oper.Supervisor.Models.{ProcessState}
use modular_discord_bot_oper.Supervisor.Health.Reconcile.{HealthEvidence}
use modular_discord_bot_oper.Supervisor.Health.Store.{HealthSnapshot}
use modular_discord_bot_oper.Portal.Authorization.{Principal, Authorizer, contains}
use modular_discord_bot_oper.Portal.Operations.Model
use modular_discord_bot_oper.Portal.Operations.Model.{
  Capability, OperationType, Status, Code, CogDefinition, BotDefinition, ApplicationOperation,
  AuditResult, Reply, returned, denied, raised, World, Operations, supports,
}

abbrev pub Action : Type 0 → Type 0
Action A = Exec Operations Code A

abbrev pub put : ApplicationOperation → Operations → Operations
put op s = record s { operations = insert op.operation_id op s.operations }

-- `_emit`: an event only if there is an actor
unfoldable pub emit :
    Option Principal → ApplicationOperation → AuditResult → Operations → Operations
emit none op result s = s
emit (some actor) op result s = record s {
  audit =
      s.audit
      ++ record {
        operation_type = op.operation_type;
        request_id = op.request_id;
        actor = actor.principal_id;
        bot_id = op.bot_id;
        operation_id = op.operation_id;
        result = result;
        cog_id = op.cog_id;
      }
        ∷ [];
}

-- The operation as `_complete` leaves it.
abbrev pub completed_operation : ApplicationOperation → World → ApplicationOperation
completed_operation op w = record op { completed_at = some w.completed_at }

unfoldable pub complete : Principal → ApplicationOperation → World → Action ApplicationOperation
complete actor op w = do
  modify (put (completed_operation op w))
  modify (emit (some actor) op (AuditResult.completed op.status))
  pure (completed_operation op w)

-- The operation as `_fail` leaves it.
abbrev pub failed_operation : ApplicationOperation → Code → World → ApplicationOperation
failed_operation op code w = record op {
  status = Status.failed;
  error_code = some code;
  completed_at = some w.completed_at;
}

unfoldable pub fail :
    Option Principal → ApplicationOperation → Code → World → Operations → Operations
unfolding emit
fail actor op code w s =
    emit actor (failed_operation op code w) (AuditResult.refused code)
      (put (failed_operation op code w) s)

abbrev pub is_running : ProcessState → Bool
is_running ProcessState.running = true
is_running _ = false

abbrev pub is_changing : ProcessState → Bool
is_changing ProcessState.starting = true
is_changing ProcessState.stopping = true
is_changing ProcessState.restarting = true
is_changing _ = false

-- `heartbeat and heartbeat.discord_ready`
abbrev pub reports_ready : HealthEvidence → Bool
reports_ready e = elim e.heartbeat [ none ↦ false | some h ↦ h.discord_ready ]

-- The evidence under which `_prerequisites` goes on, and the instance that it shows.
unfoldable pub ready_instance : Bool → Option HealthSnapshot → Option String
ready_instance ready none = none
ready_instance ready (some h) =
    if not h.evidence.process_running
      || not h.evidence.identity_verified
      || (ready && (not h.is_fresh || not (reports_ready h.evidence)))
    then none
    else elim h.evidence.process_instance_id [
      | none ↦ none
      | some i ↦ if str_eq i "" then none else some i
    ]

abbrev pub is_instance : Option String → String → Bool
is_instance none i = false
is_instance (some j) i = str_eq j i

-- `_prerequisites`
unfoldable pub prerequisites : Bool → World → Action String
prerequisites ready w = do
  require (is_running w.state)
      (if is_changing w.state then Code.lifecycle_operation_in_progress else Code.bot_not_running)
  instance_id ← or_raise (ready_instance ready w.snapshot) Code.bot_not_ready
  require (is_instance w.process instance_id) Code.process_instance_changed
  pure instance_id

-- The record that `_begin` makes.
abbrev pub new_operation :
    String → String → OperationType → Option String → World → String → ApplicationOperation
new_operation bot request type cog w instance_id = record {
  operation_id = w.operation_id;
  request_id = request;
  bot_id = bot;
  process_instance_id = instance_id;
  operation_type = type;
  requested_at = w.requested_at;
  status = Status.requested;
  started_at = none;
  completed_at = none;
  cog_id = cog;
  result_summary = none;
  error_code = none;
}

-- `_operations[...] = operation` and `_history.append(...)`, whose deque drops the oldest
unfoldable pub register : Principal → ApplicationOperation → Operations → Operations
unfolding emit
register actor op s =
    emit (some actor) op AuditResult.asked
      (record (put op s) { history = take s.history_limit (op.operation_id ∷ s.history) })

unfoldable pub begin_ :
    Principal
    → String
    → String
    → OperationType
    → Option String
    → Bool
    → World
    → Action ApplicationOperation
begin_ actor bot request type cog ready w = do
  instance_id ← prerequisites ready w
  modify (register actor (new_operation bot request type cog w instance_id))
  pure (new_operation bot request type cog w instance_id)

abbrev pub running_operation : ApplicationOperation → World → ApplicationOperation
running_operation op w = record op { status = Status.running; started_at = some w.started_at }

-- `_lock`, and entering the block that it guards
unfoldable pub take_lock : ApplicationOperation → World → Action ApplicationOperation
take_lock op w s =
    if contains s.locked op.bot_id
    then (err Code.operation_in_progress, fail none op Code.operation_in_progress w s)
    else (
      ok (running_operation op w),
      put (running_operation op w) (record s { locked = op.bot_id ∷ s.locked }),
    )

-- leaving the block
abbrev pub unlock : String → Operations → Operations
unlock bot s = record s { locked = select (λ b. not (str_eq b bot)) s.locked }

-- `_verify_instance` after a call that returned
unfoldable pub verified : {A : Type 0} → World → String → Reply A → Reply A
verified w i (returned a) =
    if is_instance w.process_after i && is_running w.state_after
    then returned a
    else denied Code.process_instance_changed
verified w i (denied c) = denied c
verified w i raised = raised

module _ (can : Authorizer) where
  -- `_authorize`, with `_definition`
  unfoldable pub authorize : Principal → String → Capability → String → World → Action BotDefinition
  authorize actor bot capability permission w = do
    found ← gets (λ s. lookup bot s.catalog)
    definition ← or_raise (if ltb 64 (text_length bot) then none else found) Code.unknown_bot
    require w.registered Code.unknown_bot
    require (can actor permission (some bot)) Code.permission_denied
    require (supports definition capability) Code.capability_not_supported
    pure definition

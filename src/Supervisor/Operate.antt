-- ===== src/Supervisor/Operate.antt =====
-- `_operate`, and `start`, `stop` and `restart`, of supervisor/service.py.
pub mod Outcome
use modular_discord_bot_oper.Common.{
  ℕ, ◌+◌, String, Bool, true, false, Option, none, some, List, [], ◌∷◌, ◌++◌, map, not, ◌==◌, ◌&&◌,
  ◌||◌, if◌then◌else◌, any, str_eq, is_some, Exec, Result, ok, err, pure, raise, gets, modify,
  require, or_raise, ◌>>=◌, ◌>>◌,
}
use modular_discord_bot_oper.Common.Dict.{Dict, lookup, insert, erase, values}
use modular_discord_bot_oper.Common.Json.{ℤ}
use modular_discord_bot_oper.Supervisor.Models
use modular_discord_bot_oper.Supervisor.Models.{
  ProcessState, LifecycleAction, OperationStatus, OperationRecord, ProcessRecord, RegisteredBot,
  Identity, Error, startup_failed, bot_disabled, process_identity, os_error, already_stopped,
  already_running, timeout, supervisor_closed, operation_in_progress, unknown_bot,
}
use modular_discord_bot_oper.Supervisor.Health.{DesiredState, HealthEvidence}
use modular_discord_bot_oper.Supervisor.Health.Store.{Readings}
use modular_discord_bot_oper.Supervisor.Process
use modular_discord_bot_oper.Supervisor.Process.{
  Service, SavedRecord, decode, set_object, bind_new, persist, emit, perform, report, evidence,
  process_state, Exit, exits, EventKind, Effect,
}
use modular_discord_bot_oper.Supervisor.Lifecycle.{Action, update, with_state, matches}
use modular_discord_bot_oper.Supervisor.Start.{StartWorld, start_locked}
use modular_discord_bot_oper.Supervisor.Stop.{StopWorld, stop_locked, restart_locked}

-- Times and the identifier that `_operate` takes.
pub record Stamps : Type 0 where
  pub operation_id : String
  pub requested_at : ℕ
  pub started_at : ℕ
  pub completed_at : ℕ

-- `except SupervisorError` names every error of the service, and none of Python's own.
abbrev pub is_supervisor_error : Error → Bool
is_supervisor_error timeout = false
is_supervisor_error os_error = false
is_supervisor_error _ = true

abbrev pub audit_of :
    EventKind → OperationRecord → Option String → Option Error → Process.AuditEvent
audit_of kind op instance_id error = record {
  kind = kind;
  bot_id = op.bot_id;
  operation_id = some op.operation_id;
  process_instance_id = instance_id;
  actor = op.actor;
  error_category = error;
}

abbrev pub put_operation : OperationRecord → Service → Service
put_operation op s = record s { operations = insert op.operation_id op s.operations }

pub record LifecycleResult : Type 0 where
  pub operation : OperationRecord
  pub previous_state : ProcessState
  pub current_state : ProcessState
  pub process_instance_id : Option String

-- The `try` statement of `_operate`, after the implementation has ended; the lock is released.
unfoldable pub conclude :
    RegisteredBot
    → OperationRecord
    → ProcessState
    → Stamps
    → Result Error (Option String)
    → Service
    → Result Error LifecycleResult × Service
conclude bot op previous t (ok instance_id) s =
    let done : OperationRecord = record op {
      status = OperationStatus.succeeded;
      completed_at = some t.completed_at;
    } in
    (
      ok (record {
        operation = done;
        previous_state = previous;
        current_state = process_state bot s;
        process_instance_id = instance_id;
      }),
      put_operation done (
          emit (audit_of (EventKind.succeeded op.action) op instance_id none)
            (record s { locked = erase op.bot_id s.locked })),
    )
conclude bot op previous t (err e) s =
    let ended : OperationRecord = record op { completed_at = some t.completed_at } in
    let refused : OperationRecord = record ended {
      status = OperationStatus.failed;
      error_category = some e;
    } in
    let free : Service = record s { locked = erase op.bot_id s.locked } in
    (
      err e,
      (if is_supervisor_error e
          then put_operation refused
              (emit (audit_of (EventKind.failed op.action) op none (some e)) free)
          else put_operation ended free),
    )

-- The operation as `_operate` records it when it holds the lock.
abbrev pub running_operation : String → LifecycleAction → Option String → Stamps → OperationRecord
running_operation bot action actor t = record {
  operation_id = t.operation_id;
  bot_id = bot;
  action = action;
  requested_at = t.requested_at;
  status = OperationStatus.running;
  started_at = some t.started_at;
  completed_at = none;
  error_category = none;
  actor = actor;
}

abbrev pub Implementation : Type 0
Implementation = RegisteredBot → Action (Option String)

-- `_operate` on a registered bot whose lock is free
unfoldable pub run_operation :
    RegisteredBot
    → LifecycleAction
    → Option String
    → Stamps
    → Implementation
    → Action LifecycleResult
unfolding conclude
run_operation bot action actor t implementation s =
    let op = running_operation bot.bot_id action actor t in
    let s' : Service =
      emit (audit_of (EventKind.requested action) op none none)
        (put_operation op (record s { locked = insert bot.bot_id tt s.locked })) in
    let (r, s'') = implementation bot s' in conclude bot op (process_state bot s) t r s''

unfoldable pub operate :
    String → LifecycleAction → Option String → Stamps → Implementation → Action LifecycleResult
unfolding run_operation
operate bot_id action actor t implementation s =
    if not s.is_accepting then (err supervisor_closed, s) else elim (lookup bot_id s.registry) [
      | none ↦ (err unknown_bot, s)
      | some bot ↦
          if is_some (lookup bot_id s.locked)
          then (err operation_in_progress, s)
          else run_operation bot action actor t implementation s
    ]

abbrev pub with_id : Action String → Action (Option String)
with_id m = do i ← m; pure (some i)

unfoldable pub start : String → Option String → Stamps → StartWorld → Action LifecycleResult
unfolding operate start_locked
start bot actor t w = operate bot LifecycleAction.start actor t (λ b. with_id (start_locked w b))

unfoldable pub stop : String → Option String → Stamps → StopWorld → Action LifecycleResult
unfolding operate stop_locked
stop bot actor t w = operate bot LifecycleAction.stop actor t (stop_locked w)

unfoldable pub restart :
    String → Option String → Stamps → StopWorld → StartWorld → Action LifecycleResult
unfolding operate restart_locked
restart bot actor t w w' =
    operate bot LifecycleAction.restart actor t (λ b. with_id (restart_locked w w' b))

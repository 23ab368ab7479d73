-- ===== src/Supervisor/Operate/Outcome.antt =====
-- How `_operate` of supervisor/service.py ends, whatever the implementation does.
use modular_discord_bot_oper.Common.{
  String, true, false, Option, none, some, ◌≡◌, inl, inr, arith, Result, ok, err, refl, Bool-cases,
  eq_refl,
}
use modular_discord_bot_oper.Common.Dict.{Dict, lookup, erase, lookup-erase, lookup-insert_self}
use modular_discord_bot_oper.Supervisor.Models.{
  ProcessState, RegisteredBot, Error, OperationRecord, OperationStatus, LifecycleAction,
  operation_in_progress,
}
use modular_discord_bot_oper.Supervisor.Process.{Service, emit, process_state}
use modular_discord_bot_oper.Supervisor.Operate.{
  Stamps, Implementation, LifecycleResult, conclude, run_operation, operate, is_supervisor_error,
  running_operation,
}

-- How an operation's own record ends, by the result of its call.
abbrev pub IsRecorded : Stamps → Result Error LifecycleResult → OperationRecord → Type 0
IsRecorded t (ok r) op =
    (op.status ≡ OperationStatus.succeeded)
    × (op.completed_at ≡ some t.completed_at)
    × (r.operation ≡ op)
IsRecorded t (err e) op =
    (op.completed_at ≡ some t.completed_at)
    × (is_supervisor_error e ≡ true
        → (op.status ≡ OperationStatus.failed) × (op.error_category ≡ some e))
    × (is_supervisor_error e ≡ false
        → (op.status ≡ OperationStatus.running) × (op.error_category ≡ none))

-- What an operation leaves: a free lock, and its own record closed.
pub record IsClosed (bot_id : String) (t : Stamps) (r : Result Error LifecycleResult) (s : Service)
    : Type 0 where
  pub lock_free : lookup bot_id s.locked ≡ none
  pub recorded :
      (op : OperationRecord) × (lookup t.operation_id s.operations ≡ some op)
      × (op.bot_id ≡ bot_id)
      × IsRecorded t r op

lookup-erase_self : {V : Type 0} (k : String) (d : Dict V) → lookup k (erase k d) ≡ none
lookup-erase_self k d = ground (arith, lookup-erase k k d, eq_refl k)

conclude-IsClosed :
    (bot : RegisteredBot) (op : OperationRecord) (previous : ProcessState) (t : Stamps)
    (r : Result Error (Option String)) (s : Service)
    → op.operation_id ≡ t.operation_id
    → op.status ≡ OperationStatus.running
    → op.error_category ≡ none
    → IsClosed op.bot_id t (conclude bot op previous t r s).0 (conclude bot op previous t r s).1
unfolding conclude emit
conclude-IsClosed bot op previous t (ok i) s same running clear = record {
  lock_free = lookup-erase_self op.bot_id s.locked;
  recorded = (
    record op { status = OperationStatus.succeeded; completed_at = some t.completed_at },
    rw same (lookup-insert_self t.operation_id _ s.operations),
    refl,
    (refl, refl, refl),
  );
}
conclude-IsClosed bot op previous t (err e) s same running clear =
    elim (Bool-cases (is_supervisor_error e)) [
      | inl known ↦ rw known (record {
        lock_free = lookup-erase_self op.bot_id s.locked;
        recorded = (
          record op {
            status = OperationStatus.failed;
            error_category = some e;
            completed_at = some t.completed_at;
          },
          rw same (lookup-insert_self t.operation_id _ s.operations),
          refl,
          (refl, (λ _. (refl, refl)), λ other. cc),
        );
      })
      | inr foreign ↦ rw foreign (record {
        lock_free = lookup-erase_self op.bot_id s.locked;
        recorded = (
          record op { completed_at = some t.completed_at },
          rw same (lookup-insert_self t.operation_id _ s.operations),
          refl,
          (refl, (λ known. cc), λ _. (running, clear)),
        );
      })
    ]

-- An operation on a registered bot whose lock is free ends, whatever its implementation does, with
-- the lock free and its own record completed: it succeeded, or failed with the category of a
-- supervisor error; after any other exception the record still says running.
pub operate-IsClosed :
    (bot_id : String) (bot : RegisteredBot) (action : LifecycleAction) (actor : Option String)
    (t : Stamps) (implementation : Implementation) (s : Service)
    → s.is_accepting ≡ true
    → lookup bot_id s.registry ≡ some bot
    → bot.bot_id ≡ bot_id
    → lookup bot_id s.locked ≡ none
    → IsClosed bot_id t
        (operate bot_id action actor t implementation s).0
        (operate bot_id action actor t implementation s).1
unfolding operate run_operation
operate-IsClosed bot_id bot action actor t implementation s open_ found named free =
    rw (open_, found, free, ← named)
      (conclude-IsClosed bot (running_operation bot.bot_id action actor t) (process_state bot s) t _
        _ refl refl refl)

-- While a bot's lock is held, any other operation on it is refused and changes nothing.
operate-busy :
    (bot_id : String) (bot : RegisteredBot) (action : LifecycleAction) (actor : Option String)
    (t : Stamps) (implementation : Implementation) (s : Service) {u : Unit {0}}
    → s.is_accepting ≡ true
    → lookup bot_id s.registry ≡ some bot
    → lookup bot_id s.locked ≡ some u
    → operate bot_id action actor t implementation s ≡ (err operation_in_progress, s)
unfolding operate
operate-busy bot_id bot action actor t implementation s open_ found held = simp (open_, found, held)

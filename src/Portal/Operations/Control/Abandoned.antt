-- ===== src/Portal/Operations/Control/Abandoned.antt =====
-- How a synchronization of commands and a switch of maintenance (portal/bot_operations.py) end.
use modular_discord_bot_oper.Common.{
  str_eq, sym, ◌&&◌, String, Bool, true, false, none, some, ◌≡◌, refl, ◌∙◌, ◌⊎◌, inl, inr, Result,
  err, Bool-cases, if◌then◌else◌, ◌>>=◌, bind_ok, bind_err,
}
use modular_discord_bot_oper.Common.Dict.{lookup, lookup-insert_self}
use modular_discord_bot_oper.Portal.Authorization.{Principal, Authorizer, contains}
use modular_discord_bot_oper.Portal.Locks.{unlock-lock}
use modular_discord_bot_oper.Portal.Operations.Model.{
  Capability, OperationType, Status, Code, Summary, BotDefinition, ApplicationOperation, Reply,
  returned, denied, raised, World, Operations,
}
use modular_discord_bot_oper.Portal.Operations.{
  Action, complete, fail, emit, begin_, take_lock, unlock, authorize, register, running_operation,
  completed_operation, failed_operation,
}
use modular_discord_bot_oper.Portal.Operations.Control.{succeeded_operation}
use modular_discord_bot_oper.Portal.Operations.Control.Steps.{
  authorize-cases, begin_-cases, begun_operation, begun, locked_state, take_lock-free,
  take_lock-busy,
}
use modular_discord_bot_oper.Common.Json.{ℤ, pos, negsuc}
use modular_discord_bot_oper.Portal.Operations.{verified, is_instance, is_running}
use modular_discord_bot_oper.Portal.Operations.Control.{
  close_sync, sync_commands, close_maintenance, set_maintenance, maintenance_type,
  maintenance_capability,
}
use modular_discord_bot_oper.Portal.Operations.Control.Outcome.{IsRecorded}

denied_same : {A : Type 0} {c d : Code} → ◌≡◌ {A = Reply A} (denied c) (denied d) → c ≡ d
denied_same e = cc e

-- Why a call is refused with `c`: its adapter says so; or it returned, and the look at the process
-- after it finds that the process is another one or does not run.
abbrev pub IsDenied : {A : Type 0} → World → Reply A → String → Code → Type 0
IsDenied {A} w reply i c =
    (reply ≡ denied c)
    ⊎ (((a : A) × (reply ≡ returned a))
        × ((is_instance w.process_after i && is_running w.state_after) ≡ false)
        × (c ≡ Code.process_instance_changed))

verified-IsDenied :
    {A : Type 0} (w : World) (i : String) (reply : Reply A) {c : Code}
    → verified w i reply ≡ denied c
    → IsDenied w reply i c
unfolding verified
verified-IsDenied w i (returned a) {c} e =
    elim (Bool-cases (is_instance w.process_after i && is_running w.state_after)) [
      | inl same ↦ absurd (cc (rw same at e))
      | inr other ↦ inr ((a, refl), other, denied_same (sym (rw other at e)))
    ]
verified-IsDenied w i (denied c) e = inl e
verified-IsDenied w i raised e = absurd (cc e)

-- An operation that raised `c` with its record still running and not complete, where its call was
-- refused with `c`.
abbrev pub IsAbandoned :
    {A : Type 0} → World → Reply A → Result Code ApplicationOperation → Operations → Type 0
IsAbandoned w reply r s =
    (op : ApplicationOperation) × (c : Code) × (lookup w.operation_id s.operations ≡ some op)
    × (op.status ≡ Status.running)
    × (op.completed_at ≡ none)
    × (r ≡ err c)
    × IsDenied w reply op.process_instance_id c

-- How an operation ends that does not record every error.
pub record IsLeft {A : Type 0} (w : World) (reply : Reply A) (s : Operations)
    (r : Result Code ApplicationOperation) (s' : Operations) : Type 0 where
  pub outcome :
      ((e : Code) × (r ≡ err e) × (s' ≡ s)) ⊎ (IsRecorded w r s' ⊎ IsAbandoned w reply r s')
  pub same_locks : s'.locked ≡ s.locked

-- The block that holds the lock ends with the record complete or abandoned, and the lock free.
pub record IsFinished {A : Type 0} (w : World) (reply : Reply A) (bot : String) (s : Operations)
    (r : Result Code ApplicationOperation) (s' : Operations) : Type 0 where
  pub outcome : IsRecorded w r s' ⊎ IsAbandoned w reply r s'
  pub freed : s'.locked ≡ (unlock bot s).locked

module _ {A : Type 0} (actor : Principal) (bot request : String) (type : OperationType)
    (ready : Bool) (w : World) (reply : Reply A)
    (finish : ApplicationOperation → Action ApplicationOperation) (s : Operations)
    (finishes : (i : String)
      → IsFinished w reply bot
          (locked_state actor bot request type none w s i)
          (finish
            (running_operation (begun_operation actor bot request type none w s i) w)
            (locked_state actor bot request type none w s i)).0
          (finish
            (running_operation (begun_operation actor bot request type none w s i) w)
            (locked_state actor bot request type none w s i)).1) where
  abbrev op_of : String → ApplicationOperation
  op_of i = begun_operation actor bot request type none w s i

  abbrev begun_of : String → Operations
  begun_of i = begun actor bot request type none w s i

  busy-IsLeft :
      (i : String)
      → IsLeft w reply s
          (err Code.operation_in_progress)
          (fail none (op_of i) Code.operation_in_progress w (begun_of i))
  unfolding fail register emit
  busy-IsLeft i = record {
    outcome = inr (
        inl (
          failed_operation (op_of i) Code.operation_in_progress w,
          lookup-insert_self w.operation_id _ _,
          refl,
          (refl, refl),
        ));
    same_locks = refl;
  }

  free-IsLeft :
      (i : String)
      → contains s.locked bot ≡ false
      → IsLeft w reply s
          (finish
            (running_operation (op_of i) w)
            (locked_state actor bot request type none w s i)).0
          (finish
            (running_operation (op_of i) w)
            (locked_state actor bot request type none w s i)).1
  unfolding register emit
  free-IsLeft i free =
      let h = finishes i in
      record { outcome = inr h.outcome; same_locks = h.freed ∙ unlock-lock bot s.locked free }

  abbrev locked_part : ApplicationOperation → Action ApplicationOperation
  locked_part op = take_lock op w >>= finish

  -- From `_begin` on.
  begun-IsLeft :
      IsLeft w reply s
        ((begin_ actor bot request type none ready w >>= locked_part) s).0
        ((begin_ actor bot request type none ready w >>= locked_part) s).1
  begun-IsLeft = elim (begin_-cases actor bot request type none ready w s) [
    | inl (e, refused) ↦
        rw (bind_err (begin_ actor bot request type none ready w) locked_part refused)
          (record { outcome = inl (e, refl, refl); same_locks = refl })
    | inr (i, started, _, _, _) ↦
        rw (bind_ok (begin_ actor bot request type none ready w) locked_part started)
          (elim (Bool-cases (contains s.locked bot)) [
            | inl busy ↦
                rw
                  (bind_err (take_lock (op_of i) w) finish
                    (take_lock-busy actor bot request type none w s i busy))
                  (busy-IsLeft i)
            | inr free ↦
                rw
                  (bind_ok (take_lock (op_of i) w) finish
                    (take_lock-free actor bot request type none w s i free))
                  (free-IsLeft i free)
          ])
  ]

-- What `sync_commands` does with the reply.
close_sync-IsFinished :
    (actor : Principal) (d : BotDefinition) (op : ApplicationOperation) (w : World)
    (reply : Reply ℤ) (s : Operations) (answer : Reply ℤ)
    → op.operation_id ≡ w.operation_id
    → op.status ≡ Status.running
    → op.completed_at ≡ none
    → lookup w.operation_id s.operations ≡ some op
    → verified w op.process_instance_id reply ≡ answer
    → IsFinished w reply op.bot_id s
        (close_sync actor d op w answer s).0
        (close_sync actor d op w answer s).1
unfolding close_sync complete fail emit
close_sync-IsFinished actor d op w reply s (returned n) named running fresh stored e = record {
  outcome = inl (
    completed_operation
        (succeeded_operation op (
          Summary.synchronized (elim n [ pos k ↦ pos k | negsuc k ↦ pos 0 ])
            (elim d.command_scope [
              | none ↦ "configured"
              | some scope ↦ if str_eq scope "" then "configured" else scope
            ])))
        w,
    rw named (lookup-insert_self w.operation_id _ s.operations),
    refl,
    (refl, refl),
  );
  freed = refl;
}
close_sync-IsFinished actor d op w reply s (denied c) named running fresh stored e = record {
  outcome =
      inr (op, c, stored, running, fresh, refl, verified-IsDenied w op.process_instance_id reply e);
  freed = refl;
}
close_sync-IsFinished actor d op w reply s raised named running fresh stored e = record {
  outcome = inl (
    failed_operation op Code.command_sync_failed w,
    rw named (lookup-insert_self w.operation_id _ s.operations),
    refl,
    (refl, refl),
  );
  freed = refl;
}

-- Whatever is answered, a synchronization of commands ends in one of three ways: it was refused
-- before it was recorded and changed nothing; its record is complete, succeeded or failed with the
-- code that is raised; or the call was refused by the adapter, or by the look at the process after
-- it, that error is raised, and the record is left running and not complete. The locks are as they were before.
pub sync_commands-IsLeft :
    (can : Authorizer) (actor : Principal) (bot request : String) (w : World) (s : Operations)
    → IsLeft w w.command_count s
        (sync_commands can actor bot request w s).0
        (sync_commands can actor bot request w s).1
unfolding sync_commands
sync_commands-IsLeft can actor bot request w s =
    elim (authorize-cases can actor bot Capability.commands_sync "commands.sync" w s) [
      | inl (e, refused) ↦
          rw
            (bind_err (authorize can actor bot Capability.commands_sync "commands.sync" w)
              (λ d. begin_ actor bot request OperationType.commands_sync none true w >>= λ op.
                take_lock op w >>= close_of d)
              refused)
            (record { outcome = inl (e, refl, refl); same_locks = refl })
      | inr (d, passed, _, _, _, _) ↦
          rw
            (bind_ok (authorize can actor bot Capability.commands_sync "commands.sync" w)
              (λ d. begin_ actor bot request OperationType.commands_sync none true w >>= λ op.
                take_lock op w >>= close_of d)
              passed)
            (begun-IsLeft actor bot request OperationType.commands_sync true w w.command_count
              (close_of d) s
              (λ i.
                close_sync-IsFinished actor d
                  (running_operation
                    (begun_operation actor bot request OperationType.commands_sync none w s i) w)
                  w w.command_count
                  (locked_state actor bot request OperationType.commands_sync none w s i) _ refl
                  refl refl (lookup-insert_self w.operation_id _ _) refl))
    ]
  where
    close_of : BotDefinition → ApplicationOperation → Action ApplicationOperation
    close_of d op = close_sync actor d op w (verified w op.process_instance_id w.command_count)

-- What `_set_maintenance` does with the reply.
close_maintenance-IsFinished :
    (actor : Principal) (enabled : Bool) (op : ApplicationOperation) (w : World)
    (reply : Reply (Unit {0})) (s : Operations) (answer : Reply (Unit {0}))
    → op.operation_id ≡ w.operation_id
    → op.status ≡ Status.running
    → op.completed_at ≡ none
    → lookup w.operation_id s.operations ≡ some op
    → verified w op.process_instance_id reply ≡ answer
    → IsFinished w reply op.bot_id s
        (close_maintenance actor enabled op w answer s).0
        (close_maintenance actor enabled op w answer s).1
unfolding close_maintenance complete fail emit
close_maintenance-IsFinished actor enabled op w reply s (returned u) named running fresh stored e =
    record {
      outcome = inl (
        completed_operation (succeeded_operation op (Summary.maintenance enabled)) w,
        rw named (lookup-insert_self w.operation_id _ s.operations),
        refl,
        (refl, refl),
      );
      freed = refl;
    }
close_maintenance-IsFinished actor enabled op w reply s (denied c) named running fresh stored e =
    record {
      outcome =
          inr (
            op,
            c,
            stored,
            running,
            fresh,
            refl,
            verified-IsDenied w op.process_instance_id reply e,
          );
      freed = refl;
    }
close_maintenance-IsFinished actor enabled op w reply s raised named running fresh stored e =
    record {
      outcome = inl (
        failed_operation op Code.management_channel_unavailable w,
        rw named (lookup-insert_self w.operation_id _ s.operations),
        refl,
        (refl, refl),
      );
      freed = refl;
    }

-- A switch of maintenance ends in the same three ways as a synchronization of commands: refused with
-- nothing changed, complete, or abandoned with its record running and the error raised. The locks
-- are as they were before.
pub set_maintenance-IsLeft :
    (can : Authorizer) (actor : Principal) (bot request : String) (enabled : Bool) (w : World)
    (s : Operations)
    → IsLeft w w.done s
        (set_maintenance can actor bot request enabled w s).0
        (set_maintenance can actor bot request enabled w s).1
unfolding set_maintenance
set_maintenance-IsLeft can actor bot request enabled w s =
    elim (authorize-cases can actor bot (maintenance_capability enabled) "maintenance.manage" w s) [
      | inl (e, refused) ↦
          rw (bind_err allow after refused)
            (record { outcome = inl (e, refl, refl); same_locks = refl })
      | inr (d, passed, _, _, _, _) ↦ rw (bind_ok allow after passed) (
          begun-IsLeft actor bot request (maintenance_type enabled) false w w.done close_of s (λ i.
            close_maintenance-IsFinished actor enabled
              (running_operation
                (begun_operation actor bot request (maintenance_type enabled) none w s i) w)
              w w.done (locked_state actor bot request (maintenance_type enabled) none w s i) _ refl
              refl refl (lookup-insert_self w.operation_id _ _) refl))
    ]
  where
    close_of : ApplicationOperation → Action ApplicationOperation
    close_of op = close_maintenance actor enabled op w (verified w op.process_instance_id w.done)

    allow : Action BotDefinition
    allow = authorize can actor bot (maintenance_capability enabled) "maintenance.manage" w

    after : BotDefinition → Action ApplicationOperation
    after d = begin_ actor bot request (maintenance_type enabled) none false w >>= λ op.
        take_lock op w >>= close_of

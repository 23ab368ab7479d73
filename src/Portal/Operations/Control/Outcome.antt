-- ===== src/Portal/Operations/Control/Outcome.antt =====
-- How an operation on a cog (portal/bot_operations.py) ends, and what it asks of the bot.
use modular_discord_bot_oper.Common.{
  String, true, false, none, some, List, [], ◌∷◌, ◌++◌, ◌≡◌, refl, ap, ◌∙◌, ◌⊎◌, inl, inr, Result,
  ok, err, Bool-cases, Option-cases, ◌>>=◌, ◌>>◌, bind_ok, bind_err, require,
}
use modular_discord_bot_oper.Common.Dict.{lookup, lookup-insert_self}
use modular_discord_bot_oper.Portal.Authorization.{Principal, Authorizer, contains}
use modular_discord_bot_oper.Portal.Locks.{unlock-lock}
use modular_discord_bot_oper.Portal.Operations.Model.{
  Capability, OperationType, Status, Code, Summary, CogDefinition, BotDefinition,
  ApplicationOperation, Reply, returned, denied, raised, World, Operations, ControlCall, supports,
}
use modular_discord_bot_oper.Portal.Operations.{
  Action, complete, fail, emit, take_lock, unlock, authorize, register, ready_instance, is_running,
  running_operation, is_instance, completed_operation, failed_operation,
}
use modular_discord_bot_oper.Portal.Operations.Control.{
  resolve_cog, is_allowed, not_allowed, attempt_cog, call_cog, cog_conflict, close_cog, run_cog,
  begin_cog, cog_operation, succeeded_operation,
}
use modular_discord_bot_oper.Portal.Operations.Control.Steps.{
  authorize-cases, resolve_cog-cases, begin_-cases, begun_operation, begun, locked_state,
  take_lock-free, take_lock-busy,
}

-- An operation's own record, by the result of its call.
abbrev pub HasResult : Result Code ApplicationOperation → ApplicationOperation → Type 0
HasResult (ok op') op = (op' ≡ op) × (op.status ≡ Status.succeeded)
HasResult (err e) op = (op.status ≡ Status.failed) × (op.error_code ≡ some e)

-- The record of the operation that is in the table under its id is complete.
abbrev pub IsRecorded : World → Result Code ApplicationOperation → Operations → Type 0
IsRecorded w r s =
    (op : ApplicationOperation) × (lookup w.operation_id s.operations ≡ some op)
    × (op.completed_at ≡ some w.completed_at)
    × HasResult r op

pub record IsClosed (w : World) (op : ApplicationOperation) (s : Operations)
    (r : Result Code ApplicationOperation) (s' : Operations) : Type 0 where
  pub recorded : IsRecorded w r s'
  pub freed : s'.locked ≡ (unlock op.bot_id s).locked
  pub same_calls : s'.control_calls ≡ s.control_calls

close_cog-IsClosed :
    (actor : Principal) (cog : CogDefinition) (op : ApplicationOperation) (w : World)
    (reply : Reply (Unit {0})) (s : Operations)
    → op.operation_id ≡ w.operation_id
    → IsClosed w op s (close_cog actor cog op w reply s).0 (close_cog actor cog op w reply s).1
unfolding close_cog complete fail emit
close_cog-IsClosed actor cog op w (returned u) s named = record {
  recorded = (
    (completed_operation
        (succeeded_operation op (Summary.cog_done cog.display_name op.operation_type)) w),
    rw named (lookup-insert_self w.operation_id _ s.operations),
    refl,
    (refl, refl),
  );
  freed = refl;
  same_calls = refl;
}
close_cog-IsClosed actor cog op w (denied c) s named = record {
  recorded = (
    (failed_operation op c w),
    rw named (lookup-insert_self w.operation_id _ s.operations),
    refl,
    (refl, refl),
  );
  freed = refl;
  same_calls = refl;
}
close_cog-IsClosed actor cog op w raised s named = record {
  recorded = (
    (failed_operation op Code.cog_operation_failed w),
    rw named (lookup-insert_self w.operation_id _ s.operations),
    refl,
    (refl, refl),
  );
  freed = refl;
  same_calls = refl;
}

-- The call that an operation makes.
abbrev pub call_of : CogDefinition → ApplicationOperation → ControlCall
call_of cog op = record {
  operation_type = op.operation_type;
  bot_id = op.bot_id;
  process_instance_id = op.process_instance_id;
  extension = cog.extension;
}

-- The attempt touches nothing but the list of calls, and adds at most its own.
attempt_cog-calls :
    (d : BotDefinition) (cog : CogDefinition) (op : ApplicationOperation) (w : World)
    (reply : Reply (List String)) (s : Operations)
    → ((attempt_cog d cog op w reply s).1 ≡ s)
      ⊎ ((attempt_cog d cog op w reply s).1
          ≡ record s { control_calls = s.control_calls ++ call_of cog op ∷ [] })
unfolding attempt_cog call_cog
attempt_cog-calls d cog op w (denied c) s = inl refl
attempt_cog-calls d cog op w raised s = inl refl
attempt_cog-calls d cog op w (returned loaded) s =
    elim (Option-cases (cog_conflict d cog op.operation_type loaded)) [
      | inl fits ↦ inr (rw (fits, attempt_cog, call_cog))
      | inr (c, clash) ↦ inl (rw (clash, attempt_cog))
    ]

-- What lets an operation call the adapter.
module _ (can : Authorizer) (actor : Principal) (bot cog_id request : String)
    (capability : Capability) (type : OperationType) (w : World) where
  pub record IsPermitted (s : Operations) (call : ControlCall) : Type 0 where
    pub authorized : can actor "cogs.manage" (some bot) ≡ true
    pub runs : is_running w.state ≡ true
    pub shown : ready_instance false w.snapshot ≡ some call.process_instance_id
    pub bound : is_instance w.process call.process_instance_id ≡ true
    pub of_bot : (call.bot_id ≡ bot) × (call.operation_type ≡ type)
    pub free : contains s.locked bot ≡ false
    pub registered : w.registered ≡ true
    pub definition : BotDefinition
    pub of_catalog : lookup bot s.catalog ≡ some definition
    pub cog : CogDefinition
    pub supported : supports definition capability ≡ true
    pub in_catalog : lookup cog_id definition.cogs ≡ some cog
    pub allowed : (is_allowed type cog ≡ true) × (call.extension ≡ cog.extension)

  -- How an operation ends: it was refused and changed nothing, or its record is complete. The locks
  -- are as they were, and the bot was not called, or once and by right.
  pub record IsEnded (s : Operations) (r : Result Code ApplicationOperation) (s' : Operations)
      : Type 0 where
    pub outcome : ((e : Code) × (r ≡ err e) × (s' ≡ s)) ⊎ IsRecorded w r s'
    pub same_locks : s'.locked ≡ s.locked
    pub calls :
        (s'.control_calls ≡ s.control_calls)
        ⊎ ((call : ControlCall) × IsPermitted s call
            × (s'.control_calls ≡ s.control_calls ++ call ∷ []))

  -- What `_cog_operation` does after each of its steps.
  abbrev after_begin :
      BotDefinition → CogDefinition → ApplicationOperation → Action ApplicationOperation
  after_begin d cog op = take_lock op w >>= run_cog actor d cog w

  abbrev after_resolve : BotDefinition → CogDefinition → Action ApplicationOperation
  after_resolve d cog = do
    require (is_allowed type cog) (not_allowed type)
    op ← begin_cog actor bot cog request type w
    after_begin d cog op

  abbrev after_authorize : BotDefinition → Action ApplicationOperation
  after_authorize d = do cog ← resolve_cog d cog_id; after_resolve d cog

  refused-IsEnded : (s : Operations) (e : Code) → IsEnded s (err e) s
  refused-IsEnded s e = record {
    outcome = inl (e, refl, refl);
    same_locks = refl;
    calls = inl refl;
  }

  module _ (s : Operations) (d : BotDefinition) (cog : CogDefinition) (i : String)
      (authorized : can actor "cogs.manage" (some bot) ≡ true) (registered : w.registered ≡ true)
      (of_catalog : lookup bot s.catalog ≡ some d) (supported : supports d capability ≡ true)
      (in_catalog : lookup cog_id d.cogs ≡ some cog) (allowed : is_allowed type cog ≡ true)
      (runs : is_running w.state ≡ true) (shown : ready_instance false w.snapshot ≡ some i)
      (bound : is_instance w.process i ≡ true) where
    abbrev op : ApplicationOperation
    op = begun_operation actor bot request type (some cog.cog_id) w s i

    abbrev start_state : Operations
    start_state = begun actor bot request type (some cog.cog_id) w s i

    abbrev held_state : Operations
    held_state = locked_state actor bot request type (some cog.cog_id) w s i

    permitted : contains s.locked bot ≡ false → IsPermitted s (call_of cog (running_operation op w))
    permitted free = record {
      authorized = authorized;
      runs = runs;
      shown = shown;
      bound = bound;
      of_bot = (refl, refl);
      free = free;
      registered = registered;
      definition = d;
      of_catalog = of_catalog;
      cog = cog;
      supported = supported;
      in_catalog = in_catalog;
      allowed = (allowed, refl);
    }

    run_cog-IsEnded :
        contains s.locked bot ≡ false
        → IsEnded s
            (run_cog actor d cog w (running_operation op w) held_state).0
            (run_cog actor d cog w (running_operation op w) held_state).1
    unfolding run_cog register emit
    run_cog-IsEnded free =
        let running = running_operation op w in
        let tried = attempt_cog d cog running w w.loaded held_state in
        let closed = close_cog-IsClosed actor cog running w tried.0 tried.1 refl in
        elim (attempt_cog-calls d cog running w w.loaded held_state) [
          | inl idle ↦ record {
            outcome = inr closed.recorded;
            same_locks =
                closed.freed
                ∙ ap (λ (t : Operations). (unlock bot t).locked) idle
                ∙ unlock-lock bot s.locked free;
            calls = inl (closed.same_calls ∙ ap (λ (t : Operations). t.control_calls) idle);
          }
          | inr called ↦ record {
            outcome = inr closed.recorded;
            same_locks =
                closed.freed
                ∙ ap (λ (t : Operations). (unlock bot t).locked) called
                ∙ unlock-lock bot s.locked free;
            calls = inr (
              call_of cog running,
              permitted free,
              closed.same_calls ∙ ap (λ (t : Operations). t.control_calls) called,
            );
          }
        ]

    busy-IsEnded :
        IsEnded s
          (err Code.operation_in_progress)
          (fail none op Code.operation_in_progress w start_state)
    unfolding fail register emit
    busy-IsEnded = record {
      outcome = inr (
        failed_operation op Code.operation_in_progress w,
        lookup-insert_self w.operation_id _ _,
        refl,
        (refl, refl),
      );
      same_locks = refl;
      calls = inl refl;
    }

    -- The operation from its lock on.
    locked_part-IsEnded :
        IsEnded s
          ((take_lock op w >>= run_cog actor d cog w) start_state).0
          ((take_lock op w >>= run_cog actor d cog w) start_state).1
    locked_part-IsEnded = elim (Bool-cases (contains s.locked bot)) [
      | inl busy ↦
          rw
            (bind_err (take_lock op w) (run_cog actor d cog w)
              (take_lock-busy actor bot request type (some cog.cog_id) w s i busy))
            busy-IsEnded
      | inr free ↦
          rw
            (bind_ok (take_lock op w) (run_cog actor d cog w)
              (take_lock-free actor bot request type (some cog.cog_id) w s i free))
            (run_cog-IsEnded free)
    ]

  -- Whatever the supervisor, the bot and its adapter answer, an operation on a cog ends in one of two
  -- ways: it was refused before it was recorded and changed nothing, or its own record is complete,
  -- succeeded or failed with the code that is raised. The locks are as they were before. The bot was
  -- asked to change at most once, and only if the actor may manage its cogs, the bot is
  -- registered, its definition in the catalog has the capability and the cog and allows the action, the lock was free, and the process runs as the instance that
  -- the health evidence verified.
  pub cog_operation-IsEnded :
      (s : Operations)
      → IsEnded s
          (cog_operation can actor bot cog_id request capability type w s).0
          (cog_operation can actor bot cog_id request capability type w s).1
  unfolding cog_operation
  cog_operation-IsEnded s = elim (authorize-cases can actor bot capability "cogs.manage" w s) [
    | inl (e, refused) ↦
        rw (bind_err (authorize can actor bot capability "cogs.manage" w) after_authorize refused)
          (refused-IsEnded s e)
    | inr (d, passed, may, has, known, registered) ↦
        rw (bind_ok (authorize can actor bot capability "cogs.manage" w) after_authorize passed)
          (elim (resolve_cog-cases d cog_id s) [
            | inl (e, unknown) ↦
                rw (bind_err (resolve_cog d cog_id) (after_resolve d) unknown) (refused-IsEnded s e)
            | inr (cog, found, listed) ↦
                rw (bind_ok (resolve_cog d cog_id) (after_resolve d) found)
                  (elim (Bool-cases (is_allowed type cog)) [
                    | inr forbidden ↦ rw forbidden (refused-IsEnded s (not_allowed type))
                    | inl allowed ↦
                        rw allowed
                          (elim (begin_-cases actor bot request type (some cog.cog_id) false w s) [
                            | inl (e, unready) ↦
                                rw
                                  (bind_err (begin_cog actor bot cog request type w)
                                    (after_begin d cog) unready)
                                  (refused-IsEnded s e)
                            | inr (i, started, runs, shown, same) ↦
                                rw
                                  (bind_ok (begin_cog actor bot cog request type w)
                                    (after_begin d cog) started)
                                  (locked_part-IsEnded s d cog i may registered known has listed
                                    allowed runs shown same)
                          ])
                  ])
          ])
  ]

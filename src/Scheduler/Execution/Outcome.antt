-- ===== src/Scheduler/Execution/Outcome.antt =====
-- What an execution of portal/scheduler.py does, on every branch.
use modular_discord_bot_oper.Common.{
  ℕ, ◌+◌, ◌≤◌, arith, sym, any, str_eq, ◌&&◌, String, true, false, Option, none, some, [], ◌∷◌,
  ◌++◌, ◌≡◌, refl, ◌⊎◌, inl, inr, ◌∙◌, Exec, pair_eq, bind_ok, bind_err, Result-cases, Bool-cases,
  Option-cases, ◌>>=◌, ◌>>◌, modify, pure,
}
use modular_discord_bot_oper.Portal.Authorization.{Principal, Authorizer, contains}
use modular_discord_bot_oper.Portal.Locks.{unlock-lock}
use modular_discord_bot_oper.Scheduler.Model.{
  Error, ScheduledTask, TaskExecution, TaskType, catalog,
}
use modular_discord_bot_oper.Scheduler.Store.{Store, update_task, admits, claim}
use modular_discord_bot_oper.Scheduler.Service.{
  Scheduler, AdapterCall, AuditName, on_store, log_execution, validate,
}
use modular_discord_bot_oper.Scheduler.Execution.{
  World, Identities, Identity, run_permission, is_skip, enabled_principal, or_manual, suspend,
  suspend_row, run_adapter, perform, is_authorized, revoke, drop_capability, close_with,
  authorize_and_run, run_claimed, execute, execution_of, succeeds, misfires,
}

-- The locks of running tasks, and the calls of the adapter, are as they were.
pub record IsQuiet (s s' : Scheduler) : Type 0 where
  pub same_locks : s'.locks ≡ s.locks
  pub same_calls : s'.adapter_calls ≡ s.adapter_calls

update_task-IsQuiet :
    (t : ScheduledTask) (r : ℕ) (s : Scheduler) → IsQuiet s (on_store (update_task t r) s).1
update_task-IsQuiet t r s = record { same_locks = refl; same_calls = refl }

suspend_row-IsQuiet :
    (t : Option ScheduledTask) (reason : String) (now : ℕ) (s : Scheduler)
    → IsQuiet s (suspend_row t reason now s).1
suspend_row-IsQuiet none reason now s = record { same_locks = refl; same_calls = refl }
suspend_row-IsQuiet (some t) reason now s = record { same_locks = refl; same_calls = refl }

suspend-IsQuiet :
    (t : ScheduledTask) (reason : String) (now : ℕ) (s : Scheduler)
    → IsQuiet s (suspend t reason now s).1
unfolding suspend
suspend-IsQuiet t reason now s = suspend_row-IsQuiet _ reason now s

IsQuiet-trans : {s t u : Scheduler} → IsQuiet s t → IsQuiet t u → IsQuiet s u
IsQuiet-trans h k = record {
  same_locks = k.same_locks ∙ h.same_locks;
  same_calls = k.same_calls ∙ h.same_calls;
}

-- A block is quiet if its parts are.
bind-IsQuiet :
    {A B : Type 0} (m : Exec Scheduler Error A) (f : A → Exec Scheduler Error B) (s : Scheduler)
    → IsQuiet s (m s).1
    → ((a : A) (t : Scheduler) → IsQuiet t (f a t).1)
    → IsQuiet s ((m >>= f) s).1
bind-IsQuiet m f s h k = elim (Result-cases (m s).0) [
  | inl (a, e) ↦ rw (bind_ok m f (pair_eq e)) (IsQuiet-trans h (k a (m s).1))
  | inr (c, e) ↦ rw (bind_err m f (pair_eq e)) h
]

revoke-IsQuiet :
    (task : ScheduledTask) (w : World) (e : TaskExecution) (s : Scheduler)
    → IsQuiet s (revoke task w e s).1
unfolding revoke
revoke-IsQuiet task w e s =
    IsQuiet-trans (record { same_locks = refl; same_calls = refl })
      (bind-IsQuiet (suspend task "authorization_revoked" w.suspended)
        (λ _.
          modify (log_execution AuditName.authorization_revoked task e "authorization_revoked" none)
          >> pure e)
        _ (suspend-IsQuiet task "authorization_revoked" w.suspended _)
        (λ u t. record { same_locks = refl; same_calls = refl }))

drop_capability-IsQuiet :
    (task : ScheduledTask) (w : World) (e : TaskExecution) (s : Scheduler)
    → IsQuiet s (drop_capability task w e s).1
unfolding drop_capability
drop_capability-IsQuiet task w e s =
    IsQuiet-trans (record { same_locks = refl; same_calls = refl })
      (bind-IsQuiet (suspend task "capability_not_supported" w.suspended) (λ _. pure e) _
        (suspend-IsQuiet task "capability_not_supported" w.suspended _)
        (λ u t. record { same_locks = refl; same_calls = refl }))

-- The call that a task's execution makes.
abbrev pub call_of : ScheduledTask → Principal → AdapterCall
call_of task actor = record { task = task; actor = actor }

module _ (task : ScheduledTask) (actor : Principal) (w : World) (e : TaskExecution)
    (s : Scheduler) where
  perform-locks :
      contains s.locks task.task_id ≡ false → (perform task actor w e s).1.locks ≡ s.locks
  unfolding perform run_adapter
  perform-locks free = elim (Option-cases w.adapter) [
    | inl raised ↦ simp raised (unlock-lock task.task_id s.locks free)
    | inr (id, done) ↦ simp done (unlock-lock task.task_id s.locks free)
  ]

  perform-calls :
      (perform task actor w e s).1.adapter_calls ≡ s.adapter_calls ++ call_of task actor ∷ []
  unfolding perform run_adapter
  perform-calls = elim (Option-cases w.adapter) [
    | inl raised ↦ simp raised
    | inr (id, done) ↦ simp done
  ]

module _ (can : Authorizer) (identities : Identities) (task : ScheduledTask) (planned : ℕ)
    (manual : Option Principal) (w : World) where
  -- On whose authority an execution runs: of the caller of a manual run, who may run it; else of the
  -- task's owner, who is enabled and may schedule it, for an occurrence that is not late.
  abbrev pub HasAuthority : TaskType → Option Principal → Principal → Type 0
  HasAuthority kind (some caller) actor =
      (actor ≡ caller) × (can actor "scheduler.run" (some task.bot_id) ≡ true)
  HasAuthority kind none actor =
      ((i : Identity) × (identities task.owner_id ≡ some i)
        × (i.is_enabled ≡ true)
        × (actor ≡ i.principal))
      × (can actor "scheduler.manage" (some task.bot_id) ≡ true)
      × (is_skip kind.misfire ≡ true → w.now ≤ planned)
      × (w.now ≤ planned + kind.grace_period)

  -- Why an execution may call the adapter on an actor's authority.
  pub record IsEntitled (s : Scheduler) (actor : Principal) : Type 0 where
    pub kind : TaskType
    pub known : catalog task.task_type_id ≡ some kind
    pub authority : HasAuthority kind manual actor
    pub may_operate : can actor kind.underlying_permission (some task.bot_id) ≡ true
    pub same_version : task.definition_version ≡ kind.definition_version
    pub valid : succeeds (validate task.bot_id kind task.parameters) ≡ true
    pub not_running : contains s.locks task.task_id ≡ false
    pub unclaimed :
        any
          (λ (f : TaskExecution). str_eq f.task_id task.task_id && str_eq f.occurrence w.occurrence)
          s.store.executions
        ≡ false

  -- What the tests of an execution say, taken apart.
  enabled-HasAuthority :
      (kind : TaskType) (asked : Option Principal) (found : Option Identity) (actor : Principal)
      → identities task.owner_id ≡ found
      → or_manual asked (enabled_principal found) ≡ some actor
      → can actor (run_permission asked) (some task.bot_id) ≡ true
      → misfires kind planned w.now asked ≡ false
      → HasAuthority kind asked actor
  enabled-HasAuthority kind (some caller) found actor owner on_behalf may on_time = (cc, may)
  enabled-HasAuthority kind none none actor owner on_behalf may on_time = absurd (cc on_behalf)
  enabled-HasAuthority kind none (some i) actor owner on_behalf may on_time =
      elim (Bool-cases i.is_enabled) [
        | inr off ↦ absurd (cc (rw off at on_behalf))
        | inl on_ ↦
            let same : i.principal ≡ actor = cc (rw on_ at on_behalf) in
            ((i, owner, on_, sym same), may, λ skips. ground arith, ground arith)
      ]

  is_authorized-parts :
      (kind : TaskType) (actor : Principal)
      → is_authorized can identities task kind manual (some actor) ≡ true
      → (can actor (run_permission manual) (some task.bot_id) ≡ true)
        × (can actor kind.underlying_permission (some task.bot_id) ≡ true)
        × (task.definition_version ≡ kind.definition_version)
  unfolding is_authorized
  is_authorized-parts kind actor may = (ground arith, ground arith, ground arith)

  admits-unclaimed :
      (s : Store)
      → admits (execution_of task planned w) s ≡ true
      → any
          (λ (f : TaskExecution). str_eq f.task_id task.task_id && str_eq f.occurrence w.occurrence)
          s.executions
        ≡ false
  unfolding admits
  admits-unclaimed s h = ground arith

  -- The locks are as they were, and the adapter was not called, or once and by right.
  pub record IsGuarded (s s' : Scheduler) : Type 0 where
    pub same_locks : s'.locks ≡ s.locks
    pub calls :
        (s'.adapter_calls ≡ s.adapter_calls)
        ⊎ ((actor : Principal) × IsEntitled s actor
            × (s'.adapter_calls ≡ s.adapter_calls ++ call_of task actor ∷ []))

  quiet-IsGuarded : (s s' : Scheduler) → IsQuiet s s' → IsGuarded s s'
  quiet-IsGuarded s s' h = record { same_locks = h.same_locks; calls = inl h.same_calls }

  module _ (s : Scheduler) (kind : TaskType) (store : Store) where
    abbrev claimed_in : Scheduler
    claimed_in = record s { store = store }

    quiet : (s' : Scheduler) → IsQuiet claimed_in s' → IsGuarded s s'
    quiet s' h =
        quiet-IsGuarded s s' (record { same_locks = h.same_locks; same_calls = h.same_calls })

    -- The tail of `_execute`, once the occurrence is claimed and its actor is known.
    authorize_and_run-IsGuarded :
        (known : catalog task.task_type_id ≡ some kind)
        (admitted : admits (execution_of task planned w) s.store ≡ true)
        (free : contains s.locks task.task_id ≡ false)
        (on_time : misfires kind planned w.now manual ≡ false) (e : TaskExecution)
        (actor : Option Principal)
        (on_behalf : or_manual manual (enabled_principal (identities task.owner_id)) ≡ actor)
        → IsGuarded s (authorize_and_run can identities task kind manual w e actor claimed_in).1
    unfolding authorize_and_run
    authorize_and_run-IsGuarded known admitted free on_time e none on_behalf =
        quiet _ (revoke-IsQuiet task w e claimed_in)
    authorize_and_run-IsGuarded known admitted free on_time e (some actor) on_behalf =
        elim (Bool-cases (is_authorized can identities task kind manual (some actor))) [
          | inr denied ↦ rw denied (quiet _ (revoke-IsQuiet task w e claimed_in))
          | inl may ↦ elim (Bool-cases (succeeds (validate task.bot_id kind task.parameters))) [
            | inr stale ↦ rw (may, stale) (quiet _ (drop_capability-IsQuiet task w e claimed_in))
            | inl valid ↦
                rw (may, valid)
                  (record {
                    same_locks = perform-locks task actor w e claimed_in free;
                    calls = inr (
                      actor,
                      record {
                        kind = kind;
                        known = known;
                        authority =
                            enabled-HasAuthority kind manual (identities task.owner_id) actor refl
                              on_behalf (is_authorized-parts kind actor may).0 on_time;
                        may_operate = (is_authorized-parts kind actor may).1;
                        same_version = (is_authorized-parts kind actor may).2;
                        valid = valid;
                        not_running = free;
                        unclaimed = admits-unclaimed s.store admitted;
                      },
                      perform-calls task actor w e claimed_in,
                    );
                  })
          ]
        ]

    run_claimed-IsGuarded :
        (known : catalog task.task_type_id ≡ some kind)
        (admitted : admits (execution_of task planned w) s.store ≡ true) (e : TaskExecution)
        → IsGuarded s (run_claimed can identities task planned manual w kind (some e) claimed_in).1
    unfolding run_claimed close_with
    run_claimed-IsGuarded known admitted e = elim (Bool-cases (contains s.locks task.task_id)) [
      | inl busy ↦ rw busy (quiet _ (record { same_locks = refl; same_calls = refl }))
      | inr free ↦ elim (Bool-cases (misfires kind planned w.now manual)) [
        | inl late ↦ rw (free, late) (quiet _ (record { same_locks = refl; same_calls = refl }))
        | inr on_time ↦
            rw (free, on_time) (authorize_and_run-IsGuarded known admitted free on_time e _ refl)
      ]
    ]

  -- However an execution ends, the locks are as they were before it. It calls the adapter at most
  -- once, and only if the occurrence was unclaimed, no run of the task was in progress, it was not
  -- late, the parameters are valid, and the actor (the caller of a manual run, else the enabled
  -- owner) holds both permissions on the bot and the task is of the catalog's present version.
  pub execute-IsGuarded :
      (s : Scheduler) → IsGuarded s (execute can identities task planned manual w s).1
  unfolding execute claim run_claimed
  execute-IsGuarded s = elim (Option-cases (catalog task.task_type_id)) [
    | inl unknown ↦
        rw unknown (quiet-IsGuarded s s (record { same_locks = refl; same_calls = refl }))
    | inr (kind, known) ↦ elim (Bool-cases (admits (execution_of task planned w) s.store)) [
      | inr taken ↦
          rw (known, taken) (quiet-IsGuarded s s (record { same_locks = refl; same_calls = refl }))
      | inl admitted ↦
          rw (known, admitted)
            (run_claimed-IsGuarded s kind _ known admitted (execution_of task planned w))
    ]
  ]

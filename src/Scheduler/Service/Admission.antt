-- ===== src/Scheduler/Service/Admission.antt =====
-- When `SchedulerService.create` of portal/scheduler.py makes a task.
use modular_discord_bot_oper.Common.{
  ℕ, String, Bool, true, false, Option, none, some, [], ◌∷◌, ◌++◌, ◌≡◌, refl, ◌⊎◌, inl, inr, Result,
  ok, err, Bool-cases, Option-cases, Result-cases, pair_eq, bind_ok, bind_err, modify, pure, ap,
  ◌∙◌, any, str_eq, ◌>>=◌, ◌>>◌,
}
use modular_discord_bot_oper.Common.Dict.{Dict}
use modular_discord_bot_oper.Common.Text.{is_safe_name}
use modular_discord_bot_oper.Portal.Authorization.{Principal, Authorizer}
use modular_discord_bot_oper.Scheduler.Model.{
  Error, Schedule, ScheduledTask, TaskType, catalog, permission_denied, schedule_invalid,
  scheduler_limit_reached, task_type_not_supported, foreign,
}
use modular_discord_bot_oper.Scheduler.Calendar.{Calendar, validate_schedule}
use modular_discord_bot_oper.Scheduler.Store.{Store, insert_task}
use modular_discord_bot_oper.Scheduler.Service.{
  Scheduler, Action, AuditName, on_store, log, create, new_task, next_if, has_room, validate,
}

abbrev is_taken : ScheduledTask → Store → Bool
is_taken t s = any (λ (u : ScheduledTask). str_eq u.task_id t.task_id) s.tasks

insert_task-taken :
    (t : ScheduledTask) (s : Store) → is_taken t s ≡ true → insert_task t s ≡ (err foreign, s)
unfolding insert_task
insert_task-taken t s taken = rw taken refl

insert_task-fresh :
    (t : ScheduledTask) (s : Store)
    → is_taken t s ≡ false
    → insert_task t s ≡ (
      ok tt,
      record s {
        tasks =
            s.tasks
            ++ record t { last_run_at = none; suspended_reason = none; deleted_at = none } ∷ [];
      },
    )
unfolding insert_task
insert_task-fresh t s fresh = rw fresh refl

module _ (lib : Calendar) (can : Authorizer) (actor : Principal) (name bot type_id : String)
    (schedule : Schedule) (params : Dict String) (is_enabled : Bool) (request new_id : String)
    (now : ℕ) where
  -- What a task that is made has passed, and where it stands.
  pub record IsAdmitted (s : Scheduler) (task : ScheduledTask) (s' : Scheduler) : Type 0 where
    pub kind : TaskType
    pub known : catalog type_id ≡ some kind
    pub manages : can actor "scheduler.manage" (some bot) ≡ true
    pub permitted : can actor kind.underlying_permission (some bot) ≡ true
    pub valid : validate bot kind params ≡ ok tt
    pub timely : validate_schedule lib schedule now ≡ ok tt
    pub named : is_safe_name name ≡ true
    pub room : has_room lib can actor.principal_id bot s ≡ true
    pub next : Option ℕ
    pub planned : (next_if lib can is_enabled schedule now s).0 ≡ ok next
    pub made :
        task
        ≡ new_task lib can actor new_id name bot type_id kind schedule params is_enabled now next
    pub new_name : any (λ (t : ScheduledTask). str_eq t.task_id new_id) s.store.tasks ≡ false
    pub stored : s'.store.tasks ≡ s.store.tasks ++ task ∷ []

  next_if-same : (b : Bool) (s : Scheduler) → (next_if lib can b schedule now s).1 ≡ s
  next_if-same true s = refl
  next_if-same false s = refl

  -- What follows the checks of `create`.
  abbrev task_at : TaskType → Option ℕ → ScheduledTask
  task_at kind next =
      new_task lib can actor new_id name bot type_id kind schedule params is_enabled now next

  abbrev audit_task : TaskType → Option ℕ → Action ScheduledTask
  audit_task kind next = do
    modify (log AuditName.created actor.principal_id (task_at kind next) request "succeeded")
    pure (task_at kind next)

  abbrev keep_task : TaskType → Option ℕ → Action ScheduledTask
  keep_task kind next = do on_store (insert_task (task_at kind next)); audit_task kind next

  module _ (s : Scheduler) (kind : TaskType) (known : catalog type_id ≡ some kind)
      (manages : can actor "scheduler.manage" (some bot) ≡ true)
      (permitted : can actor kind.underlying_permission (some bot) ≡ true)
      (valid : validate bot kind params ≡ ok tt) (safe : is_safe_name name ≡ true)
      (timely : validate_schedule lib schedule now ≡ ok tt)
      (room : has_room lib can actor.principal_id bot s ≡ true) where
    create-passed :
        create lib can actor name bot type_id schedule params is_enabled request new_id now s
        ≡ (next_if lib can is_enabled schedule now >>= keep_task kind) s
    unfolding create
    create-passed = rw (known, manages, permitted, valid, safe, timely, room) refl

    -- The end of `create`, once its checks have passed.
    keep-IsAdmitted :
        ((e : Error) × ((next_if lib can is_enabled schedule now >>= keep_task kind) s
            ≡ (err e, s)))
        ⊎ ((task : ScheduledTask) × (s' : Scheduler) × ((next_if lib can is_enabled schedule now
                  >>= keep_task kind)
                s
              ≡ (ok task, s'))
            × IsAdmitted s task s')
    keep-IsAdmitted = elim (Result-cases (next_if lib can is_enabled schedule now s).0) [
      | inr (e, none_left) ↦ inl (
        e,
        bind_err (next_if lib can is_enabled schedule now) (keep_task kind)
            (pair_eq none_left ∙ ap (λ t. (err e, t)) (next_if-same is_enabled s)),
      )
      | inl (next, planned) ↦
          (let step =
              bind_ok (next_if lib can is_enabled schedule now) (keep_task kind)
                (pair_eq planned ∙ ap (λ t. (ok next, t)) (next_if-same is_enabled s)) in
            elim (Bool-cases (any (λ (t : ScheduledTask). str_eq t.task_id new_id) s.store.tasks)) [
              | inl taken ↦ inl (
                foreign,
                step
                    ∙ bind_err (on_store (insert_task (task_at kind next)))
                        (λ _. audit_task kind next)
                        (ap
                          (λ (x : Result Error (Unit {0}) × Store). (x.0, record s { store = x.1 }))
                          (insert_task-taken (task_at kind next) s.store taken)),
              )
              | inr fresh ↦ inr (
                task_at kind next,
                kept_state next,
                step
                    ∙ bind_ok (on_store (insert_task (task_at kind next)))
                        (λ _. audit_task kind next)
                        (ap
                          (λ (x : Result Error (Unit {0}) × Store). (x.0, record s { store = x.1 }))
                          (insert_task-fresh (task_at kind next) s.store fresh)),
                record {
                  kind = kind;
                  known = known;
                  manages = manages;
                  permitted = permitted;
                  valid = valid;
                  timely = timely;
                  named = safe;
                  room = room;
                  next = next;
                  planned = planned;
                  made = refl;
                  new_name = fresh;
                  stored = refl;
                },
              )
            ])
    ]
      where
        kept_state : Option ℕ → Scheduler
        kept_state next =
            log AuditName.created actor.principal_id (task_at kind next) request "succeeded"
              (record s {
                store = record s.store { tasks = s.store.tasks ++ task_at kind next ∷ [] };
              })

  -- `create` refuses and changes nothing, or it adds one task at the end of the table, for an actor who
  -- holds both permissions on the bot, with valid parameters, a safe name, an accepted schedule and an
  -- id that is new, while the limits leave room.
  pub create-IsAdmitted :
      (s : Scheduler)
      → ((e : Error) × (create lib can actor name bot type_id schedule params is_enabled request
              new_id now s
            ≡ (err e, s)))
        ⊎ ((task : ScheduledTask) × (s' : Scheduler) × (create lib can actor name bot type_id
                schedule params is_enabled request new_id now s
              ≡ (ok task, s'))
            × IsAdmitted s task s')
  unfolding create
  create-IsAdmitted s = elim (Option-cases (catalog type_id)) [
    | inl unknown ↦ inl (task_type_not_supported, rw unknown)
    | inr (kind, known) ↦ elim (Bool-cases (can actor "scheduler.manage" (some bot))) [
      | inr denied ↦ inl (permission_denied, rw (known, denied))
      | inl manages ↦ elim (Bool-cases (can actor kind.underlying_permission (some bot))) [
        | inr denied ↦ inl (permission_denied, rw (known, manages, denied))
        | inl permitted ↦ elim (Result-cases (validate bot kind params)) [
          | inr (e, invalid) ↦ inl (e, rw (known, manages, permitted, invalid))
          | inl (u, valid) ↦ elim (Bool-cases (is_safe_name name)) [
            | inr unsafe ↦ inl (schedule_invalid, rw (known, manages, permitted, valid, unsafe))
            | inl safe ↦ elim (Result-cases (validate_schedule lib schedule now)) [
              | inr (e, wrong) ↦ inl (e, rw (known, manages, permitted, valid, safe, wrong))
              | inl (v, timely) ↦ elim (Bool-cases (has_room lib can actor.principal_id bot s)) [
                | inr full ↦ inl (
                  scheduler_limit_reached,
                  rw (known, manages, permitted, valid, safe, timely, full),
                )
                | inl room ↦
                    rw (create-passed s kind known manages permitted valid safe timely room)
                      (keep-IsAdmitted s kind known manages permitted valid safe timely room)
              ]
            ]
          ]
        ]
      ]
    ]
  ]

-- ===== src/Supervisor/Start/Outcome.antt =====
-- How a start of supervisor/service.py ends.
use modular_discord_bot_oper.Common.{
  ℕ, String, true, false, Option, none, some, List, [], ◌∷◌, ◌≡◌, ◌⊎◌, inl, inr, arith, Result, ok,
  err, eq_refl, Bool-cases, Option-cases, refl, any, str_eq, ap, ◌≢◌, eq_iff,
}
use modular_discord_bot_oper.Common.Dict.{lookup, lookup-insert, lookup-insert_self, Dict}
use modular_discord_bot_oper.Supervisor.Models.{
  ProcessState, RegisteredBot, Error, startup_failed, bot_disabled, already_running, os_error,
}
use modular_discord_bot_oper.Supervisor.Process.{
  Service, set_object, bind_new, persist, perform, report,
}
use modular_discord_bot_oper.Supervisor.Process.Laws.{exits-records}
use modular_discord_bot_oper.Supervisor.Lifecycle.{matches, same_argv}
use modular_discord_bot_oper.Supervisor.Start.{
  StartWorld, launch, start_locked, current_state, has_live, child_environment, safe_part,
  safe_names, spawn_effect, fresh_record, is_nonempty,
}

same_argv_refl : (xs : List String) → same_argv xs xs ≡ true
same_argv_refl [] = refl
same_argv_refl (x ∷ xs) = ground (arith, eq_refl x, same_argv_refl xs)

-- What a start that got as far as an object for the process leaves at that object.
pub record IsLaunched (w : StartWorld) (p : ℕ) (r : Result Error String) (s : Service)
    : Type 0 where
  pub started :
      (i : String)
      → r ≡ ok i
      → (i ≡ w.instance_id)
        × ((s.object p).state ≡ ProcessState.running)
        × (matches w.identity (s.object p) ≡ true)
  pub refused :
      (e : Error) → r ≡ err e → (e ≡ startup_failed) × ((s.object p).state ≡ ProcessState.crashed)

launch-IsLaunched :
    (bot : RegisteredBot) (p : ℕ) (token : String) (w : StartWorld) (pid : Option ℕ) (s : Service)
    → IsLaunched w p (launch bot p token w pid s).0 (launch bot p token w pid s).1
unfolding launch set_object persist perform report matches
launch-IsLaunched bot p token w none s = record {
  started = λ i e. cc;
  refused = λ e q. ground arith;
}
launch-IsLaunched bot p token w (some pid) s = record {
  started = λ i e. elim (Option-cases w.identity) [
    | inl missing ↦ ground arith
    | inr (j, found) ↦ ground (arith, same_argv_refl j.argv)
  ];
  refused = λ e q. ground arith;
}

launch-records :
    (bot : RegisteredBot) (p : ℕ) (token : String) (w : StartWorld) (pid : Option ℕ) (s : Service)
    → (launch bot p token w pid s).1.records ≡ s.records
unfolding launch set_object persist perform report
launch-records bot p token w none s = ground arith
launch-records bot p token w (some pid) s = ground (
  arith,
  exits-records w.grace_exits
      (set_object p (record (s.object p) { pid = pid }) (perform (spawn_effect bot token w s) s)),
)

module _ (w : StartWorld) (bot : RegisteredBot) (s : Service) where
  -- A start refuses and changes nothing, or it binds a new object and launches it.
  start_locked-cases :
      ((e : Error) × (start_locked w bot s ≡ (err e, s)))
      ⊎ ((text : String) × (bot.is_enabled ≡ true)
          × (has_live (current_state bot.bot_id s) ≡ false)
          × (start_locked w bot s
              ≡ launch bot s.next_object text w w.spawned_pid
                  (bind_new bot.bot_id (fresh_record bot w) s)))
  unfolding start_locked
  start_locked-cases = elim (Bool-cases bot.is_enabled) [
    | inr off ↦ inl (bot_disabled, rw off)
    | inl on ↦ elim (Bool-cases (has_live (current_state bot.bot_id s))) [
      | inl live ↦ inl (already_running, rw (on, live))
      | inr free ↦ elim (Option-cases (is_nonempty (lookup bot.token_variable s.environment))) [
        | inl missing ↦ inl (startup_failed, rw (on, free, missing))
        | inr (text, found) ↦ elim (Bool-cases w.executable_ready) [
          | inr absent ↦ inl (startup_failed, rw (on, free, found, absent))
          | inl present ↦ elim (Bool-cases w.directory_ready) [
            | inr failed ↦ inl (os_error, rw (on, free, found, present, failed))
            | inl made ↦ inr (text, on, free, rw (on, free, found, present, made))
          ]
        ]
      ]
    ]
  ]

-- A start refuses a bot whose record is live, and changes nothing.
pub start_locked-live :
    (w : StartWorld) (bot : RegisteredBot) (s : Service)
    → bot.is_enabled ≡ true
    → has_live (current_state bot.bot_id s) ≡ true
    → start_locked w bot s ≡ (err already_running, s)
unfolding start_locked
start_locked-live w bot s on live = rw (on, live)

-- What `_start_locked` leaves, by how it ended.
pub record IsStartOutcome (w : StartWorld) (bot : RegisteredBot) (s : Service)
    (r : Result Error String) (s' : Service) : Type 0 where
  pub started :
      (i : String)
      → r ≡ ok i
      → (bot.is_enabled ≡ true)
        × (has_live (current_state bot.bot_id s) ≡ false)
        × (i ≡ w.instance_id)
        × (lookup bot.bot_id s'.records ≡ some s.next_object)
        × ((s'.object s.next_object).state ≡ ProcessState.running)
        × (matches w.identity (s'.object s.next_object) ≡ true)
  pub refused :
      (e : Error)
      → r ≡ err e
      → (s' ≡ s)
        ⊎ ((e ≡ startup_failed)
            × (lookup bot.bot_id s'.records ≡ some s.next_object)
            × ((s'.object s.next_object).state ≡ ProcessState.crashed))

-- A start that succeeds was of an enabled bot with no live record, and leaves a new running record
-- that carries the identity the kernel showed; one that fails changed nothing, or left a new record
-- that has crashed.
pub start_locked-IsStartOutcome :
    (w : StartWorld) (bot : RegisteredBot) (s : Service)
    → IsStartOutcome w bot s (start_locked w bot s).0 (start_locked w bot s).1
start_locked-IsStartOutcome w bot s = elim (start_locked-cases w bot s) [
  | inl (e, refusal) ↦ rw refusal (record { started = λ i q. cc; refused = λ e' q. inl refl })
  | inr (text, on, free, run) ↦ rw run (
      let bound = bind_new bot.bot_id (fresh_record bot w) s in
      let l = launch-IsLaunched bot s.next_object text w w.spawned_pid bound in
      let kept = launch-records bot s.next_object text w w.spawned_pid bound in
      record {
        started = λ i q. (
          on,
          free,
          (l.started i q).0,
          bound_record _ kept,
          (l.started i q).1,
          (l.started i q).2,
        );
        refused = λ e q. inr ((l.refused e q).0, bound_record _ kept, (l.refused e q).1);
      })
]
  where
    bound_record :
        (rs : Dict ℕ)
        → rs ≡ (bind_new bot.bot_id (fresh_record bot w) s).records
        → lookup bot.bot_id rs ≡ some s.next_object
    bound_record rs e =
        rw e (unfold bind_new in lookup-insert_self bot.bot_id s.next_object s.records)

abbrev pub platform_names : List String
platform_names = "MDBO_HEARTBEAT_SOCKET" ∷ "MDBO_PROCESS_INSTANCE_ID" ∷ "MDBO_RUNTIME_ROOT" ∷ []

safe_part-hides :
    (k : String) (d : Dict String)
    → any (str_eq k) safe_names ≡ false
    → lookup k (safe_part d) ≡ none
unfolding safe_part lookup
safe_part-hides k [] h = refl
safe_part-hides k ((j, v) ∷ d) h = elim (Bool-cases (any (str_eq j) safe_names)) [
  | inr unsafe ↦ rw unsafe (safe_part-hides k d h)
  | inl safe ↦ elim (Bool-cases (str_eq j k)) [
    | inr other ↦ rw (safe, other) (safe_part-hides k d h)
    | inl same ↦ cc (safe, h, ap (λ t. any (str_eq t) safe_names) ((eq_iff j k).0 same))
  ]
]

-- A variable that is none of the safe ones, not the bot's own token and not one of the platform's
-- three never reaches a child: no other bot's token does.
pub child_environment-hides :
    (bot : RegisteredBot) (token instance_id k : String) (s : Service)
    → any (str_eq k) safe_names ≡ false
    → k ≢ bot.token_variable
    → any (str_eq k) platform_names ≡ false
    → lookup k (child_environment bot token instance_id s) ≡ none
unfolding child_environment
child_environment-hides bot token instance_id k s unsafe other foreign = simp lookup-insert (
    ground (
      arith,
      eq_iff "MDBO_HEARTBEAT_SOCKET" k,
      eq_iff "MDBO_PROCESS_INSTANCE_ID" k,
      eq_iff "MDBO_RUNTIME_ROOT" k,
      eq_iff k "MDBO_HEARTBEAT_SOCKET",
      eq_iff k "MDBO_PROCESS_INSTANCE_ID",
      eq_iff k "MDBO_RUNTIME_ROOT",
      eq_iff bot.token_variable k,
      safe_part-hides k s.environment unsafe,
    ))

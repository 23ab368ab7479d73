-- ===== src/Supervisor/Start.antt =====
-- `_start_locked` of supervisor/service.py.
pub mod Outcome
use modular_discord_bot_oper.Common.{
  ℕ, ◌+◌, String, Bool, true, false, Option, none, some, List, [], ◌∷◌, ◌++◌, map, not, ◌==◌, ◌&&◌,
  ◌||◌, if◌then◌else◌, any, str_eq, is_some, Exec, Result, ok, err, pure, raise, gets, modify,
  require, or_raise, ◌>>=◌, ◌>>◌,
}
use modular_discord_bot_oper.Common.Dict.{Dict, lookup, insert, erase, values}
use modular_discord_bot_oper.Common.Json.{ℤ}
use modular_discord_bot_oper.Supervisor.Models
use modular_discord_bot_oper.Supervisor.Models.{
  ProcessState, LifecycleAction, OperationStatus, OperationRecord, ProcessRecord, RegisteredBot,
  Identity, Error, startup_failed, bot_disabled, process_identity, os_error, already_stopped,
  already_running, timeout, supervisor_closed, operation_in_progress, unknown_bot,
}
use modular_discord_bot_oper.Supervisor.Health.{DesiredState, HealthEvidence}
use modular_discord_bot_oper.Supervisor.Health.Store.{Readings}
use modular_discord_bot_oper.Supervisor.Process
use modular_discord_bot_oper.Supervisor.Process.{
  Service, SavedRecord, decode, set_object, bind_new, persist, emit, perform, report, evidence,
  process_state, Exit, exits, EventKind, Effect,
}
use modular_discord_bot_oper.Supervisor.Lifecycle.{Action, update, with_state, matches}

abbrev pub is_nonempty : Option String → Option String
is_nonempty none = none
is_nonempty (some t) = if str_eq t "" then none else some t

-- `SAFE_ENVIRONMENT`
abbrev pub safe_names : List String
safe_names = "PATH" ∷ "HOME" ∷ "LANG" ∷ "TZ" ∷ "SSL_CERT_FILE" ∷ "SSL_CERT_DIR" ∷ []

unfoldable pub safe_part : Dict String → Dict String
safe_part [] = []
safe_part ((k, v) ∷ d) =
    let rest = safe_part d in if any (str_eq k) safe_names then (k, v) ∷ rest else rest

-- The environment of a child: the safe variables, its own token, and three of the platform's.
unfoldable pub child_environment : RegisteredBot → String → String → Service → Dict String
unfolding safe_part
child_environment bot token instance_id s = insert "MDBO_HEARTBEAT_SOCKET" s.heartbeat_socket (
    insert "MDBO_PROCESS_INSTANCE_ID" instance_id (
      insert "MDBO_RUNTIME_ROOT" s.runtime_root
        (insert bot.token_variable token (safe_part s.environment))))

-- The states in which `start` refuses.
abbrev pub is_live : ProcessState → Bool
is_live ProcessState.starting = true
is_live ProcessState.running = true
is_live ProcessState.restarting = true
is_live ProcessState.stopping = true
is_live ProcessState.unknown = true
is_live _ = false

-- What `_start_locked` meets, in order.
pub record StartWorld : Type 0 where
  pub executable_ready : Bool
  pub directory_ready : Bool
  pub instance_id : String
  pub utc : ℕ
  pub spawned_pid : Option ℕ
  pub grace_exits : List Exit
  pub return_code : Option ℤ
  pub identity : Option Identity
  pub now : Readings

-- `except (OSError, ProcessStartError)`
unfoldable pub fail_start : ℕ → Action String
fail_start p = do
  modify (update p (with_state ProcessState.crashed))
  modify persist
  raise startup_failed

unfoldable pub confirm_start : RegisteredBot → ℕ → StartWorld → Option Identity → Action String
confirm_start bot p w none = fail_start p
confirm_start bot p w (some i) = do
  modify (
      update p (λ r. record r {
        os_start_ticks = i.ticks;
        expected_argv = i.argv;
        state = ProcessState.running;
      }))
  modify persist
  modify (
      report
        (evidence bot.bot_id true DesiredState.running true true (some w.instance_id)
          (some w.now.received))
        w.now)
  pure w.instance_id

unfoldable pub after_grace : RegisteredBot → ℕ → StartWorld → Option ℤ → Action String
unfolding fail_start confirm_start
after_grace bot p w none = confirm_start bot p w w.identity
after_grace bot p w (some code) = fail_start p

-- The call of `controller.spawn`.
abbrev pub spawn_effect : RegisteredBot → String → StartWorld → Service → Effect
spawn_effect bot token w s =
    Effect.spawned w.instance_id (bot.executable ∷ "-m" ∷ bot.entry_point ∷ [])
      (child_environment bot token w.instance_id s)

unfoldable pub launch : RegisteredBot → ℕ → String → StartWorld → Option ℕ → Action String
unfolding after_grace
launch bot p token w none = fail_start p
launch bot p token w (some pid) = do
  modify (λ s. perform (spawn_effect bot token w s) s)
  modify (update p (λ r. record r { pid = pid }))
  modify (exits w.grace_exits)
  after_grace bot p w w.return_code

-- The record that a start binds before it spawns.
abbrev pub fresh_record : RegisteredBot → StartWorld → ProcessRecord
fresh_record bot w = record {
  bot_id = bot.bot_id;
  process_instance_id = w.instance_id;
  pid = 0;
  started_at = w.utc;
  os_start_ticks = 0;
  expected_argv = bot.executable ∷ "-m" ∷ bot.entry_point ∷ [];
  state = ProcessState.starting;
  adopted = false;
  exit_code = none;
  exited_at = none;
  expected_exit = false;
  forced = false;
}

-- The state of the bot's record, if it has one.
abbrev pub current_state : String → Service → Option ProcessState
current_state bot s = elim (lookup bot s.records) [ none ↦ none | some p ↦ some (s.object p).state ]

abbrev pub has_live : Option ProcessState → Bool
has_live none = false
has_live (some state) = is_live state

unfoldable pub start_locked : StartWorld → RegisteredBot → Action String
unfolding launch
start_locked w bot = do
  require bot.is_enabled bot_disabled
  state ← gets (current_state bot.bot_id)
  require (not (has_live state)) already_running
  token ← gets (λ s. is_nonempty (lookup bot.token_variable s.environment))
  text ← or_raise token startup_failed
  require w.executable_ready startup_failed
  require w.directory_ready os_error
  p ← gets (λ s. s.next_object)
  modify (bind_new bot.bot_id (fresh_record bot w))
  launch bot p text w w.spawned_pid

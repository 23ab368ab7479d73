-- ===== src/Supervisor/Stop.antt =====
-- `_verify_identity`, `_stop_locked` and `_restart_locked` of supervisor/service.py.
pub mod Signals
pub mod Outcome
pub mod Stranded
use modular_discord_bot_oper.Common.{
  ℕ, ◌+◌, String, Bool, true, false, Option, none, some, List, [], ◌∷◌, ◌++◌, map, not, ◌==◌, ◌&&◌,
  ◌||◌, if◌then◌else◌, any, str_eq, is_some, Exec, Result, ok, err, pure, raise, gets, modify,
  require, or_raise, ◌>>=◌, ◌>>◌,
}
use modular_discord_bot_oper.Common.Dict.{Dict, lookup, insert, erase, values}
use modular_discord_bot_oper.Common.Json.{ℤ}
use modular_discord_bot_oper.Supervisor.Models
use modular_discord_bot_oper.Supervisor.Models.{
  ProcessState, LifecycleAction, OperationStatus, OperationRecord, ProcessRecord, RegisteredBot,
  Identity, Error, startup_failed, bot_disabled, process_identity, os_error, already_stopped,
  already_running, timeout, supervisor_closed, operation_in_progress, unknown_bot,
}
use modular_discord_bot_oper.Supervisor.Health.{DesiredState, HealthEvidence}
use modular_discord_bot_oper.Supervisor.Health.Store.{Readings}
use modular_discord_bot_oper.Supervisor.Process
use modular_discord_bot_oper.Supervisor.Process.{
  Service, SavedRecord, decode, set_object, bind_new, persist, emit, perform, report, evidence,
  process_state, Exit, exits, EventKind, Effect,
}
use modular_discord_bot_oper.Supervisor.Lifecycle.{Action, update, with_state, matches}
use modular_discord_bot_oper.Supervisor.Start.{StartWorld, start_locked}

-- `_verify_identity`
unfoldable pub verify_identity : ℕ → Option Identity → Action (Unit {0})
verify_identity p found s =
    if matches found (s.object p)
    then (ok tt, s)
    else (err process_identity, persist (update p (with_state ProcessState.unknown) s))

-- What `_stop_locked` meets, in order. A signal to a process that is gone is an `OSError`.
pub record StopWorld : Type 0 where
  pub identity : Option Identity
  pub term_delivered : Bool
  pub wait_exits : List Exit
  pub exited_in_time : Bool
  pub second_identity : Option Identity
  pub kill_delivered : Bool
  pub kill_exits : List Exit
  pub killed_in_time : Bool
  pub now : Readings

abbrev pub is_stopped : ProcessState → Bool
is_stopped ProcessState.offline = true
is_stopped ProcessState.disabled = true
is_stopped _ = false

-- Waiting again after the kill: `wait_for_exit` raises `TimeoutError`, which nothing catches.
unfoldable pub force_stop : ℕ → StopWorld → Action (Unit {0})
force_stop p w = do
  verify_identity p w.second_identity
  modify (update p (λ r. record r { forced = true }))
  require w.kill_delivered os_error
  modify (λ s. perform (Effect.killed (s.object p).pid) s)
  modify (exits w.kill_exits)
  require w.killed_in_time timeout

-- `wait_for_exit`, and the kill that follows if it times out
unfoldable pub await_exit : ℕ → StopWorld → Action (Unit {0})
await_exit p w s = if w.exited_in_time then (ok tt, s) else force_stop p w s

-- What follows the end of the process.
unfoldable pub finish_stop : RegisteredBot → ℕ → StopWorld → Action (Option String)
finish_stop bot p w = do
  modify (update p (with_state ProcessState.offline))
  modify persist
  instance_id ← gets (λ s. (s.object p).process_instance_id)
  modify (
      report
        (evidence bot.bot_id bot.is_enabled DesiredState.stopped false true (some instance_id) none)
        w.now)
  pure (some instance_id)

unfoldable pub stop_process : RegisteredBot → ℕ → StopWorld → Action (Option String)
stop_process bot p w = do
  verify_identity p w.identity
  modify (update p (λ r. record r { state = ProcessState.stopping; expected_exit = true }))
  require w.term_delivered os_error
  modify (λ s. perform (Effect.terminated (s.object p).pid) s)
  modify (exits w.wait_exits)
  await_exit p w
  finish_stop bot p w

unfoldable pub stop_record : RegisteredBot → StopWorld → Option ℕ → Action (Option String)
stop_record bot w none = raise already_stopped
stop_record bot w (some p) = do
  r ← gets (λ s. s.object p)
  require (not (is_stopped r.state)) already_stopped
  stop_process bot p w

unfoldable pub stop_locked : StopWorld → RegisteredBot → Action (Option String)
stop_locked w bot = do p ← gets (λ s. lookup bot.bot_id s.records); stop_record bot w p

abbrev pub needs_stop : ProcessState → Bool
needs_stop ProcessState.offline = false
needs_stop ProcessState.crashed = false
needs_stop _ = true

-- the stop that a restart begins with
unfoldable pub begin_restart : RegisteredBot → StopWorld → ℕ → Action (Unit {0})
begin_restart bot w p = do
  modify (update p (with_state ProcessState.restarting))
  stopped ← stop_locked w bot
  pure tt

unfoldable pub stop_first : RegisteredBot → StopWorld → Option ℕ → Action (Unit {0})
stop_first bot w none = pure tt
stop_first bot w (some p) = do
  r ← gets (λ s. s.object p)
  (if needs_stop r.state then begin_restart bot w p else pure tt)

unfoldable pub restart_locked : StopWorld → StartWorld → RegisteredBot → Action String
restart_locked w w' bot = do
  p ← gets (λ s. lookup bot.bot_id s.records)
  stop_first bot w p
  start_locked w' bot

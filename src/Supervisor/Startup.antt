-- ===== src/Supervisor/Startup.antt =====
-- `startup` and `shutdown` of supervisor/service.py.
pub mod Outcome
use modular_discord_bot_oper.Common.{
  ℕ, ◌+◌, String, Bool, true, false, Option, none, some, List, [], ◌∷◌, ◌++◌, map, not, ◌==◌, ◌&&◌,
  ◌||◌, if◌then◌else◌, any, str_eq, is_some, Exec, Result, ok, err, pure, raise, gets, modify,
  require, or_raise, ◌>>=◌, ◌>>◌,
}
use modular_discord_bot_oper.Common.Dict.{Dict, lookup, insert, erase, values}
use modular_discord_bot_oper.Common.Json.{ℤ}
use modular_discord_bot_oper.Supervisor.Models
use modular_discord_bot_oper.Supervisor.Models.{
  ProcessState, LifecycleAction, OperationStatus, OperationRecord, ProcessRecord, RegisteredBot,
  Identity, Error, startup_failed, bot_disabled, process_identity, os_error, already_stopped,
  already_running, timeout, supervisor_closed, operation_in_progress, unknown_bot,
}
use modular_discord_bot_oper.Supervisor.Health.{DesiredState, HealthEvidence}
use modular_discord_bot_oper.Supervisor.Health.Store.{Readings}
use modular_discord_bot_oper.Supervisor.Process
use modular_discord_bot_oper.Supervisor.Process.{
  Service, SavedRecord, decode, set_object, bind_new, persist, emit, perform, report, evidence,
  process_state, Exit, exits, EventKind, Effect,
}
use modular_discord_bot_oper.Supervisor.Lifecycle.{Action, update, with_state, matches}

-- The record that `startup` makes of a saved one, from the identity of its process now.
abbrev pub reconciled : Identity → ProcessRecord → ProcessRecord
reconciled i r =
    let alive = matches (some i) r in
    record r {
      state = if alive then ProcessState.running else ProcessState.unknown;
      adopted = alive;
    }

-- One saved record: a bot that the registry does not know, or a process that is gone, is dropped.
unfoldable pub adopt : SavedRecord → Option RegisteredBot → Option Identity → Service → Service
adopt raw none found s = s
adopt raw (some bot) none s = s
adopt raw (some bot) (some i) s = bind_new bot.bot_id (reconciled i (decode raw)) s

-- the loop over the state file
unfoldable pub adopt_all : (ℕ → Option Identity) → List SavedRecord → Service → Service
adopt_all identity [] s = s
adopt_all identity (raw ∷ rest) s =
    adopt_all identity rest (adopt raw (lookup raw.bot_id s.registry) (identity raw.pid) s)

abbrev pub is_running : ProcessState → Bool
is_running ProcessState.running = true
is_running _ = false

abbrev pub is_unknown : ProcessState → Bool
is_unknown ProcessState.unknown = true
is_unknown _ = false

-- The evidence that `startup` gives the health store for a bot.
unfoldable pub startup_evidence : RegisteredBot → Option ProcessRecord → Readings → HealthEvidence
startup_evidence bot none now =
    evidence bot.bot_id bot.is_enabled DesiredState.stopped false false none none
startup_evidence bot (some r) now =
    record (evidence bot.bot_id bot.is_enabled DesiredState.running (is_running r.state) r.adopted
      (some r.process_instance_id) (if is_running r.state then some now.received else none)) {
        process_conflict = is_unknown r.state;
      }

unfoldable pub report_all : Readings → List RegisteredBot → Service → Service
unfolding startup_evidence
report_all now [] s = s
report_all now (bot ∷ bots) s =
    let r : Option ProcessRecord = elim (lookup bot.bot_id s.records) [
      | none ↦ none
      | some p ↦ some (s.object p)
    ] in
    report_all now bots (report (startup_evidence bot r now) now s)

unfoldable pub startup : (ℕ → Option Identity) → Readings → Service → Service
startup identity now s =
    let s' = persist (adopt_all identity s.saved (record s { records = [] })) in
    report_all now (values s.registry) (record s' { is_accepting = true })

unfoldable pub shutdown : Service → Service
shutdown s = persist (record s { is_accepting = false })

-- ===== src/Supervisor/Process.antt =====
-- The state of `SupervisorService` (supervisor/service.py) and its small methods. A `ProcessRecord`
-- is a mutable object that `_records` and the exit callbacks share, so the records stand on a heap.
pub mod Laws
use modular_discord_bot_oper.Common.{
  ℕ, ◌+◌, String, Bool, true, false, Option, none, some, List, [], ◌∷◌, ◌++◌, map, not, ◌==◌,
  if◌then◌else◌,
}
use modular_discord_bot_oper.Common.Dict.{Dict, lookup, insert, values}
use modular_discord_bot_oper.Common.Json.{ℤ}
use modular_discord_bot_oper.Supervisor.Models.{
  ProcessState, LifecycleAction, OperationRecord, ProcessRecord, RegisteredBot, Error,
}
use modular_discord_bot_oper.Supervisor.Models
use modular_discord_bot_oper.Supervisor.Health.{
  DesiredState, HealthEvidence, HealthStore, set_evidence,
}
use modular_discord_bot_oper.Supervisor.Health.Store.{Readings}

-- The fields that `StateStore._encode` writes to the state file.
pub record SavedRecord : Type 0 where
  pub bot_id : String
  pub process_instance_id : String
  pub pid : ℕ
  pub started_at : ℕ
  pub os_start_ticks : ℕ
  pub expected_argv : List String
  pub state : ProcessState

unfoldable pub encode : ProcessRecord → SavedRecord
encode r = record {
  bot_id = r.bot_id;
  process_instance_id = r.process_instance_id;
  pid = r.pid;
  started_at = r.started_at;
  os_start_ticks = r.os_start_ticks;
  expected_argv = r.expected_argv;
  state = r.state;
}

unfoldable pub decode : SavedRecord → ProcessRecord
decode raw = record {
  bot_id = raw.bot_id;
  process_instance_id = raw.process_instance_id;
  pid = raw.pid;
  started_at = raw.started_at;
  os_start_ticks = raw.os_start_ticks;
  expected_argv = raw.expected_argv;
  state = raw.state;
  adopted = true;
  exit_code = none;
  exited_at = none;
  expected_exit = false;
  forced = false;
}

pub data EventKind : Type 0 where
  requested succeeded failed : LifecycleAction → EventKind
  exited : EventKind

pub record AuditEvent : Type 0 where
  pub kind : EventKind
  pub bot_id : String
  pub operation_id : Option String
  pub process_instance_id : Option String
  pub actor : Option String
  pub error_category : Option Error

-- What the controller did to processes.
pub data Effect : Type 0 where
  spawned : String → List String → Dict String → Effect
  terminated killed : ℕ → Effect

pub record Service : Type 0 where
  pub registry : Dict RegisteredBot
  pub environment : Dict String
  pub runtime_root : String
  pub heartbeat_socket : String
  pub object : ℕ → ProcessRecord
  pub next_object : ℕ
  pub records : Dict ℕ
  pub operations : Dict OperationRecord
  pub locked : Dict (Unit {0})
  pub is_accepting : Bool
  pub saved : List SavedRecord
  pub health : HealthStore
  pub audit : List AuditEvent
  pub effects : List Effect

-- A write through a reference.
unfoldable pub set_object : ℕ → ProcessRecord → Service → Service
set_object p r s = record s { object = λ q. if p == q then r else s.object q }

-- A new object, bound to a bot in `_records`.
unfoldable pub bind_new : String → ProcessRecord → Service → Service
bind_new bot r s = record s {
  object = λ q. if s.next_object == q then r else s.object q;
  next_object = s.next_object + 1;
  records = insert bot s.next_object s.records;
}

-- `_persist`
unfoldable pub persist : Service → Service
persist s = record s { saved = map (λ p. encode (s.object p)) (values s.records) }

unfoldable pub emit : AuditEvent → Service → Service
emit e s = record s { audit = s.audit ++ e ∷ [] }

unfoldable pub perform : Effect → Service → Service
perform e s = record s { effects = s.effects ++ e ∷ [] }

-- `await self.health.set_evidence(...)`
unfoldable pub report : HealthEvidence → Readings → Service → Service
report e now s = record s { health = (set_evidence e now s.health).1 }

-- The arguments that `HealthEvidence(...)` gives by position; the others keep their defaults.
abbrev pub evidence :
    String → Bool → DesiredState → Bool → Bool → Option String → Option ℕ → HealthEvidence
evidence bot enabled desired running verified instance_id started = record {
  bot_id = bot;
  is_enabled = enabled;
  desired = desired;
  process_running = running;
  identity_verified = verified;
  process_instance_id = instance_id;
  process_started = started;
  heartbeat = none;
  heartbeat_received = none;
  is_restarting = false;
  in_maintenance = false;
  exited_unexpectedly = false;
  in_crash_loop = false;
  process_conflict = false;
}

-- `get_process_state` for a registered bot
unfoldable pub process_state : RegisteredBot → Service → ProcessState
process_state bot s = elim (lookup bot.bot_id s.records) [
  | none ↦ if bot.is_enabled then ProcessState.offline else ProcessState.disabled
  | some p ↦ (s.object p).state
]

-- The end of a child process, as the controller's waiter reports it: the record that the waiter
-- holds, the exit code, and the clocks.
pub record Exit : Type 0 where
  pub reference : ℕ
  pub code : ℤ
  pub at : ℕ
  pub now : Readings

abbrev pub after_exit : ProcessRecord → ℤ → ℕ → ProcessRecord
after_exit r code at = record r {
  exit_code = some code;
  exited_at = some at;
  state = if r.expected_exit then ProcessState.offline else ProcessState.crashed;
}

-- `_process_exited`; a bot that the registry does not know ends the callback by an exception.
unfoldable pub process_exited : Exit → Service → Service
unfolding set_object persist report emit
process_exited x s =
    let r = s.object x.reference in
    let s' = persist (set_object x.reference (after_exit r x.code x.at) s) in
    elim (lookup r.bot_id s.registry) [
      | none ↦ s'
      | some bot ↦
          emit
            (record {
              kind = exited;
              bot_id = r.bot_id;
              operation_id = none;
              process_instance_id = some r.process_instance_id;
              actor = none;
              error_category = none;
            })
            (report
              (record (evidence r.bot_id bot.is_enabled
                (if r.expected_exit then DesiredState.stopped else DesiredState.running) false true
                (some r.process_instance_id) none) { exited_unexpectedly = not r.expected_exit })
              x.now s')
    ]

-- The callbacks that run while a method waits, in order.
unfoldable pub exits : List Exit → Service → Service
exits [] s = s
exits (x ∷ xs) s = exits xs (process_exited x s)

-- ===== src/Supervisor/Examples.antt =====
-- Runs of the model of supervisor/service.py and supervisor/health.py on sample bots.
use modular_discord_bot_oper.Common.{
  ℕ, String, true, false, Option, none, some, List, [], ◌∷◌, ◌≡◌, refl, inl, inr, arith, err, ◌↔◌,
  str_eq, eq_iff, Bool-cases,
}
use modular_discord_bot_oper.Common.Dict.{Dict, lookup}
use modular_discord_bot_oper.Heartbeat.{Heartbeat}
use modular_discord_bot_oper.Supervisor.Models.{
  ProcessState, LifecycleAction, ProcessRecord, RegisteredBot, Identity, already_running,
}
use modular_discord_bot_oper.Supervisor.Health.Reconcile.{
  CanonicalState, DesiredState, HealthTiming, HealthEvidence, reconcile, heartbeat_fresh,
}
use modular_discord_bot_oper.Supervisor.Health.Store.{
  Readings, HealthSnapshot, HealthStore, accept_heartbeat, is_acceptable,
}
use modular_discord_bot_oper.Supervisor.Health.Laws.{IsLive, reconcile-online}
use modular_discord_bot_oper.Supervisor.Health.Sequences.{
  IsKeyed, IsAbove, RisesFrom, next_number, deliver, accept_heartbeat-IsKeyed,
  accept_heartbeat-IsStored, deliver-RisesFrom,
}
use modular_discord_bot_oper.Supervisor.Process.{
  Service, evidence, encode, perform, persist, report, set_object, exits,
}
use modular_discord_bot_oper.Supervisor.Lifecycle.{matches}
use modular_discord_bot_oper.Supervisor.Start.{StartWorld, start_locked, child_environment}
use modular_discord_bot_oper.Supervisor.Start.Outcome.{
  IsStartOutcome, start_locked-IsStartOutcome, start_locked-live, child_environment-hides,
}
use modular_discord_bot_oper.Supervisor.Stop.{
  StopWorld, stop_locked, stop_record, stop_process, verify_identity, await_exit, force_stop,
  finish_stop,
}
use modular_discord_bot_oper.Supervisor.Stop.Signals.{AllowedSignals, stop_locked-AllowedSignals}
use modular_discord_bot_oper.Supervisor.Stop.Outcome.{stop_locked-offline}
use modular_discord_bot_oper.Supervisor.Stop.Stranded.{Attempt, AreRefused, stop_locked_strands}
use modular_discord_bot_oper.Supervisor.Operate.{Stamps, operate, with_id}
use modular_discord_bot_oper.Supervisor.Operate.Outcome.{IsClosed, operate-IsClosed}
use modular_discord_bot_oper.Supervisor.Startup.{startup}
use modular_discord_bot_oper.Supervisor.Startup.Outcome.{IsTakenOver, startup-IsTakenOver}

abbrev unbot : RegisteredBot
unbot = record {
  bot_id = "unbot";
  is_enabled = true;
  entry_point = "unbot";
  executable = "/opt/python";
  token_variable = "UNBOT_TOKEN";
  shutdown_timeout = 10;
}

abbrev argv : List String
argv = "/opt/python" ∷ "-m" ∷ "unbot" ∷ []

abbrev pub kernel : Identity
kernel = record { ticks = 77; argv = argv }

abbrev record_in : ProcessState → ProcessRecord
record_in state = record {
  bot_id = "unbot";
  process_instance_id = "i1";
  pid = 41;
  started_at = 5;
  os_start_ticks = 77;
  expected_argv = argv;
  state = state;
  adopted = false;
  exit_code = none;
  exited_at = none;
  expected_exit = false;
  forced = false;
}

abbrev readings : Readings
readings = record { received = 100; reconciled = 101; refreshed = 102; wall = 1000 }

abbrev live_evidence : HealthEvidence
live_evidence = evidence "unbot" true DesiredState.running true true (some "i1") (some 90)

abbrev timing : HealthTiming
timing = record { emission_cadence = 5; freshness_threshold = 15; startup_health_timeout = 30 }

abbrev snapshot : HealthSnapshot
snapshot = record {
  evidence = live_evidence;
  state = CanonicalState.starting;
  state_changed_at = 900;
  reason = modular_discord_bot_oper.Supervisor.Health.Reconcile.awaiting_fresh_heartbeat;
  is_fresh = false;
}

abbrev health : HealthStore
health = record { timing = timing; items = ("unbot", snapshot) ∷ []; events = [] }

-- A service whose one bot has a record in the given state, with the given locks.
abbrev pub service_in : ProcessState → Dict (Unit {0}) → Service
service_in state locked = record {
  registry = ("unbot", unbot) ∷ [];
  environment = ("PATH", "/bin") ∷ ("UNBOT_TOKEN", "t1") ∷ ("CDA_TOKEN", "t2") ∷ [];
  runtime_root = "/run/bots";
  heartbeat_socket = "/run/bots/hb";
  object = λ _. record_in state;
  next_object = 1;
  records = ("unbot", 0) ∷ [];
  operations = [];
  locked = locked;
  is_accepting = true;
  saved = encode (record_in ProcessState.running) ∷ [];
  health = health;
  audit = [];
  effects = [];
}

abbrev pub start_world : StartWorld
start_world = record {
  executable_ready = true;
  directory_ready = true;
  instance_id = "i2";
  utc = 7;
  spawned_pid = some 42;
  grace_exits = [];
  return_code = none;
  identity = some kernel;
  now = readings;
}

-- A stop that meets the given identity both times; SIGTERM is not enough.
abbrev pub stop_world : Option Identity → StopWorld
stop_world found = record {
  identity = found;
  term_delivered = true;
  wait_exits = [];
  exited_in_time = false;
  second_identity = found;
  kill_delivered = true;
  kill_exits = [];
  killed_in_time = true;
  now = readings;
}

abbrev pub stamps : Stamps
stamps = record { operation_id = "op"; requested_at = 1; started_at = 2; completed_at = 3 }

stop_locked-AllowedSignals_example :
    AllowedSignals
      (stop_world (some kernel))
      (record_in ProcessState.running)
      []
      (stop_locked (stop_world (some kernel)) unbot (service_in ProcessState.running [])).1.effects
unfolding lookup
stop_locked-AllowedSignals_example =
    stop_locked-AllowedSignals (stop_world (some kernel)) unbot (service_in ProcessState.running [])
      0 refl

stop_locked-offline_example :
    ((stop_locked (stop_world (some kernel)) unbot (service_in ProcessState.running [])).1.object
      0).state
    ≡ ProcessState.offline
unfolding lookup stop_locked stop_record stop_process verify_identity await_exit force_stop
    finish_stop matches set_object perform persist report exits encode
stop_locked-offline_example =
    stop_locked-offline (stop_world (some kernel)) unbot (service_in ProcessState.running []) 0
      {i = some "i1"} refl refl

stop_locked_strands_example :
    AreRefused unbot 0
      (Attempt.stop (stop_world none)
        ∷ Attempt.start start_world
        ∷ Attempt.stop (stop_world none)
        ∷ Attempt.start start_world
        ∷ [])
      (service_in ProcessState.crashed [])
unfolding lookup matches
stop_locked_strands_example =
    stop_locked_strands unbot 0 refl (service_in ProcessState.crashed []) (stop_world none)
      (Attempt.start start_world ∷ Attempt.stop (stop_world none) ∷ Attempt.start start_world ∷ [])
      refl refl (refl, (refl, tt))

start_locked-IsStartOutcome_example :
    IsStartOutcome start_world unbot
      (service_in ProcessState.offline [])
      (start_locked start_world unbot (service_in ProcessState.offline [])).0
      (start_locked start_world unbot (service_in ProcessState.offline [])).1
start_locked-IsStartOutcome_example =
    start_locked-IsStartOutcome start_world unbot (service_in ProcessState.offline [])

start_locked-live_example :
    start_locked start_world unbot (service_in ProcessState.running [])
    ≡ (err already_running, service_in ProcessState.running [])
unfolding lookup
start_locked-live_example =
    start_locked-live start_world unbot (service_in ProcessState.running []) refl refl

child_environment-hides_example :
    lookup "CDA_TOKEN" (child_environment unbot "t1" "i2" (service_in ProcessState.offline []))
    ≡ none
child_environment-hides_example =
    child_environment-hides unbot "t1" "i2" "CDA_TOKEN" (service_in ProcessState.offline []) refl
      (λ e. cc ((eq_iff "CDA_TOKEN" "UNBOT_TOKEN").1 e)) refl

abbrev starting : modular_discord_bot_oper.Supervisor.Operate.Implementation
starting = λ b. with_id (start_locked start_world b)

operate-IsClosed_example :
    IsClosed "unbot" stamps
      (operate "unbot" LifecycleAction.start none stamps starting
        (service_in ProcessState.offline [])).0
      (operate "unbot" LifecycleAction.start none stamps starting
        (service_in ProcessState.offline [])).1
unfolding lookup
operate-IsClosed_example =
    operate-IsClosed "unbot" unbot LifecycleAction.start none stamps starting
      (service_in ProcessState.offline []) refl refl refl refl

startup-IsTakenOver_example :
    IsTakenOver
      (λ _. some kernel)
      (service_in ProcessState.offline []).registry
      (service_in ProcessState.offline []).saved
      (startup (λ _. some kernel) readings (service_in ProcessState.offline []))
startup-IsTakenOver_example =
    startup-IsTakenOver (λ _. some kernel) readings (service_in ProcessState.offline [])

abbrev heartbeat : ℕ → Heartbeat
heartbeat n = record {
  version = 1;
  bot_id = "unbot";
  process_instance_id = "i1";
  sequence = n;
  emitted_at = 50;
  discord_connected = true;
  discord_ready = true;
  maintenance = false;
}

abbrev beating : HealthEvidence
beating = record live_evidence { heartbeat = some (heartbeat 3); heartbeat_received = some 100 }

reconcile-online_example :
    (reconcile beating 101 timing).0 ≡ CanonicalState.online ↔ IsLive beating 101 timing
reconcile-online_example = reconcile-online beating 101 timing

-- The sample store keeps its snapshot under its bot.
health-IsKeyed : IsKeyed health
health-IsKeyed = record {
  at_key = λ k s found. elim (Bool-cases (str_eq "unbot" k)) [
    | inl same ↦ (unfold lookup in ground (arith, eq_iff "unbot" k))
    | inr other ↦ (unfold lookup in absurd (cc (rw other at found)))
  ];
}

accept_heartbeat-IsKeyed_example :
    IsKeyed (accept_heartbeat "unbot" (heartbeat 3) readings health).1
accept_heartbeat-IsKeyed_example =
    accept_heartbeat-IsKeyed readings health "unbot" (heartbeat 3) health-IsKeyed

abbrev sample : Heartbeat
sample = heartbeat 3

accept_heartbeat-IsStored_example :
    (before : HealthSnapshot) × (after : HealthSnapshot) × (lookup "unbot" health.items
      ≡ some before)
    × (sample.bot_id ≡ "unbot")
    × (before.evidence.identity_verified ≡ true)
    × (before.evidence.process_instance_id ≡ some sample.process_instance_id)
    × IsAbove before.evidence.heartbeat 3
    × (lookup "unbot" (accept_heartbeat "unbot" (heartbeat 3) readings health).1.items ≡ some after)
    × (after.evidence ≡ record before.evidence {
      heartbeat = some sample;
      heartbeat_received = some readings.received;
      in_maintenance = false;
    })
unfolding accept_heartbeat lookup is_acceptable
accept_heartbeat-IsStored_example =
    accept_heartbeat-IsStored "unbot" readings health health-IsKeyed sample refl

deliver-RisesFrom_example :
    RisesFrom
      (next_number (lookup "unbot" health.items))
      (deliver "unbot"
        ((heartbeat 3, readings) ∷ (heartbeat 2, readings) ∷ (heartbeat 5, readings) ∷ [])
        health).0
deliver-RisesFrom_example =
    deliver-RisesFrom "unbot"
      ((heartbeat 3, readings) ∷ (heartbeat 2, readings) ∷ (heartbeat 5, readings) ∷ []) health
      health-IsKeyed

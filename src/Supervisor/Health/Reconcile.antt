-- ===== src/Supervisor/Health/Reconcile.antt =====
-- `HealthEvidence` and `reconcile` of supervisor/health.py.
use modular_discord_bot_oper.Common.{
  ℕ, ◌+◌, String, Bool, true, false, Option, none, some, leb, ◌&&◌, ◌||◌, not, if◌then◌else◌,
}
use modular_discord_bot_oper.Heartbeat.{Heartbeat}

pub data CanonicalState : Type 0 where
  disabled crash_loop restarting maintenance crashed : CanonicalState
  offline unknown starting disconnected online : CanonicalState

pub data DesiredState : Type 0 where
  running stopped : DesiredState

-- The texts beside the states.
pub data Reason : Type 0 where
  manifest_disabled crash_loop_latched trusted_restart maintenance_confirmed : Reason
  unexpected_exit desired_stopped process_identity_unverified process_evidence_missing : Reason
  awaiting_fresh_heartbeat heartbeat_missing_or_stale heartbeat_missing : Reason
  awaiting_discord_ready discord_not_ready fresh_ready_heartbeat : Reason

pub record HealthTiming : Type 0 where
  pub emission_cadence : ℕ
  pub freshness_threshold : ℕ
  pub startup_health_timeout : ℕ

pub record HealthEvidence : Type 0 where
  pub bot_id : String
  pub is_enabled : Bool
  pub desired : DesiredState
  pub process_running : Bool
  pub identity_verified : Bool
  pub process_instance_id : Option String
  pub process_started : Option ℕ
  pub heartbeat : Option Heartbeat
  pub heartbeat_received : Option ℕ
  pub is_restarting : Bool
  pub in_maintenance : Bool
  pub exited_unexpectedly : Bool
  pub in_crash_loop : Bool
  pub process_conflict : Bool

abbrev pub wants_stop : DesiredState → Bool
wants_stop DesiredState.stopped = true
wants_stop DesiredState.running = false

-- `t is not None and now - t <= limit`
abbrev pub within : ℕ → ℕ → Option ℕ → Bool
within now limit none = false
within now limit (some t) = leb now (t + limit)

unfoldable pub heartbeat_fresh : HealthEvidence → ℕ → HealthTiming → Bool
heartbeat_fresh e now timing = within now timing.freshness_threshold e.heartbeat_received

-- The tail of `reconcile` after the freshness test: what Discord said of itself.
discord_state : Option Heartbeat → Bool → CanonicalState × Reason
discord_state none young = (CanonicalState.unknown, Reason.heartbeat_missing)
discord_state (some h) young =
    if not h.discord_connected || not h.discord_ready
    then (if young
        then (CanonicalState.starting, Reason.awaiting_discord_ready)
        else (CanonicalState.disconnected, Reason.discord_not_ready))
    else (CanonicalState.online, Reason.fresh_ready_heartbeat)

-- A process with no start time counts as older than the startup timeout.
unfoldable pub reconcile : HealthEvidence → ℕ → HealthTiming → CanonicalState × Reason
unfolding heartbeat_fresh discord_state
reconcile e now timing =
    let young = within now timing.startup_health_timeout e.process_started in
    if not e.is_enabled
    then (CanonicalState.disabled, Reason.manifest_disabled)
    else if e.in_crash_loop
    then (CanonicalState.crash_loop, Reason.crash_loop_latched)
    else if e.is_restarting
    then (CanonicalState.restarting, Reason.trusted_restart)
    else if e.in_maintenance
    then (CanonicalState.maintenance, Reason.maintenance_confirmed)
    else if e.exited_unexpectedly && not e.process_running
    then (CanonicalState.crashed, Reason.unexpected_exit)
    else if wants_stop e.desired && not e.process_running
    then (CanonicalState.offline, Reason.desired_stopped)
    else if e.process_conflict || (e.process_running && not e.identity_verified)
    then (CanonicalState.unknown, Reason.process_identity_unverified)
    else if not e.process_running
    then (CanonicalState.unknown, Reason.process_evidence_missing)
    else if not (heartbeat_fresh e now timing)
    then (if young
        then (CanonicalState.starting, Reason.awaiting_fresh_heartbeat)
        else (CanonicalState.unknown, Reason.heartbeat_missing_or_stale))
    else discord_state e.heartbeat young

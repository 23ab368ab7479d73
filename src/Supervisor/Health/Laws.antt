-- ===== src/Supervisor/Health/Laws.antt =====
-- What the health of supervisor/health.py promises.
use modular_discord_bot_oper.Common.{ℕ, ◌+◌, ◌≤◌, true, false, some, ◌≡◌, ◌↔◌, arith}
use modular_discord_bot_oper.Heartbeat.{Heartbeat}
use modular_discord_bot_oper.Supervisor.Health.Reconcile.{
  CanonicalState, HealthTiming, HealthEvidence, reconcile,
}

-- All that must hold for a bot to be shown as online.
pub record IsLive (e : HealthEvidence) (now : ℕ) (timing : HealthTiming) : Type 0 where
  pub is_enabled : e.is_enabled ≡ true
  pub settled : (e.in_crash_loop ≡ false) × (e.is_restarting ≡ false) × (e.in_maintenance ≡ false)
  pub running : e.process_running ≡ true
  pub verified : (e.identity_verified ≡ true) × (e.process_conflict ≡ false)
  pub fresh : (t : ℕ) × (e.heartbeat_received ≡ some t) × (now ≤ t + timing.freshness_threshold)
  pub reported :
      (h : Heartbeat) × (e.heartbeat ≡ some h)
      × (h.discord_connected ≡ true)
      × (h.discord_ready ≡ true)

module _ (e : HealthEvidence) (now : ℕ) (timing : HealthTiming) where
  IsLive-of_online : (reconcile e now timing).0 ≡ CanonicalState.online → IsLive e now timing
  unfolding reconcile
  IsLive-of_online h = record {
    is_enabled = ground arith;
    settled = ground arith;
    running = ground arith;
    verified = ground arith;
    fresh = ground arith;
    reported = ground arith;
  }

  reconcile-of_live : IsLive e now timing → (reconcile e now timing).0 ≡ CanonicalState.online
  unfolding reconcile
  reconcile-of_live l = ground arith

  -- A bot is shown as online exactly when it is enabled, in none of the states that come first, runs
  -- with a verified identity and no conflict, and a heartbeat that says connected and ready came in
  -- no longer ago than the freshness threshold.
  pub reconcile-online : (reconcile e now timing).0 ≡ CanonicalState.online ↔ IsLive e now timing
  reconcile-online = (IsLive-of_online, reconcile-of_live)

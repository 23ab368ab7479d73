-- ===== src/Supervisor/Health/Store.antt =====
-- `HealthStore` and `HeartbeatReceiver.receive` of supervisor/health.py. A method takes its readings
-- of the clocks as arguments; the event sink keeps the events in order.
use modular_discord_bot_oper.Common.{
  ℕ, String, Bool, true, false, Option, none, some, List, [], ◌∷◌, ◌++◌, leb, ◌&&◌, ◌||◌, not,
  if◌then◌else◌, str_eq, ◌==◌, ok, err, ltb,
}
use modular_discord_bot_oper.Common.Dict.{Dict, lookup, insert}
use modular_discord_bot_oper.Common.Json.{Json}
use modular_discord_bot_oper.Heartbeat
use modular_discord_bot_oper.Heartbeat.{Heartbeat, Parsers, max_heartbeat_bytes, decode_heartbeat}
use modular_discord_bot_oper.Supervisor.Health.Reconcile.{
  CanonicalState, Reason, HealthTiming, HealthEvidence, heartbeat_fresh, reconcile,
}

pub record HealthSnapshot : Type 0 where
  pub evidence : HealthEvidence
  pub state : CanonicalState
  pub state_changed_at : ℕ
  pub reason : Reason
  pub is_fresh : Bool

pub record HealthEvent : Type 0 where
  pub timestamp : ℕ
  pub bot_id : String
  pub process_instance_id : Option String
  pub old_state : Option CanonicalState
  pub new_state : CanonicalState
  pub reason : Reason

pub record HealthStore : Type 0 where
  pub timing : HealthTiming
  pub items : Dict HealthSnapshot
  pub events : List HealthEvent

-- The readings of the monotonic clock in one call, in order, and of the wall clock.
pub record Readings : Type 0 where
  pub received : ℕ
  pub reconciled : ℕ
  pub refreshed : ℕ
  pub wall : ℕ

-- Enumerations compare by their values: the position stands for the text.
state_value : CanonicalState → ℕ
state_value CanonicalState.disabled = 0
state_value CanonicalState.crash_loop = 1
state_value CanonicalState.restarting = 2
state_value CanonicalState.maintenance = 3
state_value CanonicalState.crashed = 4
state_value CanonicalState.offline = 5
state_value CanonicalState.unknown = 6
state_value CanonicalState.starting = 7
state_value CanonicalState.disconnected = 8
state_value CanonicalState.online = 9

reason_value : Reason → ℕ
reason_value Reason.manifest_disabled = 0
reason_value Reason.crash_loop_latched = 1
reason_value Reason.trusted_restart = 2
reason_value Reason.maintenance_confirmed = 3
reason_value Reason.unexpected_exit = 4
reason_value Reason.desired_stopped = 5
reason_value Reason.process_identity_unverified = 6
reason_value Reason.process_evidence_missing = 7
reason_value Reason.awaiting_fresh_heartbeat = 8
reason_value Reason.heartbeat_missing_or_stale = 9
reason_value Reason.heartbeat_missing = 10
reason_value Reason.awaiting_discord_ready = 11
reason_value Reason.discord_not_ready = 12
reason_value Reason.fresh_ready_heartbeat = 13

unfoldable pub changed : Option HealthSnapshot → CanonicalState → Reason → Bool
unfolding state_value reason_value
changed none state reason = true
changed (some prior) state reason =
    not (state_value prior.state == state_value state)
    || not (reason_value prior.reason == reason_value reason)

abbrev prior_state : Option HealthSnapshot → Option CanonicalState
prior_state none = none
prior_state (some s) = some s.state

abbrev changed_at : Bool → Option HealthSnapshot → ℕ → ℕ
changed_at _ none wall = wall
changed_at c (some s) wall = if c then wall else s.state_changed_at

-- `_set`
unfoldable pub set_evidence : HealthEvidence → Readings → HealthStore → HealthSnapshot × HealthStore
unfolding changed
set_evidence e now store =
    let (state, reason) = reconcile e now.reconciled store.timing in
    let prior = lookup e.bot_id store.items in
    let is_change = changed prior state reason in
    let at = changed_at is_change prior now.wall in
    let result : HealthSnapshot = record {
      evidence = e;
      state = state;
      state_changed_at = at;
      reason = reason;
      is_fresh = heartbeat_fresh e now.refreshed store.timing;
    } in
    let event : HealthEvent = record {
      timestamp = at;
      bot_id = e.bot_id;
      process_instance_id = e.process_instance_id;
      old_state = prior_state prior;
      new_state = state;
      reason = reason;
    } in
    (
      result,
      record store {
        items = insert e.bot_id result store.items;
        events = if is_change then store.events ++ event ∷ [] else store.events;
      },
    )

abbrev pub same_instance : String → Option String → Bool
same_instance i none = false
same_instance i (some j) = str_eq i j

-- `previous is not None and heartbeat.sequence <= previous.sequence`
abbrev pub is_replay : Heartbeat → Option Heartbeat → Bool
is_replay h none = false
is_replay h (some previous) = leb h.sequence previous.sequence

-- The heartbeat tests of `accept_heartbeat`.
unfoldable pub is_acceptable : Heartbeat → HealthEvidence → Bool
is_acceptable h e =
    e.identity_verified
    && same_instance h.process_instance_id e.process_instance_id
    && not (is_replay h e.heartbeat)

unfoldable pub with_heartbeat : Heartbeat → ℕ → HealthEvidence → HealthEvidence
with_heartbeat h received e = record e {
  heartbeat = some h;
  heartbeat_received = some received;
  in_maintenance = h.maintenance;
}

unfoldable pub accept_heartbeat : String → Heartbeat → Readings → HealthStore → Bool × HealthStore
accept_heartbeat bot h now store = elim (lookup bot store.items) [
  | none ↦ (false, store)
  | some current ↦
      if str_eq h.bot_id bot && is_acceptable h current.evidence
      then (true, (set_evidence (with_heartbeat h now.received current.evidence) now store).1)
      else (false, store)
]

unfoldable pub get : String → Bool → Readings → HealthStore → Option HealthSnapshot × HealthStore
get bot refresh now store = elim (lookup bot store.items) [
  | none ↦ (none, store)
  | some item ↦
      if refresh
      then (let (item', store') = set_evidence item.evidence now store in (some item', store'))
      else (some item, store)
]

-- `HeartbeatReceiver.receive` on a payload of `size` bytes that `json.loads` has read or refused.
-- `none` is the exception that `decode_heartbeat` lets through.
unfoldable pub receive :
    Parsers → List String → ℕ → Option Json → Readings → HealthStore → Option Bool × HealthStore
receive lib allowed size parsed now store =
    if ltb max_heartbeat_bytes size
    then (some false, store)
    else elim (decode_heartbeat lib allowed size parsed) [
      | ok h ↦
          (let (accepted, store') = accept_heartbeat h.bot_id h now store in
            (some accepted, store'))
      | err Heartbeat.attribute_error ↦ (none, store)
      | err _ ↦ (some false, store)
    ]

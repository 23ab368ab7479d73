-- ===== src/Portal/Examples.antt =====
-- Runs of the models of portal/bot_operations.py and portal/sessions.py on sample data.
use modular_discord_bot_oper.Common.{
  ℕ, String, ◌≡◌, refl, ◌<◌, ◌≤◌, ◌+◌, arith, length, eq_iff, false, true, none, some, [], ◌∷◌,
}
use modular_discord_bot_oper.Common.Dict.{lookup, insert, erase}
use modular_discord_bot_oper.Common.Json.{pos}
use modular_discord_bot_oper.Supervisor.Models.{ProcessState}
use modular_discord_bot_oper.Supervisor.Health.Reconcile.{CanonicalState, DesiredState, Reason}
use modular_discord_bot_oper.Supervisor.Health.Store.{HealthSnapshot}
use modular_discord_bot_oper.Supervisor.Process.{evidence}
use modular_discord_bot_oper.Portal.Authorization.{Principal, can}
use modular_discord_bot_oper.Portal.Limiter.Refinement.{Calls, run, spec_run, run_refines}
use modular_discord_bot_oper.Portal.Sessions.{
  PortalSession, SessionStore, new_session, create, get, is_live, rotate, invalidate, cleanup,
  live_part, evict,
}
use modular_discord_bot_oper.Portal.Sessions.Room.{IsKeyed}
use modular_discord_bot_oper.Portal.Sessions.Laws.{get-IsLive, create-total, rotate-forgets}
use modular_discord_bot_oper.Portal.Operations.Model.{
  Capability, OperationType, CogDefinition, returned, raised, World, Operations,
}
use modular_discord_bot_oper.Portal.Operations.Control.{
  cog_operation, sync_commands, set_maintenance,
}
use modular_discord_bot_oper.Portal.Operations.Control.Abandoned.{
  IsLeft, sync_commands-IsLeft, set_maintenance-IsLeft,
}
use modular_discord_bot_oper.Portal.Operations.Control.Outcome.{IsEnded, cog_operation-IsEnded}

abbrev operator : Principal
operator = record {
  principal_id = "operator";
  permissions = "cogs.manage" ∷ "commands.sync" ∷ [];
  bot_ids = some ("unbot" ∷ []);
}

abbrev watcher : CogDefinition
watcher = record {
  cog_id = "habbo-profile-watcher";
  display_name = "HabboProfileWatcher";
  extension = "unbot.cogs.HabboProfileWatcher";
  loadable = true;
  unloadable = true;
  reloadable = true;
  dependencies = [];
}

abbrev service : Operations
service = record {
  catalog =
      (
        "unbot",
        record {
          capabilities =
              Capability.cogs_reload ∷ Capability.commands_sync ∷ Capability.maintenance_enable
              ∷ [];
          cogs = ("habbo-profile-watcher", watcher) ∷ [];
          command_scope = some "global";
        },
      )
      ∷ [];
  locked = [];
  operations = [];
  history = [];
  history_limit = 100;
  audit = [];
  control_calls = [];
}

abbrev snapshot : HealthSnapshot
snapshot = record {
  evidence = evidence "unbot" true DesiredState.running true true (some "i1") (some 90);
  state = CanonicalState.starting;
  state_changed_at = 900;
  reason = Reason.awaiting_fresh_heartbeat;
  is_fresh = true;
}

abbrev ready_snapshot : HealthSnapshot
ready_snapshot = record snapshot {
  evidence = record snapshot.evidence {
    heartbeat = some (record {
      version = 1;
      bot_id = "unbot";
      process_instance_id = "i1";
      sequence = 3;
      emitted_at = 50;
      discord_connected = true;
      discord_ready = true;
      maintenance = false;
    });
  };
}

-- The process is another one after the call.
abbrev restarted : World
restarted = record {
  registered = true;
  state = ProcessState.running;
  snapshot = some snapshot;
  process = some "i1";
  operation_id = "op";
  requested_at = 1;
  started_at = 2;
  completed_at = 3;
  loaded = returned (watcher.extension ∷ []);
  done = returned tt;
  command_count = raised;
  reloads = λ cog. raised;
  process_after = some "i2";
  state_after = ProcessState.running;
}

-- A synchronization whose process is another one after the call.
abbrev counted : World
counted = record restarted { snapshot = some ready_snapshot; command_count = returned (pos 12) }

abbrev keeper : Principal
keeper = record operator { permissions = "maintenance.manage" ∷ [] }

cog_operation-IsEnded_example :
    IsEnded can operator "unbot" "habbo-profile-watcher" "r1" Capability.cogs_reload
      OperationType.cog_reload restarted service
      (cog_operation can operator "unbot" "habbo-profile-watcher" "r1" Capability.cogs_reload
        OperationType.cog_reload restarted service).0
      (cog_operation can operator "unbot" "habbo-profile-watcher" "r1" Capability.cogs_reload
        OperationType.cog_reload restarted service).1
cog_operation-IsEnded_example =
    cog_operation-IsEnded can operator "unbot" "habbo-profile-watcher" "r1" Capability.cogs_reload
      OperationType.cog_reload restarted service

sync_commands-IsLeft_example :
    IsLeft counted counted.command_count service
      (sync_commands can operator "unbot" "r1" counted service).0
      (sync_commands can operator "unbot" "r1" counted service).1
sync_commands-IsLeft_example = sync_commands-IsLeft can operator "unbot" "r1" counted service

set_maintenance-IsLeft_example :
    IsLeft restarted restarted.done service
      (set_maintenance can keeper "unbot" "r1" true restarted service).0
      (set_maintenance can keeper "unbot" "r1" true restarted service).1
set_maintenance-IsLeft_example =
    set_maintenance-IsLeft can keeper "unbot" "r1" true restarted service

abbrev session : String → ℕ → PortalSession
session id seen = record {
  session_id = id;
  csrf_token = "csrf";
  identity_id = some "owner";
  created_at = 10;
  last_seen_at = seen;
  absolute_expires_at = 1000;
  session_revision = 1;
}

abbrev sessions : SessionStore
sessions = record {
  idle_timeout = 100;
  absolute_timeout = 900;
  max_sessions = 2;
  sessions = ("s1", session "s1" 40) ∷ ("s2", session "s2" 30) ∷ [];
}

get-IsLive_example :
    (old : PortalSession) × (lookup "s1" sessions.sessions ≡ some old)
    × (50 < old.absolute_expires_at)
    × (50 < old.last_seen_at + 100)
    × (session "s1" 50 ≡ record old { last_seen_at = 50 })
unfolding get is_live lookup
get-IsLive_example = get-IsLive "s1" 50 sessions {session = session "s1" 50} refl

create-total_example :
    (made : PortalSession) × (after : SessionStore) × (create "s3" "csrf"
        (some "owner")
        1
        60
        61
        sessions
      ≡ some (made, after))
    × (length after.sessions ≤ 2)
    × (lookup "s3" after.sessions ≡ some made)
    × IsKeyed after.sessions
create-total_example =
    create-total "s3" "csrf" (some "owner") 1 60 61 sessions (omega arith) (refl, (refl, tt))

-- The store after a rotation.
abbrev rotated : SessionStore
rotated = record sessions {
  sessions = ("s2", session "s2" 30) ∷ ("s3", new_session "s3" "csrf" (some "owner") 2 61 900) ∷ [];
}

rotate-forgets_example : lookup "s1" rotated.sessions ≡ none
unfolding rotate create invalidate cleanup live_part evict is_live erase insert
rotate-forgets_example =
    rotate-forgets "s1" "s3" "csrf" "owner" 2 60 61 sessions
      {session = new_session "s3" "csrf" (some "owner") 2 61 900} {after = rotated}
      (λ e. cc ((eq_iff "s1" "s3").1 e)) refl

abbrev calls : Calls
calls = ("a", 1) ∷ ("b", 2) ∷ ("a", 4) ∷ ("a", 12) ∷ []

run_refines_example :
    run calls (record { limit = 1; window = 10; hits = [] }) ≡ spec_run 1 10 calls []
run_refines_example =
    run_refines 1 10 calls (omega arith, (omega arith, (omega arith, (omega arith, tt))))

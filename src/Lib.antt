-- ===== src/Lib.antt =====
-- The platform that runs several Discord bots: a supervisor that owns the bot processes, a heartbeat
-- protocol between the two, and a portal with authorization, operations on running bots and a
-- durable scheduler.
--
-- How the parts interact. A bot process sends heartbeats (shared/heartbeat.py) to the supervisor,
-- which checks them and derives a state for each bot (supervisor/health.py). The supervisor's service
-- (supervisor/service.py) starts, stops and restarts processes, and reports evidence to the health
-- store. Lifecycle requests reach the service through `ManagementApplication` of portal/management.py.
-- The portal's services ask an authorizer of the same file before they act: operations on cogs,
-- commands and maintenance (portal/bot_operations.py) are bound to the process instance that the
-- health evidence verified, and the scheduler (portal/scheduler.py) runs tasks on behalf of their
-- owners. Browser sessions (portal/sessions.py) and identities (portal/identity.py) share one
-- database, which the commands of portal/admin.py administer. Configuration (portal/resources.py) is
-- read and written through an adapter; backups (portal/backups.py) save and restore it through the
-- same one.
--
-- Files.
--   Common and below: results, the state and error monad `Exec`, dicts, JSON values, texts.
--   Heartbeat: the message, `decode_heartbeat` and `Heartbeat.encode`; Heartbeat/Reporter: the
--     methods of `HeartbeatReporter`, the events that drive them, and the threads that send.
--   Supervisor/Models: supervisor/models.py and errors.py.
--   Supervisor/Health: `reconcile` (Reconcile), `HealthStore` and `HeartbeatReceiver` (Store).
--   Supervisor/Process: the state of `SupervisorService` with its small methods, state.py, and the
--     exit callback; Start, Stop, Operate, Startup: `_start_locked`, `_stop_locked` and
--     `_restart_locked`, `_operate`, `startup` and `shutdown`.
--   Portal/Authorization: `Principal` and `DenyByDefaultAuthorizer`; Portal/Limiter:
--     `SlidingWindowLimiter`, with its specification in Refinement; Portal/Management: `lifecycle` of
--     `ManagementApplication` over the supervisor's service.
--   Portal/Operations: `BotOperationService`: its checks and records, and in Control the operations
--     that change a bot.
--   Portal/Sessions: `MemorySessionStore` of portal/sessions.py.
--   Portal/Identities: `SQLiteIdentityStore` and `PortalAuthenticator`; SessionTable:
--     `SQLiteSessionStore` over the same database; Commands: `main` of portal/admin.py; Sound, Updates,
--     Preserved, Audited and Access: what these keep and how they work together.
--   Portal/Resources: `validate_values`; Service: `ResourceAdapter` as a record of operations with its
--     laws, and `ResourceService`; Memory and Document: the two adapters; Values, Commits, Round and
--     Lawful: what these keep; Data: `data_page`, and Paging: its pages one after the other.
--   Portal/Backups: `_create_locked` and `_retention`; Restore: `preview_restore` and
--     `restore_backup`; Safety, Recovery and Outcome: how a restore ends; Stale: the same over
--     documents.
--   Scheduler/Model, Calendar, Store, Service, Execution: the data, `validate_schedule` and
--     `next_run`, `SQLiteSchedulerStore`, the operations on task definitions, and `_execute`,
--     `run_now`, `run_due` and the runner of portal/scheduler.py.
--   Each component's Examples: sample runs.
--
-- How state is modelled. A method is a function from its arguments and the state to a result and the
-- state; what was written before an exception stays written. A `ProcessRecord` is shared between the
-- table and the exit callbacks, so records stand on a heap and are named by references. What a method
-- awaits or reads from outside (clocks, new ids, the kernel's identity evidence, exits of children,
-- replies of a bot) is an argument: a `World`, a `StartWorld` or a `StopWorld`. Instants are natural
-- numbers of microseconds, Python's integers are unbounded.
--
-- Bounds. `search_days` counts the rounds of `next_run` down as the source's `range(0, 9)` does. The
-- loop of `MemorySessionStore.create` runs on as many rounds as there are sessions, since each round
-- removes one where every session stands under its own id.
--
-- Not modelled: subprocesses, signals and sockets themselves (supervisor/controller.py), time
-- zones, JSON text and UUID syntax, which are parameters; the SQL engine beyond its constraints;
-- `reload_all_cogs` and the queries of `BotOperationService`; the migrations of the identity
-- database, the lists of resources, and the files of a backup, which stand as its record and
-- values with a flag that says whether the checks of `_parse_manifest` pass; the web routes, the
-- manifest checks of shared/bot_core, and the bots themselves, whose cogs are glue to the Discord
-- library. Failures of the supervisor's state file and interleavings of operations on different
-- bots are left out, since those touch separate records; the removal of expired backups is taken to
-- succeed.
pub mod Common
pub mod Heartbeat
pub mod Supervisor
pub mod Portal
pub mod Scheduler

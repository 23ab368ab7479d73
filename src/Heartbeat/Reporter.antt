-- ===== src/Heartbeat/Reporter.antt =====
-- `HeartbeatReporter` of shared/heartbeat.py: the listeners of a Discord client and the loop `_run`
-- drive it. Each method runs up to its first `await`; a heartbeat that `emit` built is then with a
-- worker thread, and several may be: the threads send in any order, and an `await` returns later.
pub mod Emissions
use modular_discord_bot_oper.Common.{
  ℕ, zero, suc, ◌+◌, String, Bool, true, false, Option, none, some, List, [], ◌∷◌, ◌++◌, ◌&&◌, not,
  leb, if◌then◌else◌, ◌||◌,
}
use modular_discord_bot_oper.Common.Json.{str}
use modular_discord_bot_oper.Heartbeat.{
  Heartbeat, Parsers, UuidOutcome, canonical, max_heartbeat_bytes, schema_version,
}

pub record Reporter : Type 0 where
  pub bot_id : String
  pub socket_path : Option String
  pub process_instance_id : Option String
  pub connected : Bool
  pub ready : Bool
  pub maintenance : Bool
  pub sequence : ℕ
  pub task_running : Bool
  pub failure_logged : Bool

-- `HeartbeatReporter.__init__`, with the two variables of the environment
unfoldable pub initial : String → Option String → Option String → Reporter
initial bot path instance_id = record {
  bot_id = bot;
  socket_path = path;
  process_instance_id = instance_id;
  connected = false;
  ready = false;
  maintenance = false;
  sequence = 0;
  task_running = false;
  failure_logged = false;
}

abbrev parses : UuidOutcome → Bool
parses (canonical _) = true
parses _ = false

module _ (lib : Parsers) where
  -- the property `enabled`
  pub is_enabled : Reporter → Bool
  is_enabled r = elim r.socket_path [
    | none ↦ false
    | some _ ↦ elim r.process_instance_id [ none ↦ false | some i ↦ parses (lib.uuid (str i)) ]
  ]

  pub start : Reporter → Reporter
  start r = if is_enabled r && not r.task_running then record r { task_running = true } else r

  pub on_connect : Reporter → Reporter
  unfolding start
  on_connect r = start (record r { connected = true; ready = false })

  pub on_ready : Reporter → Reporter
  unfolding start
  on_ready r = start (record r { connected = true; ready = true })

  abbrev pub instance_or_empty : Option String → String
  instance_or_empty none = ""
  instance_or_empty (some i) = i

  -- the heartbeat that `emit` builds
  pub snapshot : Reporter → ℕ → Heartbeat
  snapshot r now = record {
    version = schema_version;
    bot_id = r.bot_id;
    process_instance_id = instance_or_empty r.process_instance_id;
    sequence = r.sequence;
    emitted_at = now;
    discord_connected = r.connected;
    discord_ready = r.ready;
    maintenance = r.maintenance;
  }

  -- `emit` up to its `await`: the heartbeat that a thread is given. Its number is used up, whatever
  -- the thread does.
  pub emit : ℕ → Reporter → Reporter × List Heartbeat
  unfolding is_enabled snapshot
  emit now r =
      if is_enabled r
      then (record r { sequence = r.sequence + 1 }, snapshot r now ∷ [])
      else (r, [])

  pub on_disconnect : ℕ → Reporter → Reporter × List Heartbeat
  unfolding emit
  on_disconnect now r = emit now (record r { connected = false; ready = false })

-- A reporter, and the heartbeats that threads have.
pub record Process : Type 0 where
  pub reporter : Reporter
  pub in_flight : List Heartbeat

-- What happens: the client's listeners, a round of the loop `_run`, `close`, the bot's own switch of
-- `maintenance`; a thread that sends the heartbeat at a position, of `size` bytes (the socket took it
-- or raised); and the return of an `await`. A round may start while another one's thread is busy: that
-- is more than one loop does, but a loop that `close` cancelled leaves its thread behind.
pub data Event : Type 0 where
  connect ready close : Event
  disconnect tick : (now : ℕ) → Event
  send : (position size : ℕ) → (taken : Bool) → Event
  resume : (sent : Bool) → Event
  switch_maintenance : Bool → Event

-- The heartbeat at a position and the others.
pub take_at : ℕ → List Heartbeat → List Heartbeat × List Heartbeat
take_at i [] = ([], [])
take_at zero (h ∷ hs) = (h ∷ [], hs)
take_at (suc i) (h ∷ hs) = let (taken, rest) = take_at i hs in (taken, h ∷ rest)

abbrev started : Reporter × List Heartbeat → List Heartbeat → Process
started (r, hs) flight = record { reporter = r; in_flight = hs ++ flight }

module _ (lib : Parsers) where
  -- A round of `_run`, while its task lives.
  pub loop_round : Bool → ℕ → Reporter → Reporter × List Heartbeat
  unfolding emit
  loop_round true now r = emit lib now r
  loop_round false now r = (r, [])

  -- One event, with what it makes the socket get.
  pub handle : Event → Process → Process × List Heartbeat
  unfolding on_connect on_ready on_disconnect loop_round take_at
  handle connect p = (record p { reporter = on_connect lib p.reporter }, [])
  handle ready p = (record p { reporter = on_ready lib p.reporter }, [])
  handle close p = (record p { reporter = record p.reporter { task_running = false } }, [])
  handle (disconnect now) p = (started (on_disconnect lib now p.reporter) p.in_flight, [])
  handle (tick now) p =
      (started (loop_round p.reporter.task_running now p.reporter) p.in_flight, [])
  handle (send i size taken) p =
      let (sent, rest) = take_at i p.in_flight in
      (record p { in_flight = rest }, if taken && leb size max_heartbeat_bytes then sent else [])
  handle (resume sent) p =
      (record p { reporter = record p.reporter { failure_logged = not sent } }, [])
  handle (switch_maintenance b) p =
      (record p { reporter = record p.reporter { maintenance = b } }, [])

  -- The heartbeats that the receiver's socket gets, in order.
  pub run : List Event → Process → Process × List Heartbeat
  run [] p = (p, [])
  run (e ∷ es) p =
      let (p', sent) = handle e p in let (final, later) = run es p' in (final, sent ++ later)

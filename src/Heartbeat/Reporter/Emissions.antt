-- ===== src/Heartbeat/Reporter/Emissions.antt =====
-- The heartbeats that `HeartbeatReporter` of shared/heartbeat.py sends, in whatever order its threads
-- run.
use modular_discord_bot_oper.Common.{
  ℕ, zero, suc, ◌+◌, ◌≤◌, String, Bool, true, false, Option, List, [], ◌∷◌, ◌++◌, ◌≡◌, refl, arith,
  All, All-append, subst, ◌∙◌, ◌==◌, if◌then◌else◌, leb, ◌&&◌, Bool-cases, inl, inr,
}
use modular_discord_bot_oper.Heartbeat.{Heartbeat, Parsers, schema_version, max_heartbeat_bytes}
use modular_discord_bot_oper.Heartbeat.Reporter.{
  Reporter, Process, Event, handle, run, initial, connect, ready, close, disconnect, tick, send,
  resume, switch_maintenance, take_at, emit, on_disconnect, on_connect, on_ready, start, snapshot,
  loop_round,
}

-- Readiness comes with a connection.
pub record IsConsistent (r : Reporter) : Type 0 where
  pub ready_connected : r.ready ≡ true → r.connected ≡ true

-- What holds of a heartbeat that is sent.
pub record IsGenuine (bot : String) (h : Heartbeat) : Type 0 where
  pub from_bot : h.bot_id ≡ bot
  pub version_known : h.version ≡ schema_version
  pub ready_connected : h.discord_ready ≡ true → h.discord_connected ≡ true

-- What holds of a process: its reporter is the bot's and consistent, its threads have genuine ones.
pub record IsSound (bot : String) (p : Process) : Type 0 where
  pub of_bot : p.reporter.bot_id ≡ bot
  pub consistent : IsConsistent p.reporter
  pub genuine : All (IsGenuine bot) p.in_flight

take_at-All :
    (P : Heartbeat → Type 0) (i : ℕ) (hs : List Heartbeat)
    → All P hs
    → All P (take_at i hs).0 × All P (take_at i hs).1
unfolding take_at
take_at-All P i [] all = (tt, tt)
take_at-All P zero (h ∷ hs) (here, all) = ((here, tt), all)
take_at-All P (suc i) (h ∷ hs) (here, all) =
    let (taken, rest) = take_at-All P i hs all in (taken, (here, rest))

-- How many of the heartbeats bear the number `n`.
unfoldable pub bearing : ℕ → List Heartbeat → ℕ
bearing n [] = 0
bearing n (h ∷ hs) = let rest = bearing n hs in if h.sequence == n then suc rest else rest

bearing-append :
    (n : ℕ) (xs ys : List Heartbeat) → bearing n (xs ++ ys) ≡ bearing n xs + bearing n ys
unfolding bearing
bearing-append n [] ys = omega arith
bearing-append n (x ∷ xs) ys = ground (arith, bearing-append n xs ys)

take_at-bearing :
    (n i : ℕ) (hs : List Heartbeat)
    → bearing n (take_at i hs).0 + bearing n (take_at i hs).1 ≡ bearing n hs
unfolding take_at bearing
take_at-bearing n i [] = refl
take_at-bearing n zero (h ∷ hs) = ground arith
take_at-bearing n (suc i) (h ∷ hs) = ground (arith, take_at-bearing n i hs)

-- How often the number `n` may still reach the socket.
abbrev budget : ℕ → Process → ℕ
budget n p = bearing n p.in_flight + (if leb p.reporter.sequence n then 1 else 0)

module _ (lib : Parsers) where
  emit-budget :
      (n now : ℕ) (r : Reporter) (flight : List Heartbeat)
      → bearing n ((emit lib now r).1 ++ flight)
          + (if leb (emit lib now r).0.sequence n then 1 else 0)
        ≤ bearing n flight + (if leb r.sequence n then 1 else 0)
  unfolding emit bearing snapshot
  emit-budget n now r flight = ground arith

  round-budget :
      (n : ℕ) (running : Bool) (now : ℕ) (r : Reporter) (flight : List Heartbeat)
      → bearing n ((loop_round lib running now r).1 ++ flight)
          + (if leb (loop_round lib running now r).0.sequence n then 1 else 0)
        ≤ bearing n flight + (if leb r.sequence n then 1 else 0)
  unfolding loop_round
  round-budget n true now r flight = emit-budget n now r flight
  round-budget n false now r flight = omega arith

  handle-budget :
      (n : ℕ) (e : Event) (p : Process)
      → bearing n (handle lib e p).1 + budget n (handle lib e p).0 ≤ budget n p
  unfolding handle bearing start on_connect on_ready on_disconnect
  handle-budget n connect p = ground arith
  handle-budget n ready p = ground arith
  handle-budget n close p = omega arith
  handle-budget n (disconnect now) p = omega (
    arith,
    emit-budget n now (record p.reporter { connected = false; ready = false }) p.in_flight,
  )
  handle-budget n (tick now) p =
      omega (arith, round-budget n p.reporter.task_running now p.reporter p.in_flight)
  handle-budget n (send i size taken) p =
      elim (Bool-cases (taken && leb size max_heartbeat_bytes)) [
        | inl sent ↦ rw sent (omega (arith, take_at-bearing n i p.in_flight))
        | inr lost ↦ rw lost (omega (arith, take_at-bearing n i p.in_flight))
      ]
  handle-budget n (resume sent) p = omega arith
  handle-budget n (switch_maintenance b) p = omega arith

  run-budget : (n : ℕ) (es : List Event) (p : Process) → bearing n (run lib es p).1 ≤ budget n p
  unfolding run bearing
  run-budget n [] p = omega arith
  run-budget n (e ∷ es) p =
      let (p', sent) = handle lib e p in
      let split = bearing-append n sent (run lib es p').1 in
      omega (arith, split, handle-budget n e p, run-budget n es p')

  emit-IsGenuine :
      (now : ℕ) (r : Reporter)
      → IsConsistent r
      → All (IsGenuine r.bot_id) (emit lib now r).1
        × IsConsistent (emit lib now r).0
        × ((emit lib now r).0.bot_id ≡ r.bot_id)
  unfolding emit snapshot
  emit-IsGenuine now r h = ground arith

  started-IsSound :
      (bot : String) (now : ℕ) (r : Reporter) (flight : List Heartbeat)
      → r.bot_id ≡ bot
      → IsConsistent r
      → All (IsGenuine bot) flight
      → IsSound bot
          (record { reporter = (emit lib now r).0; in_flight = (emit lib now r).1 ++ flight })
  started-IsSound bot now r flight e h genuine =
      let (new, kept, same) = emit-IsGenuine now r h in
      record {
        of_bot = same ∙ e;
        consistent = kept;
        genuine =
            All-append (IsGenuine bot) (emit lib now r).1 flight
              (subst (λ b. All (IsGenuine b) (emit lib now r).1) e new) genuine;
      }

  round-IsSound :
      (bot : String) (running : Bool) (now : ℕ) (r : Reporter) (flight : List Heartbeat)
      → IsSound bot (record { reporter = r; in_flight = flight })
      → IsSound bot (record {
        reporter = (loop_round lib running now r).0;
        in_flight = (loop_round lib running now r).1 ++ flight;
      })
  unfolding loop_round
  round-IsSound bot true now r flight h =
      started-IsSound bot now r flight h.of_bot h.consistent h.genuine
  round-IsSound bot false now r flight h = h

  handle-IsSound :
      (bot : String) (e : Event) (p : Process)
      → IsSound bot p
      → IsSound bot (handle lib e p).0 × All (IsGenuine bot) (handle lib e p).1
  unfolding handle start on_connect on_ready on_disconnect
  handle-IsSound bot connect p h =
      let same : (on_connect lib p.reporter).bot_id ≡ bot = ground (arith, h.of_bot) in
      (
        record {
          of_bot = same;
          consistent = record { ready_connected = ground arith };
          genuine = h.genuine;
        },
        tt,
      )
  handle-IsSound bot ready p h =
      let same : (on_ready lib p.reporter).bot_id ≡ bot = ground (arith, h.of_bot) in
      (
        record {
          of_bot = same;
          consistent = record { ready_connected = ground arith };
          genuine = h.genuine;
        },
        tt,
      )
  handle-IsSound bot close p h = (
    record {
      of_bot = h.of_bot;
      consistent = record { ready_connected = h.consistent.ready_connected };
      genuine = h.genuine;
    },
    tt,
  )
  handle-IsSound bot (disconnect now) p h = (
    started-IsSound bot now (record p.reporter { connected = false; ready = false }) p.in_flight
        h.of_bot (record { ready_connected = λ e. absurd (cc e) }) h.genuine,
    tt,
  )
  handle-IsSound bot (tick now) p h =
      (round-IsSound bot p.reporter.task_running now p.reporter p.in_flight h, tt)
  handle-IsSound bot (send i size taken) p h =
      let (sent, rest) = take_at-All (IsGenuine bot) i p.in_flight h.genuine in
      let left : IsSound bot (record p { in_flight = (take_at i p.in_flight).1 }) = record {
        of_bot = h.of_bot;
        consistent = h.consistent;
        genuine = rest;
      } in
      elim (Bool-cases (taken && leb size max_heartbeat_bytes)) [
        | inl went ↦ rw went (left, sent)
        | inr lost ↦ rw lost (left, tt)
      ]
  handle-IsSound bot (resume sent) p h = (
    record {
      of_bot = h.of_bot;
      consistent = record { ready_connected = h.consistent.ready_connected };
      genuine = h.genuine;
    },
    tt,
  )
  handle-IsSound bot (switch_maintenance b) p h = (
    record {
      of_bot = h.of_bot;
      consistent = record { ready_connected = h.consistent.ready_connected };
      genuine = h.genuine;
    },
    tt,
  )

  run-IsGenuine-from :
      (bot : String) (es : List Event) (p : Process)
      → IsSound bot p
      → All (IsGenuine bot) (run lib es p).1
  unfolding run
  run-IsGenuine-from bot [] p h = tt
  run-IsGenuine-from bot (e ∷ es) p h =
      let (p', sent) = handle lib e p in
      let (later, now) = handle-IsSound bot e p h in
      All-append (IsGenuine bot) sent (run lib es p').1 now (run-IsGenuine-from bot es p' later)

-- A new reporter, with nothing in flight.
abbrev pub fresh : String → Option String → Option String → Process
fresh bot path instance_id = record { reporter = initial bot path instance_id; in_flight = [] }

-- Whatever happens to a new reporter, and in whatever order its threads send, no number reaches the
-- socket more than once.
pub run_once :
    (lib : Parsers) (bot : String) (path instance_id : Option String) (es : List Event) (n : ℕ)
    → bearing n (run lib es (fresh bot path instance_id)).1 ≤ 1
unfolding initial bearing
run_once lib bot path instance_id es n =
    let most = run-budget lib n es (fresh bot path instance_id) in ground (arith, most)

-- Whatever happens to a new reporter, each heartbeat that reaches the socket is of its bot, has the
-- known version and is ready only with a connection.
pub run-IsGenuine :
    (lib : Parsers) (bot : String) (path instance_id : Option String) (es : List Event)
    → All (IsGenuine bot) (run lib es (fresh bot path instance_id)).1
unfolding initial
run-IsGenuine lib bot path instance_id es =
    run-IsGenuine-from lib bot es (fresh bot path instance_id) (record {
      of_bot = refl;
      consistent = record { ready_connected = λ e. absurd (cc e) };
      genuine = tt;
    })

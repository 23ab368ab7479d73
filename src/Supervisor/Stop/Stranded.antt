-- ===== src/Supervisor/Stop/Stranded.antt =====
-- A bot whose process is gone, and what later starts and stops of supervisor/service.py do about it.
use modular_discord_bot_oper.Common.{
  ℕ, true, false, Option, none, some, ==-self, List, [], ◌∷◌, ◌≡◌, refl, arith, err, ◌∙◌,
}
use modular_discord_bot_oper.Common.Dict.{lookup}
use modular_discord_bot_oper.Supervisor.Models.{
  ProcessState, RegisteredBot, ProcessRecord, Identity, process_identity, already_running,
}
use modular_discord_bot_oper.Supervisor.Process.{Service, set_object, persist}
use modular_discord_bot_oper.Supervisor.Lifecycle.{matches, update, with_state}
use modular_discord_bot_oper.Supervisor.Start.{StartWorld, start_locked}
use modular_discord_bot_oper.Supervisor.Start.Outcome.{start_locked-live}
use modular_discord_bot_oper.Supervisor.Stop.{StopWorld, stop_locked, is_stopped}
use modular_discord_bot_oper.Supervisor.Stop.Signals.{stop_process-differs, stop_locked-live}

-- A start or a stop, with what it meets.
pub data Attempt : Type 0 where
  start : StartWorld → Attempt
  stop : StopWorld → Attempt

-- Every stop finds no process, or another one than the record's.
abbrev pub FindNothing : ProcessRecord → List Attempt → Type 0
FindNothing r [] = Unit
FindNothing r (start w ∷ rest) = FindNothing r rest
FindNothing r (stop w ∷ rest) = (matches w.identity r ≡ false) × FindNothing r rest

-- Every start is refused as already running and changes nothing; every stop fails, and the record
-- `p` is unknown after it.
abbrev pub AreRefused : RegisteredBot → ℕ → List Attempt → Service → Type 0
AreRefused bot p [] s = Unit
AreRefused bot p (start w ∷ rest) s =
    (start_locked w bot s ≡ (err already_running, s)) × AreRefused bot p rest s
AreRefused bot p (stop w ∷ rest) s =
    ((stop_locked w bot s).0 ≡ err process_identity)
    × (((stop_locked w bot s).1.object p).state ≡ ProcessState.unknown)
    × AreRefused bot p rest (stop_locked w bot s).1

matches-with_state :
    (found : Option Identity) (state : ProcessState) (r : ProcessRecord)
    → matches found (with_state state r) ≡ matches found r
unfolding matches
matches-with_state none state r = refl
matches-with_state (some i) state r = refl

FindNothing-with_state :
    (state : ProcessState) (r : ProcessRecord) (attempts : List Attempt)
    → FindNothing r attempts
    → FindNothing (with_state state r) attempts
FindNothing-with_state state r [] h = tt
FindNothing-with_state state r (start w ∷ rest) h = FindNothing-with_state state r rest h
FindNothing-with_state state r (stop w ∷ rest) (differs, h) =
    (matches-with_state w.identity state r ∙ differs, FindNothing-with_state state r rest h)

module _ (bot : RegisteredBot) (p : ℕ) (enabled : bot.is_enabled ≡ true) where
  -- The state after a stop that found nothing.
  abbrev marked : Service → Service
  marked s = persist (update p (with_state ProcessState.unknown) s)

  FindNothing-marked :
      (attempts : List Attempt) (s : Service)
      → FindNothing (s.object p) attempts
      → FindNothing ((marked s).object p) attempts
  unfolding persist set_object
  FindNothing-marked attempts s h =
      rw ==-self (FindNothing-with_state ProcessState.unknown (s.object p) attempts h)

  unknown-AreRefused :
      (attempts : List Attempt) (s : Service)
      → lookup bot.bot_id s.records ≡ some p
      → (s.object p).state ≡ ProcessState.unknown
      → FindNothing (s.object p) attempts
      → AreRefused bot p attempts s
  unfolding persist set_object
  unknown-AreRefused [] s found unknown nothing = tt
  unknown-AreRefused (start w ∷ rest) s found unknown nothing = (
    start_locked-live w bot s enabled (ground (arith, found, unknown)),
    unknown-AreRefused rest s found unknown nothing,
  )
  unknown-AreRefused (stop w ∷ rest) s found unknown (differs, nothing) =
      let e =
        stop_locked-live w bot s p found (ground (arith, unknown))
        ∙ stop_process-differs bot p w s differs in
      rw e (
        refl,
        ground arith,
        unknown-AreRefused rest (marked s) found (ground arith) (FindNothing-marked rest s nothing),
      )

  -- A stop of an enabled bot whose record is neither offline nor disabled, and whose process is gone
  -- or is another one, fails and leaves the record unknown. In whatever series of starts and stops
  -- of the bot follows it, as long as every stop finds the like and nothing else changes its record,
  -- every start is refused as already running and every stop fails: none gets the bot to run again.
  pub stop_locked_strands :
      (s : Service) (w : StopWorld) (rest : List Attempt)
      → lookup bot.bot_id s.records ≡ some p
      → is_stopped (s.object p).state ≡ false
      → FindNothing (s.object p) (stop w ∷ rest)
      → AreRefused bot p (stop w ∷ rest) s
  unfolding persist set_object
  stop_locked_strands s w rest found live (differs, nothing) =
      let e = stop_locked-live w bot s p found live ∙ stop_process-differs bot p w s differs in
      rw e (
        refl,
        ground arith,
        unknown-AreRefused rest (marked s) found (ground arith) (FindNothing-marked rest s nothing),
      )

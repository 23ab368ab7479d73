-- ===== src/Supervisor/Stop/Signals.antt =====
-- Which processes a stop of supervisor/service.py signals, and how its steps go.
use modular_discord_bot_oper.Common.{
  ℕ, Bool, true, false, Option, none, some, List, [], ◌∷◌, ◌++◌, ◌≡◌, ◌⊎◌, inl, inr, arith, ok, err,
  Bool-cases, refl, sym, ap₂, ◌∙◌, require, bind_ok, bind_err, ◌>>◌, Result-cases, pair_eq,
}
use modular_discord_bot_oper.Common.Dict.{lookup}
use modular_discord_bot_oper.Supervisor.Models.{
  ProcessState, ProcessRecord, RegisteredBot, Identity, process_identity, already_stopped, timeout,
  os_error,
}
use modular_discord_bot_oper.Supervisor.Process.{
  Service, Effect, set_object, persist, perform, report, exits,
}
use modular_discord_bot_oper.Supervisor.Process.Laws.{exits-effects, exits-SameProcess, SameProcess}
use modular_discord_bot_oper.Supervisor.Lifecycle.{matches, update, with_state}
use modular_discord_bot_oper.Supervisor.Stop.{
  StopWorld, verify_identity, force_stop, stop_process, await_exit, finish_stop, stop_record,
  stop_locked, is_stopped,
}

abbrev pub Signals : Type 0
Signals = List Effect

-- The signals that a stop may send to the process of `r`: none before its identity is verified, then
-- SIGTERM, and SIGKILL only after it is verified again.
abbrev pub AllowedSignals : StopWorld → ProcessRecord → Signals → Signals → Type 0
AllowedSignals w r before after =
    (after ≡ before)
    ⊎ ((matches w.identity r ≡ true)
        × ((after ≡ before ++ Effect.terminated r.pid ∷ [])
            ⊎ ((matches w.second_identity r ≡ true)
                × (after ≡ (before ++ Effect.terminated r.pid ∷ []) ++ Effect.killed r.pid ∷ []))))

matches-SameProcess :
    (i : Option Identity) (r t : ProcessRecord) → SameProcess r t → matches i r ≡ matches i t
unfolding matches
matches-SameProcess none r t h = refl
matches-SameProcess (some i) r t h = rw (h.os_start_ticks, h.expected_argv)

-- The second half of a stop, whose identity check looks at the record again.
abbrev ForcedSignals : StopWorld → ProcessRecord → Signals → Signals → Type 0
ForcedSignals w r before after =
    (after ≡ before)
    ⊎ ((matches w.second_identity r ≡ true) × (after ≡ before ++ Effect.killed r.pid ∷ []))

pub verify_identity-ok :
    (p : ℕ) (i : Option Identity) (s : Service)
    → matches i (s.object p) ≡ true
    → verify_identity p i s ≡ (ok tt, s)
unfolding verify_identity
verify_identity-ok p i s e = rw e

pub verify_identity-err :
    (p : ℕ) (i : Option Identity) (s : Service)
    → matches i (s.object p) ≡ false
    → verify_identity p i s
      ≡ (err process_identity, persist (update p (with_state ProcessState.unknown) s))
unfolding verify_identity
verify_identity-err p i s e = rw e

require-state : {S E : Type 0} (b : Bool) (e : E) (s : S) → (require b e s).1 ≡ s
require-state true e s = refl
require-state false e s = refl

-- The state in which a forced stop waits again.
abbrev killed_state : ℕ → StopWorld → Service → Service
killed_state p w s =
    let forced : Service = update p (λ r. record r { forced = true }) s in
    exits w.kill_exits (perform (Effect.killed (forced.object p).pid) forced)

force_stop-sent :
    (p : ℕ) (w : StopWorld) (s : Service)
    → matches w.second_identity (s.object p) ≡ true
    → w.kill_delivered ≡ true
    → force_stop p w s ≡ require w.killed_in_time timeout (killed_state p w s)
unfolding force_stop
force_stop-sent p w s same sent =
    rw
      (bind_ok (verify_identity p w.second_identity) _
        (verify_identity-ok p w.second_identity s same))
      (rw sent)

effects-killed :
    (p : ℕ) (w : StopWorld) (s : Service)
    → (killed_state p w s).effects ≡ s.effects ++ Effect.killed (s.object p).pid ∷ []
unfolding set_object perform
effects-killed p w s =
    let forced : Service = update p (λ r. record r { forced = true }) s in
    exits-effects w.kill_exits (perform (Effect.killed (forced.object p).pid) forced) ∙ ground arith

force_stop-ForcedSignals :
    (p : ℕ) (w : StopWorld) (s : Service)
    → ForcedSignals w (s.object p) s.effects (force_stop p w s).1.effects
unfolding force_stop set_object persist perform
force_stop-ForcedSignals p w s = elim (Bool-cases (matches w.second_identity (s.object p))) [
  | inr differs ↦ inl (
      rw (
        bind_err (verify_identity p w.second_identity) _
          (verify_identity-err p w.second_identity s differs)))
  | inl same ↦ elim (Bool-cases w.kill_delivered) [
    | inr gone ↦ inl (
        rw
          (bind_ok (verify_identity p w.second_identity) _
            (verify_identity-ok p w.second_identity s same))
          (rw gone))
    | inl sent ↦
        inr (same, rw (force_stop-sent p w s same sent, require-state) (effects-killed p w s))
  ]
]

-- The state in which a stop waits for the process to end.
abbrev pub waiting_state : ℕ → StopWorld → Service → Service
waiting_state p w s =
    let stopping : Service =
      update p (λ r. record r { state = ProcessState.stopping; expected_exit = true }) s in
    exits w.wait_exits (perform (Effect.terminated (stopping.object p).pid) stopping)

pub stop_process-sent :
    (bot : RegisteredBot) (p : ℕ) (w : StopWorld) (s : Service)
    → matches w.identity (s.object p) ≡ true
    → w.term_delivered ≡ true
    → stop_process bot p w s ≡ (await_exit p w >> finish_stop bot p w) (waiting_state p w s)
unfolding stop_process
stop_process-sent bot p w s same sent =
    rw (bind_ok (verify_identity p w.identity) _ (verify_identity-ok p w.identity s same)) (rw sent)

pub stop_process-differs :
    (bot : RegisteredBot) (p : ℕ) (w : StopWorld) (s : Service)
    → matches w.identity (s.object p) ≡ false
    → stop_process bot p w s
      ≡ (err process_identity, persist (update p (with_state ProcessState.unknown) s))
unfolding stop_process
stop_process-differs bot p w s differs =
    rw (bind_err (verify_identity p w.identity) _ (verify_identity-err p w.identity s differs))

pub stop_process-gone :
    (bot : RegisteredBot) (p : ℕ) (w : StopWorld) (s : Service)
    → matches w.identity (s.object p) ≡ true
    → w.term_delivered ≡ false
    → stop_process bot p w s ≡ (
      err os_error,
      update p (λ r. record r { state = ProcessState.stopping; expected_exit = true }) s,
    )
unfolding stop_process
stop_process-gone bot p w s same gone =
    rw (bind_ok (verify_identity p w.identity) _ (verify_identity-ok p w.identity s same))
      (simp gone)

effects-waiting :
    (p : ℕ) (w : StopWorld) (s : Service)
    → (waiting_state p w s).effects ≡ s.effects ++ Effect.terminated (s.object p).pid ∷ []
unfolding set_object perform
effects-waiting p w s =
    let stopping : Service =
      update p (λ r. record r { state = ProcessState.stopping; expected_exit = true }) s in
    exits-effects w.wait_exits (perform (Effect.terminated (stopping.object p).pid) stopping)
    ∙ ground arith

waiting-SameProcess :
    (p : ℕ) (w : StopWorld) (s : Service)
    → SameProcess ((waiting_state p w s).object p) (s.object p)
unfolding set_object perform
waiting-SameProcess p w s =
    let stopping : Service =
      update p (λ r. record r { state = ProcessState.stopping; expected_exit = true }) s in
    let h =
      exits-SameProcess w.wait_exits (perform (Effect.terminated (stopping.object p).pid) stopping)
        p in
    record {
      bot_id = h.bot_id ∙ ground arith;
      process_instance_id = h.process_instance_id ∙ ground arith;
      pid = h.pid ∙ ground arith;
      os_start_ticks = h.os_start_ticks ∙ ground arith;
      expected_argv = h.expected_argv ∙ ground arith;
    }

-- The rest of a stop sends what waiting sends, and succeeds only with the record offline.
finish-effects :
    (bot : RegisteredBot) (p : ℕ) (w : StopWorld) (s : Service)
    → ((await_exit p w >> finish_stop bot p w) s).1.effects ≡ (await_exit p w s).1.effects
unfolding finish_stop set_object persist report
finish-effects bot p w s = elim (Result-cases (await_exit p w s).0) [
  | inl (u, e) ↦ rw (bind_ok (await_exit p w) _ (pair_eq e))
  | inr (c, e) ↦ rw (bind_err (await_exit p w) _ (pair_eq e))
]

-- The signals of a stop once SIGTERM has been sent.
abbrev LateSignals : StopWorld → ProcessRecord → Signals → Signals → Type 0
LateSignals w r before after =
    (after ≡ before ++ Effect.terminated r.pid ∷ [])
    ⊎ ((matches w.second_identity r ≡ true)
        × (after ≡ (before ++ Effect.terminated r.pid ∷ []) ++ Effect.killed r.pid ∷ []))

await_exit-LateSignals :
    (p : ℕ) (w : StopWorld) (s : Service)
    → LateSignals w (s.object p) s.effects (await_exit p w (waiting_state p w s)).1.effects
unfolding await_exit
await_exit-LateSignals p w s = elim (Bool-cases w.exited_in_time) [
  | inl ended ↦ inl (rw ended (effects-waiting p w s))
  | inr late ↦ elim (force_stop-ForcedSignals p w (waiting_state p w s)) [
    | inl none_sent ↦ inl (simp late (none_sent ∙ effects-waiting p w s))
    | inr (same, sent) ↦
        (let kept = waiting-SameProcess p w s in
          inr (
            sym (matches-SameProcess w.second_identity _ _ kept) ∙ same,
            simp late (
                sent
                ∙ ap₂ (λ (l : Signals) (n : ℕ). l ++ Effect.killed n ∷ []) (effects-waiting p w s)
                    kept.pid),
          ))
  ]
]

stop_process-AllowedSignals :
    (bot : RegisteredBot) (p : ℕ) (w : StopWorld) (s : Service)
    → AllowedSignals w (s.object p) s.effects (stop_process bot p w s).1.effects
unfolding stop_process set_object persist perform
stop_process-AllowedSignals bot p w s = elim (Bool-cases (matches w.identity (s.object p))) [
  | inr differs ↦
      inl (
        rw (bind_err (verify_identity p w.identity) _ (verify_identity-err p w.identity s differs)))
  | inl same ↦ elim (Bool-cases w.term_delivered) [
    | inr gone ↦ inl (
        rw (bind_ok (verify_identity p w.identity) _ (verify_identity-ok p w.identity s same))
          (rw gone))
    | inl sent ↦ inr (
      same,
      rw (stop_process-sent bot p w s same sent, finish-effects) (await_exit-LateSignals p w s),
    )
  ]
]

module _ (w : StopWorld) (bot : RegisteredBot) (s : Service) (p : ℕ) where
  pub stop_locked-stopped :
      lookup bot.bot_id s.records ≡ some p
      → is_stopped (s.object p).state ≡ true
      → stop_locked w bot s ≡ (err already_stopped, s)
  unfolding stop_locked stop_record
  stop_locked-stopped found stopped = rw found (simp stopped)

  pub stop_locked-live :
      lookup bot.bot_id s.records ≡ some p
      → is_stopped (s.object p).state ≡ false
      → stop_locked w bot s ≡ stop_process bot p w s
  unfolding stop_locked stop_record
  stop_locked-live found live = rw found (simp live)

  -- Whatever happens, a stop of a bot with a record signals at most that record's process: it sends
  -- nothing unless the kernel shows the recorded identity, then SIGTERM, and SIGKILL after it only if
  -- the identity is shown again.
  pub stop_locked-AllowedSignals :
      lookup bot.bot_id s.records ≡ some p
      → AllowedSignals w (s.object p) s.effects (stop_locked w bot s).1.effects
  stop_locked-AllowedSignals found = elim (Bool-cases (is_stopped (s.object p).state)) [
    | inl stopped ↦ inl (rw (stop_locked-stopped found stopped))
    | inr live ↦ rw (stop_locked-live found live) (stop_process-AllowedSignals bot p w s)
  ]

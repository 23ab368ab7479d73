-- ===== src/Supervisor/Stop/Outcome.antt =====
-- What a stop of supervisor/service.py leaves.
use modular_discord_bot_oper.Common.{
  ℕ, String, Option, some, ◌≡◌, inl, inr, arith, Result, ok, Bool-cases, ap, bind_ok, bind_err,
  ◌>>◌, Result-cases, pair_eq,
}
use modular_discord_bot_oper.Common.Dict.{lookup}
use modular_discord_bot_oper.Supervisor.Models.{ProcessState, RegisteredBot, Error}
use modular_discord_bot_oper.Supervisor.Process.{Service, set_object, persist, report}
use modular_discord_bot_oper.Supervisor.Lifecycle.{matches}
use modular_discord_bot_oper.Supervisor.Stop.{
  StopWorld, stop_process, await_exit, finish_stop, stop_locked, is_stopped,
}
use modular_discord_bot_oper.Supervisor.Stop.Signals.{
  waiting_state, stop_process-sent, stop_process-differs, stop_process-gone, stop_locked-stopped,
  stop_locked-live,
}

finish_stop-offline :
    (bot : RegisteredBot) (p : ℕ) (w : StopWorld) (s : Service) {i : Option String}
    → ((await_exit p w >> finish_stop bot p w) s).0 ≡ ok i
    → (((await_exit p w >> finish_stop bot p w) s).1.object p).state ≡ ProcessState.offline
unfolding finish_stop set_object persist report
finish_stop-offline bot p w s h = elim (Result-cases (await_exit p w s).0) [
  | inl (u, e) ↦ rw (bind_ok (await_exit p w) _ (pair_eq e)) (ground arith)
  | inr (c, e) ↦ absurd (
      cc (
        ap (λ (x : Result Error (Option String) × Service). x.0)
            (bind_err (await_exit p w) (λ _. finish_stop bot p w) (pair_eq e)),
        h,
      ))
]

stop_process-offline :
    (bot : RegisteredBot) (p : ℕ) (w : StopWorld) (s : Service) {i : Option String}
    → (stop_process bot p w s).0 ≡ ok i
    → ((stop_process bot p w s).1.object p).state ≡ ProcessState.offline
unfolding stop_process
stop_process-offline bot p w s {i} h = elim (Bool-cases (matches w.identity (s.object p))) [
  | inr differs ↦ absurd (
      cc (
        ap (λ (x : Result Error (Option String) × Service). x.0)
            (stop_process-differs bot p w s differs),
        h,
      ))
  | inl same ↦ elim (Bool-cases w.term_delivered) [
    | inr gone ↦ absurd (
        cc (
          ap (λ (x : Result Error (Option String) × Service). x.0)
              (stop_process-gone bot p w s same gone),
          h,
        ))
    | inl sent ↦
        (let e = stop_process-sent bot p w s same sent in
          rw e (finish_stop-offline bot p w (waiting_state p w s) (rw e at h)))
  ]
]

module _ (w : StopWorld) (bot : RegisteredBot) (s : Service) (p : ℕ) where
  -- A stop of a bot with a record that succeeds leaves that record offline.
  pub stop_locked-offline :
      {i : Option String}
      → lookup bot.bot_id s.records ≡ some p
      → (stop_locked w bot s).0 ≡ ok i
      → ((stop_locked w bot s).1.object p).state ≡ ProcessState.offline
  stop_locked-offline found h = elim (Bool-cases (is_stopped (s.object p).state)) [
    | inl stopped ↦ absurd (
        cc (
          ap (λ (x : Result Error (Option String) × Service). x.0)
              (stop_locked-stopped w bot s p found stopped),
          h,
        ))
    | inr live ↦
        (let e = stop_locked-live w bot s p found live in
          rw e (stop_process-offline bot p w s (rw e at h)))
  ]

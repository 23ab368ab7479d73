-- ===== src/Supervisor/Process/Laws.antt =====
-- What the exit callbacks of supervisor/service.py leave alone.
use modular_discord_bot_oper.Common.{ℕ, List, [], ◌∷◌, ◌≡◌, refl, ◌∙◌, arith}
use modular_discord_bot_oper.Supervisor.Models.{ProcessRecord}
use modular_discord_bot_oper.Supervisor.Process.{Service, Exit, process_exited, exits}

-- The parts of a record that say which process it is.
pub record SameProcess (r t : ProcessRecord) : Type 0 where
  pub bot_id : r.bot_id ≡ t.bot_id
  pub process_instance_id : r.process_instance_id ≡ t.process_instance_id
  pub pid : r.pid ≡ t.pid
  pub os_start_ticks : r.os_start_ticks ≡ t.os_start_ticks
  pub expected_argv : r.expected_argv ≡ t.expected_argv

SameProcess-trans : {r t u : ProcessRecord} → SameProcess r t → SameProcess t u → SameProcess r u
SameProcess-trans h k = record {
  bot_id = h.bot_id ∙ k.bot_id;
  process_instance_id = h.process_instance_id ∙ k.process_instance_id;
  pid = h.pid ∙ k.pid;
  os_start_ticks = h.os_start_ticks ∙ k.os_start_ticks;
  expected_argv = h.expected_argv ∙ k.expected_argv;
}

process_exited-records : (x : Exit) (s : Service) → (process_exited x s).records ≡ s.records
unfolding process_exited
process_exited-records x s = ground arith

process_exited-effects : (x : Exit) (s : Service) → (process_exited x s).effects ≡ s.effects
unfolding process_exited
process_exited-effects x s = ground arith

process_exited-SameProcess :
    (x : Exit) (s : Service) (p : ℕ) → SameProcess ((process_exited x s).object p) (s.object p)
unfolding process_exited
process_exited-SameProcess x s p = ground arith

pub exits-records : (xs : List Exit) (s : Service) → (exits xs s).records ≡ s.records
unfolding exits
exits-records [] s = refl
exits-records (x ∷ xs) s = exits-records xs (process_exited x s) ∙ process_exited-records x s

pub exits-effects : (xs : List Exit) (s : Service) → (exits xs s).effects ≡ s.effects
unfolding exits
exits-effects [] s = refl
exits-effects (x ∷ xs) s = exits-effects xs (process_exited x s) ∙ process_exited-effects x s

pub exits-SameProcess :
    (xs : List Exit) (s : Service) (p : ℕ) → SameProcess ((exits xs s).object p) (s.object p)
unfolding exits
exits-SameProcess [] s p = record {
  bot_id = refl;
  process_instance_id = refl;
  pid = refl;
  os_start_ticks = refl;
  expected_argv = refl;
}
exits-SameProcess (x ∷ xs) s p =
    SameProcess-trans (exits-SameProcess xs (process_exited x s) p)
      (process_exited-SameProcess x s p)

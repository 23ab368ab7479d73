-- ===== src/Supervisor/Lifecycle.antt =====
-- supervisor/service.py: what the operations of the service share. What an operation awaits (the
-- spawned process, the kernel's identity evidence, signals, clocks, the exits of children meanwhile)
-- is its argument. Other bots' operations touch other records and are not interleaved; nor are
-- failures of the state file.
use modular_discord_bot_oper.Common.{
  ℕ, String, Bool, true, false, Option, none, some, List, [], ◌∷◌, ◌==◌, ◌&&◌, str_eq, Exec,
}
use modular_discord_bot_oper.Supervisor.Models.{ProcessState, ProcessRecord, Identity, Error}
use modular_discord_bot_oper.Supervisor.Process.{Service, set_object}

abbrev pub Action : Type 0 → Type 0
Action A = Exec Service Error A

abbrev pub update : ℕ → (ProcessRecord → ProcessRecord) → Service → Service
update p f s = set_object p (f (s.object p)) s

abbrev pub with_state : ProcessState → ProcessRecord → ProcessRecord
with_state state r = record r { state = state }

-- `evidence != (record.os_start_ticks, record.expected_argv)`, negated
abbrev pub same_argv : List String → List String → Bool
same_argv [] [] = true
same_argv (a ∷ as_) (b ∷ bs) = str_eq a b && same_argv as_ bs
same_argv _ _ = false

unfoldable pub matches : Option Identity → ProcessRecord → Bool
matches none r = false
matches (some i) r = (i.ticks == r.os_start_ticks) && same_argv i.argv r.expected_argv

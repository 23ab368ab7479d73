-- ===== src/Supervisor/Startup/Outcome.antt =====
-- What `startup` of supervisor/service.py takes over from the state file.
use modular_discord_bot_oper.Common.{
  ℕ, ◌+◌, ◌<◌, String, true, false, Option, none, some, List, [], ◌∷◌, ◌≡◌, inl, inr, arith, refl,
  Bool-cases, str_eq, ==-self, lt→==_false, subst, sym, ap, ◌∙◌, ◌⊎◌, ◌==◌, ◌&&◌, eq_iff,
}
use mathlib.Core.List.{Mem, mem-cons_self, mem-cons_of_mem}
use modular_discord_bot_oper.Common.Dict.{Dict, lookup, lookup-insert, values}
use modular_discord_bot_oper.Supervisor.Models.{
  ProcessState, RegisteredBot, Identity, ProcessRecord,
}
use modular_discord_bot_oper.Supervisor.Process.{
  Service, SavedRecord, decode, bind_new, persist, report,
}
use modular_discord_bot_oper.Supervisor.Health.Store.{Readings}
use modular_discord_bot_oper.Supervisor.Lifecycle.{matches, same_argv}
use modular_discord_bot_oper.Supervisor.Startup.{adopt, adopt_all, reconciled, report_all, startup}

-- A saved record is the one that the record `r` of a bot was made of: the registry knows its bot, its
-- process exists, `r` has what was saved, and is running and adopted exactly if the kernel shows the
-- start and the arguments that were saved; otherwise it is unknown.
pub record IsAdoptedFrom (identity : ℕ → Option Identity) (registry : Dict RegisteredBot)
    (bot : String) (r : ProcessRecord) (raw : SavedRecord) : Type 0 where
  pub known : (b : RegisteredBot) × (lookup raw.bot_id registry ≡ some b) × (b.bot_id ≡ bot)
  pub process :
      (i : Identity) × (identity raw.pid ≡ some i)
      × (((i.ticks ≡ raw.os_start_ticks)
            × (i.argv ≡ raw.expected_argv)
            × (r ≡ record (decode raw) { state = ProcessState.running; adopted = true }))
          ⊎ (¬ ((i.ticks ≡ raw.os_start_ticks) × (i.argv ≡ raw.expected_argv))
              × (r ≡ record (decode raw) { state = ProcessState.unknown; adopted = false })))

-- Every record in the table is an object of the heap and was made of one in the state file.
pub record IsTakenOver (identity : ℕ → Option Identity) (registry : Dict RegisteredBot)
    (saved : List SavedRecord) (s : Service) : Type 0 where
  pub at_bot :
      (bot : String) (p : ℕ)
      → lookup bot s.records ≡ some p
      → (p < s.next_object)
        × ((raw : SavedRecord) × Mem raw saved
            × IsAdoptedFrom identity registry bot (s.object p) raw)

same_argv_refl : (as_ : List String) → same_argv as_ as_ ≡ true
same_argv_refl [] = refl
same_argv_refl (a ∷ as_) = ground (arith, same_argv_refl as_, eq_iff a a)

same_argv-eq : (as_ bs : List String) → same_argv as_ bs ≡ true → as_ ≡ bs
same_argv-eq [] [] h = refl
same_argv-eq [] (b ∷ bs) h = cc
same_argv-eq (a ∷ as_) [] h = cc
same_argv-eq (a ∷ as_) (b ∷ bs) h =
    let head = (eq_iff a b).0 (ground arith) in let rest = same_argv-eq as_ bs (ground arith) in cc

module _ (identity : ℕ → Option Identity) (registry : Dict RegisteredBot)
    (saved : List SavedRecord) where
  reconciled-IsAdoptedFrom :
      (raw : SavedRecord) (b : RegisteredBot) (i : Identity)
      → lookup raw.bot_id registry ≡ some b
      → identity raw.pid ≡ some i
      → IsAdoptedFrom identity registry b.bot_id (reconciled i (decode raw)) raw
  unfolding matches decode
  reconciled-IsAdoptedFrom raw b i known e = record {
    known = (b, known, refl);
    process = (
      i,
      e,
      elim (Bool-cases ((i.ticks == raw.os_start_ticks) && same_argv i.argv raw.expected_argv)) [
        | inl same ↦
            inl (ground arith, same_argv-eq i.argv raw.expected_argv (ground arith), simp same refl)
        | inr differs ↦ inr (
          (λ (ticks, argv).
              let alike = subst (λ a. same_argv i.argv a ≡ true) argv (same_argv_refl i.argv) in
              ground (arith, ticks, alike)),
          simp differs refl,
        )
      ],
    );
  }

  bind_new-IsTakenOver :
      (bot : String) (r : ProcessRecord) (s : Service) (raw : SavedRecord)
      → Mem raw saved
      → IsAdoptedFrom identity registry bot r raw
      → IsTakenOver identity registry saved s
      → IsTakenOver identity registry saved (bind_new bot r s)
  unfolding bind_new
  bind_new-IsTakenOver bot r s raw there good h = record {
    at_bot = λ k p found. elim (Bool-cases (str_eq bot k)) [
      | inl same ↦
          (let last : s.next_object ≡ p =
              ground (arith, lookup-insert bot k s.next_object s.records) in
            subst
              (λ q.
                (q < s.next_object + 1)
                × ((raw : SavedRecord) × Mem raw saved
                    × IsAdoptedFrom identity registry k ((bind_new bot r s).object q) raw))
              last
              (
                omega arith,
                (
                  raw,
                  there,
                  rw ==-self (
                      subst (λ b. IsAdoptedFrom identity registry b r raw) ((eq_iff bot k).0 same)
                        good),
                ),
              ))
      | inr other ↦
          (let (below, old) =
              h.at_bot k p (ground (arith, lookup-insert bot k s.next_object s.records)) in
            (omega arith, rw (lt→==_false s.next_object p below) old))
    ];
  }

  adopt-IsTakenOver :
      (raw : SavedRecord) (bot : Option RegisteredBot) (found : Option Identity) (s : Service)
      → Mem raw saved
      → lookup raw.bot_id registry ≡ bot
      → identity raw.pid ≡ found
      → IsTakenOver identity registry saved s
      → IsTakenOver identity registry saved (adopt raw bot found s)
  unfolding adopt
  adopt-IsTakenOver raw none found s there known e h = h
  adopt-IsTakenOver raw (some bot) none s there known e h = h
  adopt-IsTakenOver raw (some bot) (some i) s there known e h =
      bind_new-IsTakenOver bot.bot_id (reconciled i (decode raw)) s raw there
        (reconciled-IsAdoptedFrom raw bot i known e) h

  adopt-registry :
      (raw : SavedRecord) (bot : Option RegisteredBot) (found : Option Identity) (s : Service)
      → (adopt raw bot found s).registry ≡ s.registry
  unfolding adopt bind_new
  adopt-registry raw none found s = refl
  adopt-registry raw (some bot) none s = refl
  adopt-registry raw (some bot) (some i) s = refl

  adopt_all-IsTakenOver :
      (raws : List SavedRecord) (s : Service)
      → ((raw : SavedRecord) → Mem raw raws → Mem raw saved)
      → s.registry ≡ registry
      → IsTakenOver identity registry saved s
      → IsTakenOver identity registry saved (adopt_all identity raws s)
  unfolding adopt_all
  adopt_all-IsTakenOver [] s within same h = h
  adopt_all-IsTakenOver (raw ∷ rest) s within same h =
      let bot = lookup raw.bot_id s.registry in
      adopt_all-IsTakenOver rest _ (λ x there. within x (mem-cons_of_mem raw there))
        (adopt-registry raw bot (identity raw.pid) s ∙ same)
        (adopt-IsTakenOver raw bot (identity raw.pid) s (within raw mem-cons_self)
          (ap (lookup raw.bot_id) (sym same)) refl h)

  report_all-IsTakenOver :
      (now : Readings) (bots : List RegisteredBot) (s : Service)
      → IsTakenOver identity registry saved s
      → IsTakenOver identity registry saved (report_all now bots s)
  unfolding report_all report
  report_all-IsTakenOver now [] s h = h
  report_all-IsTakenOver now (bot ∷ bots) s h =
      report_all-IsTakenOver now bots _ (record { at_bot = h.at_bot })

-- After a startup every bot in the table has a record that was made of one in the state file of a
-- known bot whose process exists. It has what was saved; it is running and adopted if the kernel
-- shows the start and the arguments that were saved, and unknown and not adopted if it does not.
pub startup-IsTakenOver :
    (identity : ℕ → Option Identity) (now : Readings) (s : Service)
    → IsTakenOver identity s.registry s.saved (startup identity now s)
unfolding startup persist
startup-IsTakenOver identity now s =
    report_all-IsTakenOver identity s.registry s.saved now (values s.registry) _ (
      let taken =
        adopt_all-IsTakenOver identity s.registry s.saved s.saved (record s { records = [] })
          (λ raw there. there) refl
          (record { at_bot = λ bot p e. absurd (unfold lookup in cc e) }) in
      record { at_bot = taken.at_bot })

-- ===== src/Scheduler/Store/Revisions.antt =====
-- Optimistic concurrency of `SQLiteSchedulerStore.update` in portal/scheduler.py.
use modular_discord_bot_oper.Common.{
  ℕ, true, List, [], ◌∷◌, map, ◌≡◌, ◌≢◌, refl, inl, inr, arith, ok, err, Bool-cases, str_eq, select,
  length, ◌==◌, if◌then◌else◌, eq_iff,
}
use modular_discord_bot_oper.Scheduler.Model.{ScheduledTask, stale_revision}
use modular_discord_bot_oper.Scheduler.Store.{Store, update_task, updated_row, is_current}

-- After the write no row fits the old revision.
none_current :
    (t u : ScheduledTask) (r : ℕ) (ts : List ScheduledTask)
    → t.revision ≢ r
    → str_eq u.task_id t.task_id ≡ true
    → select
        (is_current u r)
        (map (λ row. if is_current t r row then updated_row t row else row) ts)
      ≡ []
none_current t u r [] ne same = refl
none_current t u r (row ∷ ts) ne same = ground (
  arith,
  none_current t u r ts ne same,
  eq_iff u.task_id t.task_id,
  eq_iff row.task_id t.task_id,
  eq_iff row.task_id u.task_id,
)

-- Of two writers that read the same revision of a task and count it up, the second is refused and
-- changes nothing.
pub update_task-stale :
    (t u : ScheduledTask) (r : ℕ) (s : Store)
    → str_eq u.task_id t.task_id ≡ true
    → t.revision ≢ r
    → (update_task t r s).0 ≡ ok tt
    → update_task u r (update_task t r s).1 ≡ (err stale_revision, (update_task t r s).1)
unfolding update_task
update_task-stale t u r s same ne done =
    elim (Bool-cases (length (select (is_current t r) s.tasks) == 1)) [
      | inl one ↦ rw one (rw (none_current t u r s.tasks ne same))
      | inr other ↦ absurd (cc (rw other at done))
    ]

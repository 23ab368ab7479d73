-- ===== src/Scheduler/Calendar/Validity.antt =====
-- The nine days that `next_run` of portal/scheduler.py tries are enough for every accepted daily or
-- weekly schedule, in a zone that skips no such local time.
use modular_discord_bot_oper.Common.{
  ℕ, zero, suc, ◌+◌, ◌-◌, ◌%◌, ◌≤◌, ◌<◌, String, Bool, true, false, Option, none, some, List, [],
  ◌∷◌, ◌≡◌, ◌≢◌, refl, ap, ◌∙◌, inl, inr, arith, ok, Option-cases, Bool-cases, str_eq, any, not,
  ltb, lt→ltb, ltb→lt, ◌==◌, ==-self,
}
use modular_discord_bot_oper.Common.Fallible.{>>=-ok_parts}
use modular_discord_bot_oper.Common.Json.{ℤ, pos, negsuc}
use modular_discord_bot_oper.Scheduler.Model.{Schedule}
use modular_discord_bot_oper.Scheduler.Calendar.{
  Calendar, check_zone, validate_schedule, day_matches, candidate_on, search_days, next_daily,
  next_run, text_or_empty, time_or_zero, check_recurring, is_weekday, has_duplicate,
}

-- What an accepted daily or weekly schedule needs of the zone and of the calendar's week.
pub record IsRegular (lib : Calendar) (zone : String) (time after : ℕ) : Type 0 where
  pub weekday_bound : (d : ℕ) → lib.weekday d < 7
  pub weekday_next : (d : ℕ) → lib.weekday (d + 1) ≡ (lib.weekday d + 1) % 7
  pub time_exists :
      (d : ℕ)
      → lib.to_wall zone (lib.to_utc zone (record { day = d; time = time }))
        ≡ record { day = d; time = time }
  pub next_day_later :
      (d : ℕ)
      → (lib.to_wall zone after).day < d
      → after < lib.to_utc zone (record { day = d; time = time })

search_days-finds :
    (rounds : ℕ) (f : ℕ → Option ℕ) (start k : ℕ) {u : ℕ}
    → start ≤ k
    → k < start + rounds
    → f k ≡ some u
    → (t : ℕ) × (search_days rounds f start ≡ ok (some t))
unfolding search_days
search_days-finds zero f start k lo hi e = absurd (omega arith)
search_days-finds (suc rounds) f start k lo hi e = elim (Option-cases (f start)) [
  | inr (t, found) ↦ (t, rw (found, search_days))
  | inl missed ↦
      (let (t, later) =
          search_days-finds rounds f (start + 1) k (after_start missed) (omega arith) e in
        (t, rw (missed, search_days) later))
]
  where
    after_start : f start ≡ none → start + 1 ≤ k
    after_start missed = elim (Bool-cases (start == k)) [
      | inl same ↦ absurd (cc (missed, e, ap f (let e' : start ≡ k = ground arith in e')))
      | inr other ↦ ground arith
    ]

check_recurring-weekly :
    (lib : Calendar) (s : Schedule)
    → check_recurring lib true s ≡ ok tt
    → (s.weekdays ≢ [])
      × (any (λ x. not (is_weekday x)) s.weekdays ≡ false)
      × (has_duplicate s.weekdays ≡ false)
unfolding check_recurring
check_recurring-weekly lib s h = (ground arith, ground arith, ground arith)

-- An accepted weekly schedule names at least one weekday, only weekdays, and none twice.
validate-weekly :
    (lib : Calendar) (s : Schedule) (now : ℕ)
    → validate_schedule lib s now ≡ ok tt
    → str_eq s.kind "once" ≡ false
    → str_eq s.kind "weekly" ≡ true
    → (s.weekdays ≢ [])
      × (any (λ x. not (is_weekday x)) s.weekdays ≡ false)
      × (has_duplicate s.weekdays ≡ false)
unfolding validate_schedule
validate-weekly lib s now valid once weekly =
    let (_, _, rest) = >>=-ok_parts (check_zone lib s.timezone) _ valid in
    check_recurring-weekly lib s (ground arith)

module _ (lib : Calendar) (s : Schedule) (after : ℕ) (inclusive : Bool) where
  abbrev time_of : ℕ
  time_of = time_or_zero (lib.time_from_iso (text_or_empty s.local_time))

  module _ (regular : IsRegular lib s.timezone time_of after) where
    weekday-add : (d j : ℕ) → lib.weekday (d + j) ≡ (lib.weekday d + j) % 7
    weekday-add d zero =
        omega
          (arith, regular.weekday_bound d, ap lib.weekday (let e : d + 0 ≡ d = omega arith in e))
    weekday-add d (suc j) = omega (
      arith,
      weekday-add d j,
      regular.weekday_next (d + j),
      ap lib.weekday (let e : d + suc j ≡ d + j + 1 = omega arith in e),
    )

    -- A day after the given time's that matches is found.
    candidate-found :
        (d : ℕ)
        → (lib.to_wall s.timezone after).day < d
        → day_matches lib s d ≡ true
        → candidate_on lib s time_of inclusive after d
          ≡ some (lib.to_utc s.timezone (record { day = d; time = time_of }))
    unfolding candidate_on
    candidate-found d later match =
        simp (match, regular.time_exists d, ==-self, lt→ltb _ _ (regular.next_day_later d later))

    daily-found :
        (d : ℕ)
        → (lib.to_wall s.timezone after).day < d
        → d < (lib.to_wall s.timezone after).day + 9
        → day_matches lib s d ≡ true
        → (t : ℕ) × (next_daily lib s after inclusive ≡ ok (some t))
    unfolding next_daily
    daily-found d later soon match =
        search_days-finds 9 (candidate_on lib s time_of inclusive after)
          (lib.to_wall s.timezone after).day d (omega arith) soon (candidate-found d later match)

    -- Each weekday falls on one of the next seven days.
    weekday-within_week :
        (d n : ℕ) → n < 7 → (j : ℕ) × (0 < j) × (j ≤ 7) × (lib.weekday (d + j) ≡ n)
    weekday-within_week d n small = elim (Bool-cases (ltb (lib.weekday d) n)) [
      | inl below ↦ (
        n - lib.weekday d,
        ground arith,
        omega arith,
        weekday-add d (n - lib.weekday d) ∙ (let lt = ltb→lt _ _ below in omega arith),
      )
      | inr above ↦ (
        n + 7 - lib.weekday d,
        omega (arith, regular.weekday_bound d),
        ground arith,
        weekday-add d (n + 7 - lib.weekday d)
            ∙ (let le : n ≤ lib.weekday d = ground arith in omega (arith, regular.weekday_bound d)),
      )
    ]

    day_matches-head :
        (d n : ℕ) (ws : List ℤ)
        → s.weekdays ≡ pos n ∷ ws
        → lib.weekday d ≡ n
        → day_matches lib s d ≡ true
    day_matches-head d n ws e day = rw (e, day, ==-self) (ground arith)

    weekly-found :
        (ws : List ℤ)
        → s.weekdays ≡ ws
        → any (λ x. not (is_weekday x)) ws ≡ false
        → ws ≢ []
        → (t : ℕ) × (next_daily lib s after inclusive ≡ ok (some t))
    weekly-found [] e h ne = absurd (ne refl)
    weekly-found (negsuc n ∷ ws) e h ne = cc
    weekly-found (pos n ∷ ws) e h ne =
        let (j, lo, hi, day) =
          weekday-within_week (lib.to_wall s.timezone after).day n (ground arith) in
        daily-found ((lib.to_wall s.timezone after).day + j) (omega arith) (omega arith)
          (day_matches-head _ n ws e day)

    -- In a zone that has this local time on every day, each daily or weekly schedule that is accepted has
    -- a next occurrence: the search does not run out of its nine days.
    pub next_run-total :
        validate_schedule lib s after ≡ ok tt
        → str_eq s.kind "once" ≡ false
        → str_eq s.kind "interval" ≡ false
        → (t : ℕ) × (next_run lib s after inclusive ≡ ok (some t))
    unfolding next_run
    next_run-total valid once interval =
        rw (valid, once, interval)
          (elim (Bool-cases (str_eq s.kind "weekly")) [
            | inl weekly ↦
                weekly-found s.weekdays refl (validate-weekly lib s after valid once weekly).1
                  (validate-weekly lib s after valid once weekly).0
            | inr daily ↦
                daily-found ((lib.to_wall s.timezone after).day + 1) (omega arith) (omega arith)
                  (rw daily)
          ])

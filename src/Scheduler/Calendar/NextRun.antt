-- ===== src/Scheduler/Calendar/NextRun.antt =====
-- The occurrence that `next_run` of portal/scheduler.py finds.
use modular_discord_bot_oper.Common.{
  ℕ, zero, suc, ◌+◌, ◌≤◌, ◌<◌, String, Bool, true, false, Option, none, some, ◌≡◌, refl, sym, subst,
  eq_iff, inl, inr, arith, ok, Option-cases, Bool-cases, str_eq, if◌then◌else◌, ◌==◌, any,
}
use modular_discord_bot_oper.Common.Fallible.{>>=-ok_parts}
use modular_discord_bot_oper.Common.Json.{pos}
use modular_discord_bot_oper.Scheduler.Model.{Schedule, seconds}
use modular_discord_bot_oper.Scheduler.Calendar.{
  Calendar, check_zone, validate_schedule, same_int, local_candidate, is_later, candidate_on,
  search_days, next_once, next_daily, next_run, check_interval, text_or_empty, time_or_zero,
  int_or_zero, aware,
}

-- The loop finds the first day at which the body finds something.
pub record IsFirst (f : ℕ → Option ℕ) (rounds start t : ℕ) : Type 0 where
  pub day : ℕ
  pub from_start : start ≤ day
  pub in_window : day < start + rounds
  pub hit : f day ≡ some t
  pub none_before : (k : ℕ) → start ≤ k → k < day → f k ≡ none

search_days-IsFirst :
    (rounds : ℕ) (f : ℕ → Option ℕ) (start : ℕ) {r : Option ℕ}
    → search_days rounds f start ≡ ok r
    → (t : ℕ) × (r ≡ some t) × IsFirst f rounds start t
unfolding search_days
search_days-IsFirst zero f start h = cc
search_days-IsFirst (suc rounds) f start h = elim (Option-cases (f start)) [
  | inr (t, e) ↦ (
    t,
    ground arith,
    record {
      day = start;
      from_start = omega arith;
      in_window = omega arith;
      hit = e;
      none_before = λ k lo hi. absurd (omega arith);
    },
  )
  | inl e ↦
      (let (t, rt, later) = search_days-IsFirst rounds f (start + 1) (rw (e, search_days) at h) in
        (
          t,
          rt,
          record {
            day = later.day;
            from_start = omega (arith, later.from_start);
            in_window = omega (arith, later.in_window);
            hit = later.hit;
            none_before = λ k lo hi. elim (Bool-cases (start == k)) [
              | inl same ↦ rw (← (let e' : start ≡ k = ground arith in e')) e
              | inr other ↦ later.none_before k (ground arith) hi
            ];
          },
        ))
]

abbrev pub IsAfter : Bool → ℕ → ℕ → Type 0
IsAfter inclusive after t = if inclusive then after ≤ t else after < t

later-IsAfter :
    (inclusive : Bool) (after t : ℕ) → is_later inclusive after t ≡ true → IsAfter inclusive after t
later-IsAfter true after t h = ground arith
later-IsAfter false after t h = ground arith

IsAfter-later :
    (inclusive : Bool) (after t : ℕ) → IsAfter inclusive after t → is_later inclusive after t ≡ true
IsAfter-later true after t h = ground arith
IsAfter-later false after t h = ground arith

-- A daily or weekly schedule fires on a day, at the instant `t`: the day is one of its weekdays if it
-- is weekly, the local time exists on that day and is `t`, and `t` lies after the given time.
pub record FiresOn (lib : Calendar) (s : Schedule) (time : ℕ) (inclusive : Bool) (after day t : ℕ)
    : Type 0 where
  pub on_weekday :
      str_eq s.kind "weekly" ≡ true → any (same_int (pos (lib.weekday day))) s.weekdays ≡ true
  pub instant : lib.to_utc s.timezone (record { day = day; time = time }) ≡ t
  pub same_day : (lib.to_wall s.timezone t).day ≡ day
  pub same_time : (lib.to_wall s.timezone t).time ≡ time
  pub later : IsAfter inclusive after t

-- The first day of the window on which the schedule fires.
pub record IsFirstDay (lib : Calendar) (s : Schedule) (time : ℕ) (inclusive : Bool)
    (after rounds start t : ℕ) : Type 0 where
  pub day : ℕ
  pub from_start : start ≤ day
  pub in_window : day < start + rounds
  pub fires : FiresOn lib s time inclusive after day t
  pub none_before :
      (k : ℕ) → start ≤ k → k < day → (u : ℕ) → ¬ FiresOn lib s time inclusive after k u

-- What is asked of the occurrence of each kind of schedule.
abbrev pub IsOccurrence : Calendar → Schedule → ℕ → Bool → ℕ → Type 0
IsOccurrence lib s after inclusive t =
    if str_eq s.kind "once"
    then lib.from_iso (text_or_empty s.at) ≡ aware t
    else if str_eq s.kind "interval"
    then t ≡ after + seconds (int_or_zero s.interval_seconds)
    else IsFirstDay lib s (time_or_zero (lib.time_from_iso (text_or_empty s.local_time))) inclusive
        after 9 (lib.to_wall s.timezone after).day t

-- The kinds are told apart by their texts.
interval_only :
    (k : String)
    → str_eq k "interval" ≡ true
    → (str_eq k "once" ≡ false) × (str_eq k "daily" ≡ false) × (str_eq k "weekly" ≡ false)
interval_only k h =
    subst
      (λ j. (str_eq j "once" ≡ false) × (str_eq j "daily" ≡ false) × (str_eq j "weekly" ≡ false))
      (sym ((eq_iff k "interval").0 h)) (refl, refl, refl)

interval-IsAfter :
    (inclusive : Bool) (after t n : ℕ) → 0 < n → t ≡ after + seconds n → IsAfter inclusive after t
interval-IsAfter true after t n positive e = omega (arith, positive, e)
interval-IsAfter false after t n positive e = omega (arith, positive, e)

module _ (lib : Calendar) (s : Schedule) (after : ℕ) where
  -- An accepted interval is longer than nothing.
  validate-interval :
      validate_schedule lib s after ≡ ok tt
      → str_eq s.kind "interval" ≡ true
      → 0 < int_or_zero s.interval_seconds
  unfolding validate_schedule check_interval
  validate-interval h b =
      let (once, daily, weekly) = interval_only s.kind b in
      let (_, _, rest) = >>=-ok_parts (check_zone lib s.timezone) _ h in ground arith

  next_once-later :
      (inclusive : Bool) {t : ℕ}
      → next_once lib s after inclusive ≡ ok (some t)
      → IsAfter inclusive after t × (lib.from_iso (text_or_empty s.at) ≡ aware t)
  unfolding next_once
  next_once-later inclusive {t} h = (later-IsAfter inclusive after t (ground arith), ground arith)

  candidate-FiresOn :
      (inclusive : Bool) (time day : ℕ) {t : ℕ}
      → candidate_on lib s time inclusive after day ≡ some t
      → FiresOn lib s time inclusive after day t
  unfolding candidate_on local_candidate
  candidate-FiresOn inclusive time day {t} h = record {
    on_weekday = λ weekly. ground arith;
    instant = ground arith;
    same_day = ground arith;
    same_time = ground arith;
    later = later-IsAfter inclusive after t (ground arith);
  }

  FiresOn-candidate :
      (inclusive : Bool) (time day t : ℕ)
      → FiresOn lib s time inclusive after day t
      → candidate_on lib s time inclusive after day ≡ some t
  unfolding candidate_on local_candidate
  FiresOn-candidate inclusive time day t h =
      let later = IsAfter-later inclusive after t h.later in
      let weekly = h.on_weekday in ground (arith, h.instant, h.same_day, h.same_time, later, weekly)

  IsFirst-day :
      (inclusive : Bool) (time rounds start : ℕ) {t : ℕ}
      → IsFirst (candidate_on lib s time inclusive after) rounds start t
      → IsFirstDay lib s time inclusive after rounds start t
  IsFirst-day inclusive time rounds start first = record {
    day = first.day;
    from_start = first.from_start;
    in_window = first.in_window;
    fires = candidate-FiresOn inclusive time first.day first.hit;
    none_before = λ k lo hi u fires.
        let hit = FiresOn-candidate inclusive time k u fires in
        absurd (cc (first.none_before k lo hi, hit));
  }

  candidate-later :
      (inclusive : Bool) (time day : ℕ) {t : ℕ}
      → candidate_on lib s time inclusive after day ≡ some t
      → is_later inclusive after t ≡ true
  unfolding candidate_on
  candidate-later inclusive time day h = ground arith

  next_daily-later :
      (inclusive : Bool) {t : ℕ}
      → next_daily lib s after inclusive ≡ ok (some t)
      → IsAfter inclusive after t
        × IsFirstDay lib s
            (time_or_zero (lib.time_from_iso (text_or_empty s.local_time)))
            inclusive
            after
            9
            (lib.to_wall s.timezone after).day
            t
  unfolding next_daily
  next_daily-later inclusive {t} h =
      let time = time_or_zero (lib.time_from_iso (text_or_empty s.local_time)) in
      let (u, e, first) =
        search_days-IsFirst 9 (candidate_on lib s time inclusive after)
          (lib.to_wall s.timezone after).day h in
      let same : t ≡ u = cc in
      rw same (
        later-IsAfter inclusive after u (candidate-later inclusive time first.day first.hit),
        IsFirst-day inclusive time 9 (lib.to_wall s.timezone after).day first,
      )

  -- The next occurrence lies after the given time (or, if that is allowed, at it) and is an occurrence of
  -- the schedule: the time of a one-time schedule, one interval on, or the first of the nine local
  -- days from the given time's that matches and on which the local time exists and lies after it.
  pub next_run-IsOccurrence :
      (inclusive : Bool) {t : ℕ}
      → next_run lib s after inclusive ≡ ok (some t)
      → IsAfter inclusive after t × IsOccurrence lib s after inclusive t
  unfolding next_run
  next_run-IsOccurrence inclusive {t} h =
      let (_, valid, rest) = >>=-ok_parts (validate_schedule lib s after) _ h in
      elim (Bool-cases (str_eq s.kind "once")) [
        | inl once ↦ rw once (next_once-later inclusive (rw once at rest))
        | inr other ↦ elim (Bool-cases (str_eq s.kind "interval")) [
          | inl interval ↦
              (let e : t ≡ after + seconds (int_or_zero s.interval_seconds) =
                  cc (rw (other, interval) at rest) in
                let positive = validate-interval (valid) interval in
                rw (other, interval) (interval-IsAfter inclusive after t _ positive e, e))
          | inr recurring ↦
              rw (other, recurring) (next_daily-later inclusive (rw (other, recurring) at rest))
        ]
      ]

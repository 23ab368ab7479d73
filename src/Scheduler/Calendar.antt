-- ===== src/Scheduler/Calendar.antt =====
-- `_zone`, `_local_candidate`, `validate_schedule` and `next_run` of portal/scheduler.py. Time zones
-- and the readers of ISO texts are Python's, and parameters here. An instant is in UTC; a wall time is
-- a day number and the time of that day.
pub mod Validity
pub mod NextRun
use modular_discord_bot_oper.Common.{
  ℕ, zero, suc, ◌+◌, String, Bool, true, false, Option, none, some, List, [], ◌∷◌, any, str_eq,
  ◌||◌, ◌&&◌, not, ltb, leb, ◌==◌, if◌then◌else◌, Result, ok, err, is_some,
}
use modular_discord_bot_oper.Common.Fallible.{◌>>=◌, ◌>>◌, refuse}
use modular_discord_bot_oper.Common.Json.{ℤ, pos, negsuc}
use modular_discord_bot_oper.Common.Text.{text_length, has_slash}
use modular_discord_bot_oper.Scheduler.Model.{
  Error, schedule_invalid, timezone_invalid, foreign, Schedule, seconds, min_interval_seconds,
  max_horizon_seconds,
}

-- How `ZoneInfo(name)` ends: it raises `ZoneInfoNotFoundError`, or `ValueError` for a bad key.
pub data ZoneOutcome : Type 0 where
  found not_found bad_key : ZoneOutcome

-- What `datetime.fromisoformat` returns.
pub data IsoOutcome : Type 0 where
  invalid naive : IsoOutcome
  aware : ℕ → IsoOutcome

pub record Wall : Type 0 where
  pub day : ℕ
  pub time : ℕ

pub record Calendar : Type 0 where
  pub zone : String → ZoneOutcome
  pub from_iso : String → IsoOutcome
  pub time_from_iso : String → Option ℕ
  pub weekday : ℕ → ℕ
  pub to_wall : String → ℕ → Wall
  pub to_utc : String → Wall → ℕ

-- Truth of the values that the checks test.
abbrev pub truthy_text : Option String → Bool
truthy_text none = false
truthy_text (some t) = not (str_eq t "")

abbrev pub truthy_list : List ℤ → Bool
truthy_list [] = false
truthy_list (_ ∷ _) = true

abbrev pub truthy_int : Option ℤ → Bool
truthy_int none = false
truthy_int (some (pos zero)) = false
truthy_int (some _) = true

abbrev pub text_or_empty : Option String → String
text_or_empty none = ""
text_or_empty (some t) = t

abbrev pub same_int : ℤ → ℤ → Bool
same_int (pos a) (pos b) = a == b
same_int (negsuc a) (negsuc b) = a == b
same_int _ _ = false

-- `x in range(7)`
abbrev pub is_weekday : ℤ → Bool
is_weekday (pos n) = ltb n 7
is_weekday (negsuc n) = false

-- `len(set(xs)) != len(xs)`
unfoldable pub has_duplicate : List ℤ → Bool
has_duplicate [] = false
has_duplicate (x ∷ xs) = any (same_int x) xs || has_duplicate xs

-- `interval_seconds is None or interval_seconds < MIN_INTERVAL_SECONDS`
abbrev pub is_short : Option ℤ → Bool
is_short none = true
is_short (some (pos n)) = ltb n min_interval_seconds
is_short (some (negsuc n)) = true

abbrev pub is_long : Option ℤ → Bool
is_long (some (pos n)) = ltb max_horizon_seconds n
is_long _ = false

-- `interval_seconds or 0`
abbrev pub int_or_zero : Option ℤ → ℕ
int_or_zero (some (pos n)) = n
int_or_zero _ = 0

unfoldable pub check_interval : Schedule → Result Error (Unit {0})
check_interval s = do
  refuse (is_short s.interval_seconds) schedule_invalid
  refuse
      (is_long s.interval_seconds
        || (truthy_text s.at || truthy_text s.local_time || truthy_list s.weekdays))
      schedule_invalid

-- `candidate > after or (inclusive and candidate == after)`
abbrev pub is_later : Bool → ℕ → ℕ → Bool
is_later inclusive after t = ltb after t || (inclusive && (t == after))

-- The loop, with `rounds` days left.
unfoldable pub search_days : ℕ → (ℕ → Option ℕ) → ℕ → Result Error (Option ℕ)
search_days zero try_ day = err schedule_invalid
search_days (suc rounds) try_ day = elim (try_ day) [
  | some t ↦ ok (some t)
  | none ↦ search_days rounds try_ (day + 1)
]

abbrev pub time_or_zero : Option ℕ → ℕ
time_or_zero none = 0
time_or_zero (some t) = t

module _ (lib : Calendar) where
  -- `_zone`
  unfoldable pub check_zone : String → Result Error (Unit {0})
  check_zone name =
      if ltb 64 (text_length name) || (not (has_slash name) && not (str_eq name "UTC"))
      then err timezone_invalid
      else elim (lib.zone name) [
        | found ↦ ok tt
        | not_found ↦ err timezone_invalid
        | bad_key ↦ err foreign
      ]

  -- `_utc(datetime.fromisoformat(...))` under its `except` clause
  abbrev pub parse_at : String → Result Error ℕ
  parse_at text = elim (lib.from_iso text) [
    | invalid ↦ err schedule_invalid
    | naive ↦ err schedule_invalid
    | aware t ↦ ok t
  ]

  unfoldable pub check_once : Schedule → ℕ → Result Error (Unit {0})
  check_once s now = do
    refuse
        (not (truthy_text s.at)
          || (truthy_text s.local_time || truthy_list s.weekdays || truthy_int s.interval_seconds))
        schedule_invalid
    t ← parse_at (text_or_empty s.at)
    refuse (ltb (t + seconds 60) now || ltb (now + seconds max_horizon_seconds) t) schedule_invalid

  unfoldable pub check_recurring : Bool → Schedule → Result Error (Unit {0})
  unfolding has_duplicate
  check_recurring weekly s = do
    refuse (not (truthy_text s.local_time) || truthy_text s.at || truthy_int s.interval_seconds)
        schedule_invalid
    refuse (not (is_some (lib.time_from_iso (text_or_empty s.local_time)))) schedule_invalid
    refuse (not weekly && truthy_list s.weekdays) schedule_invalid
    refuse
        (weekly
          && (not (truthy_list s.weekdays)
              || any (λ x. not (is_weekday x)) s.weekdays
              || has_duplicate s.weekdays))
        schedule_invalid

  unfoldable pub validate_schedule : Schedule → ℕ → Result Error (Unit {0})
  validate_schedule s now = do
    check_zone s.timezone
    (if str_eq s.kind "once"
        then check_once s now
        else if str_eq s.kind "daily" || str_eq s.kind "weekly"
        then check_recurring (str_eq s.kind "weekly") s
        else if str_eq s.kind "interval"
        then check_interval s
        else err schedule_invalid)

  -- `_local_candidate`: a wall time that the zone skips does not survive the way to UTC and back.
  unfoldable pub local_candidate : String → Wall → Option ℕ
  local_candidate zone wall =
      let t = lib.to_utc zone wall in
      let back = lib.to_wall zone t in
      if (back.day == wall.day) && (back.time == wall.time) then some t else none

  -- `schedule.kind == "weekly" and day.weekday() not in schedule.weekdays`, negated
  abbrev pub day_matches : Schedule → ℕ → Bool
  day_matches s day =
      not (str_eq s.kind "weekly" && not (any (same_int (pos (lib.weekday day))) s.weekdays))

  -- One round of the loop over the days.
  unfoldable pub candidate_on : Schedule → ℕ → Bool → ℕ → ℕ → Option ℕ
  unfolding local_candidate
  candidate_on s time inclusive after day =
      if day_matches s day
      then elim (local_candidate s.timezone (record { day = day; time = time })) [
        | none ↦ none
        | some t ↦ if is_later inclusive after t then some t else none
      ]
      else none

  unfoldable pub next_once : Schedule → ℕ → Bool → Result Error (Option ℕ)
  next_once s after inclusive = do
    t ← parse_at (text_or_empty s.at)
    ok (if is_later inclusive after t then some t else none)

  unfoldable pub next_daily : Schedule → ℕ → Bool → Result Error (Option ℕ)
  unfolding candidate_on search_days
  next_daily s after inclusive =
      search_days 9
        (candidate_on s (time_or_zero (lib.time_from_iso (text_or_empty s.local_time))) inclusive
          after)
        (lib.to_wall s.timezone after).day

  unfoldable pub next_run : Schedule → ℕ → Bool → Result Error (Option ℕ)
  next_run s after inclusive = do
    validate_schedule s after
    (if str_eq s.kind "once"
        then next_once s after inclusive
        else if str_eq s.kind "interval"
        then ok (some (after + seconds (int_or_zero s.interval_seconds)))
        else next_daily s after inclusive)

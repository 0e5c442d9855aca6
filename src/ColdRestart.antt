-- ===== src/ColdRestart.antt =====
-- The decision layer of ibctl/src/cold_restart.rs (the weekly cold restart), and
-- `ColdRestartSkipReason` and `ColdRestartSignal` of ibctl/src/types.rs. jiff is the parameter
-- `Calendar`.
pub mod Scheduler
pub mod Laws
pub mod Once
pub mod Equivalent
pub mod Parse
mod Tests
use ibctl.Base.{
  ℕ, ◌≡◌, ◌<◌, ◌↔◌, Bool, true, false, not, ◌&&◌, ◌||◌, Option, none, some, List, [], ◌∷◌, ◌==◌,
  ltb, leb, if◌then◌else◌, ◌>>=◌,
}
use ibctl.Base.Int.{ℤ, pos, as_i8, int_eq}
use ibctl.Base.Text.{Text, trim, split}
use ibctl.Base.Decimal.{parse_u32}

-- What the scheduler calls of jiff: the parts of a `Zoned` (`weekday` is
-- `weekday().to_sunday_zero_offset()`), `date() == date()`, `civil::Time::new(h, m, 0, 0)` with the
-- order of times, and `Zoned::from_str`.
pub record Calendar (Zoned Time : Type 0) : Type 0 where
  pub year : Zoned → ℤ
  pub day_of_year : Zoned → ℕ
  pub weekday : Zoned → ℕ
  pub hour : Zoned → ℕ
  pub minute : Zoned → ℕ
  pub same_date : Zoned → Zoned → Bool
  pub time : Zoned → Time
  pub time_new : ℤ → ℤ → Option Time
  pub time_lt : Time → Time → Bool
  pub from_str : Text → Option Zoned

-- Whether a time of day is before another, by hours and minutes.
abbrev pub clock_before : ℕ → ℕ → ℕ → ℕ → Bool
clock_before h m target_hour target_minute =
    ltb h target_hour || (h == target_hour && ltb m target_minute)

-- What the program relies on: a date is a year and a day of it, and a time of day is before
-- hour:minute:00 if its hour and minute are.
pub record IsCalendar {Zoned Time : Type 0} (cal : Calendar Zoned Time) : Type 0 where
  pub same_date_iff :
      (a b : Zoned)
      → (cal.same_date a b ≡ true)
        ↔ ((cal.year a ≡ cal.year b) × (cal.day_of_year a ≡ cal.day_of_year b))
  pub time_new-lt :
      (h m : ℕ)
      → h < 24
      → m < 60
      → (t : Time) × (cal.time_new (pos h) (pos m) ≡ some t)
        × ((z : Zoned) → cal.time_lt (cal.time z) t ≡ clock_before (cal.hour z) (cal.minute z) h m)

pub record SchedulerConfig (Zoned : Type 0) : Type 0 where
  pub target_dow : ℕ
  pub target_hour : ℕ
  pub target_minute : ℕ
  pub boot_at : Zoned

pub record MarkerState (Zoned : Type 0) : Type 0 where
  pub fired_today : Bool
  pub equivalent_marker : Option Zoned

pub data ColdRestartSkipReason (Zoned : Type 0) : Type 0 where
  fresh_auth_today : Zoned → ColdRestartSkipReason Zoned
  dormant_site : ColdRestartSkipReason Zoned

pub data ColdRestartSignal (Zoned : Type 0) : Type 0 where
  fire : ColdRestartSignal Zoned
  skipped : ColdRestartSkipReason Zoned → ColdRestartSignal Zoned

pub data NextAction (Zoned : Type 0) : Type 0 where
  sleep : NextAction Zoned
  skip : ColdRestartSkipReason Zoned → NextAction Zoned
  fire_eligible : NextAction Zoned

unfoldable pub parse_parts : List Text → Option (ℕ × ℕ)
parse_parts (h ∷ m ∷ []) = do
  hour ← parse_u32 h
  minute ← parse_u32 m
  if ltb 23 hour || ltb 59 minute then none else some (hour, minute)
parse_parts _ = none

unfoldable pub parse_cold_restart_time : Text → Option (ℕ × ℕ)
unfolding parse_parts
parse_cold_restart_time time_str = elim (trim time_str) [
  | [] ↦ none
  | c ∷ cs ↦ parse_parts (split b':' (c ∷ cs))
]

module _ {Zoned Time : Type 0} (cal : Calendar Zoned Time) where
  unfoldable pub started_past_target_on_startup_day : Zoned → Zoned → ℕ → ℕ → ℕ → Bool
  started_past_target_on_startup_day boot_at now target_dow target_hour target_minute =
      if not (int_eq (cal.year boot_at) (cal.year now))
        || not (cal.day_of_year boot_at == cal.day_of_year now)
      then false
      else if not (cal.weekday boot_at == target_dow)
      then false
      else ltb target_hour (cal.hour boot_at)
        || (cal.hour boot_at == target_hour && ltb target_minute (cal.minute boot_at))

  unfoldable pub should_skip_for_marker : Zoned → Zoned → ℕ → ℕ → Bool
  should_skip_for_marker marker now target_hour target_minute =
      if not (cal.same_date marker now)
      then false
      else if ltb (cal.hour marker) 1
      then false
      else elim (cal.time_new (as_i8 target_hour) (as_i8 target_minute)) [
        | none ↦ false
        | some target_time ↦ cal.time_lt (cal.time marker) target_time
      ]

  abbrev past_target : Zoned → SchedulerConfig Zoned → Bool
  past_target now cfg =
      ltb cfg.target_hour (cal.hour now)
      || (cal.hour now == cfg.target_hour && leb cfg.target_minute (cal.minute now))

  -- The decision from the equivalent marker, once it is time.
  abbrev pub skip_or_fire : Zoned → SchedulerConfig Zoned → Option Zoned → NextAction Zoned
  skip_or_fire now cfg none = fire_eligible
  skip_or_fire now cfg (some marker) =
      if should_skip_for_marker marker now cfg.target_hour cfg.target_minute
      then skip (fresh_auth_today marker)
      else fire_eligible

  unfoldable pub compute_next_action :
      Zoned → SchedulerConfig Zoned → MarkerState Zoned → NextAction Zoned
  unfolding started_past_target_on_startup_day should_skip_for_marker
  compute_next_action now cfg markers =
      if not (cal.weekday now == cfg.target_dow)
      then sleep
      else if markers.fired_today
      then sleep
      else if started_past_target_on_startup_day cfg.boot_at now cfg.target_dow cfg.target_hour
          cfg.target_minute
      then sleep
      else if not (past_target now cfg)
      then sleep
      else skip_or_fire now cfg markers.equivalent_marker

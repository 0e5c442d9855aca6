-- ===== src/ColdRestart/Laws.antt =====
-- When the cold restart is due, after ibctl/src/cold_restart.rs.
use ibctl.Base.{◌≡◌, ◌<◌, ◌≤◌, ◌↔◌, true, false, some, arith, Option-cases, inl, inr, ◌⊎◌}
use ibctl.Base.Int.{int_eq→eq, int_eq_self}
use ibctl.ColdRestart.{
  Calendar, IsCalendar, clock_before, SchedulerConfig, MarkerState, sleep, fire_eligible,
  should_skip_for_marker, started_past_target_on_startup_day, compute_next_action, skip_or_fire,
}

abbrev pub IsValidTarget : {Zoned : Type 0} → SchedulerConfig Zoned → Type 0
IsValidTarget cfg = (cfg.target_hour < 24) × (cfg.target_minute < 60)

module _ {Zoned Time : Type 0} (cal : Calendar Zoned Time) where
  abbrev pub SameDay : Zoned → Zoned → Type 0
  SameDay a b = (cal.year a ≡ cal.year b) × (cal.day_of_year a ≡ cal.day_of_year b)

  -- The scheduler started on today's date, later than the target's minute on the target weekday.
  abbrev pub StartedLate : SchedulerConfig Zoned → Zoned → Type 0
  StartedLate cfg now =
      SameDay cfg.boot_at now
      × (cal.weekday cfg.boot_at ≡ cfg.target_dow)
      × (clock_before cfg.target_hour cfg.target_minute (cal.hour cfg.boot_at)
            (cal.minute cfg.boot_at)
          ≡ true)

  -- An authentication of today, from one o'clock and before the target.
  abbrev pub IsFresh : SchedulerConfig Zoned → Zoned → Zoned → Type 0
  IsFresh cfg now marker =
      SameDay marker now
      × (1 ≤ cal.hour marker)
      × (clock_before (cal.hour marker) (cal.minute marker) cfg.target_hour cfg.target_minute
          ≡ true)

  started_lem :
      (cfg : SchedulerConfig Zoned) (now : Zoned)
      → (started_past_target_on_startup_day cal cfg.boot_at now cfg.target_dow cfg.target_hour
            cfg.target_minute
          ≡ true)
        ↔ StartedLate cfg now
  unfolding started_past_target_on_startup_day
  started_lem cfg now =
      ground (arith, int_eq→eq (cal.year cfg.boot_at) (cal.year now), int_eq_self (cal.year now))

  pub skip_lem :
      (cfg : SchedulerConfig Zoned) (now marker : Zoned)
      → IsCalendar cal
      → IsValidTarget cfg
      → (should_skip_for_marker cal marker now cfg.target_hour cfg.target_minute ≡ true)
        ↔ IsFresh cfg now marker
  unfolding should_skip_for_marker
  skip_lem cfg now marker is_cal (vh, vm) =
      let (t, e, lt) = is_cal.time_new-lt cfg.target_hour cfg.target_minute vh vm in
      ground (arith, is_cal.same_date_iff marker now, e, lt marker)

  -- The configuration's and the marker's conditions under which a cold restart is due.
  abbrev pub IsDue : SchedulerConfig Zoned → MarkerState Zoned → Zoned → Type 0
  IsDue cfg markers now =
      (cal.weekday now ≡ cfg.target_dow)
      × (markers.fired_today ≡ false)
      × (StartedLate cfg now → ⊥)
      × (clock_before (cal.hour now) (cal.minute now) cfg.target_hour cfg.target_minute ≡ false)

  pub due_lem :
      (cfg : SchedulerConfig Zoned) (markers : MarkerState Zoned) (now : Zoned)
      → ((compute_next_action cal now cfg markers ≡ sleep) × (IsDue cfg markers now → ⊥))
        ⊎ ((compute_next_action cal now cfg markers
              ≡ skip_or_fire cal now cfg markers.equivalent_marker)
            × IsDue cfg markers now)
  unfolding compute_next_action
  due_lem cfg markers now = ground (arith, started_lem cfg now)

  -- With a target time of the day, a cold restart is fired exactly if today is the target weekday,
  -- no fire is recorded for today, the scheduler was not started today after the target minute, the
  -- time is the target's or later, and the equivalent marker records no authentication of today
  -- from one o'clock and before the target. jiff's dates and times are assumed to be consistent.
  pub fire_eligible_iff :
      (cfg : SchedulerConfig Zoned) (markers : MarkerState Zoned) (now : Zoned)
      → IsCalendar cal
      → IsValidTarget cfg
      → (compute_next_action cal now cfg markers ≡ fire_eligible) ↔ (
          IsDue cfg markers now
          × ((m : Zoned) → markers.equivalent_marker ≡ some m → IsFresh cfg now m → ⊥))
  fire_eligible_iff cfg markers now is_cal valid = (
    λ h. (
      ground (arith, due_lem cfg markers now),
      λ m e fresh. ground (arith, due_lem cfg markers now, skip_lem cfg now m is_cal valid),
    ),
    λ (d, unfresh). elim (Option-cases markers.equivalent_marker) [
      | inl e ↦ ground (arith, due_lem cfg markers now, e, d)
      | inr (m, e) ↦
          ground (arith, due_lem cfg markers now, d, unfresh m e, skip_lem cfg now m is_cal valid)
    ],
  )

  -- No fresh authentication, no skip.
  pub unfresh_lem :
      (cfg : SchedulerConfig Zoned) (markers : MarkerState Zoned) (now : Zoned)
      → IsCalendar cal
      → IsValidTarget cfg
      → ((m : Zoned) → markers.equivalent_marker ≡ some m → IsFresh cfg now m → ⊥)
      → (compute_next_action cal now cfg markers ≡ sleep)
        ⊎ (compute_next_action cal now cfg markers ≡ fire_eligible)
  unfresh_lem cfg markers now is_cal valid unfresh = elim (Option-cases markers.equivalent_marker) [
    | inl e ↦ ground (arith, due_lem cfg markers now, e)
    | inr (m, e) ↦
        ground (arith, due_lem cfg markers now, unfresh m e, skip_lem cfg now m is_cal valid)
  ]

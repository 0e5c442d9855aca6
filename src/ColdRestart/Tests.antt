-- ===== src/ColdRestart/Tests.antt =====
-- Concrete runs of the cold restart: a calendar of minutes from a Sunday midnight.
use ibctl.Base.{
  ℕ, ◌+◌, ◌*◌, ◌/◌, ◌%◌, ◌≡◌, ◌≢◌, inl, refl, true, false, Option, none, some, [], ◌∷◌, ◌==◌, ltb,
  arith,
}
use ibctl.Base.Int.{ℤ, pos, negsuc, int_eq}
use ibctl.Base.Text.{codes, text_eq, trim, trim_start, is_whitespace}
use ibctl.Base.Decimal.{decimal, parse_u32, parse_below, parse_digits, digits, show_int}
use ibctl.Recovery.Disk.{Fs, holds, missing, put}
use ibctl.ColdRestart.{
  Calendar, IsCalendar, SchedulerConfig, MarkerState, fire, fire_eligible, skipped,
  fresh_auth_today, should_skip_for_marker, compute_next_action, started_past_target_on_startup_day,
}
use ibctl.ColdRestart.Scheduler.{
  TickInput, tick, read_marker_state, atomic_write, write_fired_marker, already_fired, day_text,
  read_cold_restart_equivalent_marker,
}
use ibctl.ColdRestart.Once.{signals, fire-signals, tick-fire}
use ibctl.ColdRestart.Equivalent.{
  write_cold_restart_equivalent_marker, tick-write_cold_restart_equivalent_marker,
}

abbrev time_of : ℤ → ℤ → Option ℕ
time_of (pos h) (pos m) = some (h * 60 + m)
time_of (negsuc h) m = none
time_of (pos h) (negsuc m) = none

abbrev calendar : Calendar ℕ ℕ
calendar = record {
  year = λ z. pos 2026;
  day_of_year = λ z. z / 1440;
  weekday = λ z. z / 1440 % 7;
  hour = λ z. z % 1440 / 60;
  minute = λ z. z % 60;
  same_date = λ a b. (a / 1440) == (b / 1440);
  time = λ z. z % 1440;
  time_new = time_of;
  time_lt = ltb;
  from_str = parse_u32;
}

calendar-IsCalendar : IsCalendar calendar
calendar-IsCalendar = record {
  same_date_iff = λ a b. ground arith;
  time_new-lt = λ h m hb mb. (h * 60 + m, refl, λ z. ground arith);
}

-- Sundays at 09:00; started on the Thursday before.
abbrev cfg : SchedulerConfig ℕ
cfg = record { target_dow = 0; target_hour = 9; target_minute = 0; boot_at = 4 * 1440 }

abbrev sunday : ℕ
sunday = 7 * 1440

abbrev nothing : MarkerState ℕ
nothing = record { fired_today = false; equivalent_marker = none }

eligible_test : compute_next_action calendar (sunday + 600) cfg nothing ≡ fire_eligible
unfolding compute_next_action started_past_target_on_startup_day int_eq
eligible_test = refl

abbrev empty_dir : Fs
empty_dir name = missing

abbrev at : ℕ → TickInput ℕ
at z = record {
  now_pre = z;
  now_post = z + 1;
  window = λ fs. fs;
  fails_pre = λ name. false;
  fails_post = λ name. false;
  receiver_alive = true;
}

tick-fire_example :
    (tick calendar cfg (codes "equiv") (at (sunday + 600)) [] empty_dir).sent ≡ fire ∷ []
unfolding read_marker_state text_eq
tick-fire_example =
    tick-fire calendar (codes "equiv") cfg (at (sunday + 600)) empty_dir calendar-IsCalendar
      (ground arith) (refl, refl, (λ p. ground arith), refl) (λ m e f. ground arith)
      (λ m e f. ground arith) refl

fire-signals_example :
    let t = tick calendar cfg (codes "equiv") (at (sunday + 600)) [] empty_dir in
    signals calendar
      (codes "equiv")
      (record { cfg = cfg; input = at (sunday + 601); before = λ fs. fs }
        ∷ record {
          cfg = record cfg { boot_at = sunday };
          input = at (sunday + 700);
          before = λ fs. fs;
        }
        ∷ [])
      t.faults
      t.fs
    ≡ []
fire-signals_example =
    fire-signals calendar (codes "equiv") cfg (at (sunday + 600)) [] empty_dir _ tick-fire_example
      (((refl, refl), refl, λ fs. refl), (((refl, refl), refl, λ fs. refl), tt))

-- An authentication at 08:59 that is recorded without a fault.
tick-write_cold_restart_equivalent_marker_example :
    (tick calendar cfg
      (codes "equiv")
      (at (sunday + 600))
      []
      (write_cold_restart_equivalent_marker decimal
        (codes "equiv")
        (sunday + 539)
        []
        empty_dir).1).sent
    ≢ fire ∷ []
unfolding write_cold_restart_equivalent_marker atomic_write trim trim_start is_whitespace
    parse_below parse_digits digits decimal parse_u32
tick-write_cold_restart_equivalent_marker_example =
    tick-write_cold_restart_equivalent_marker calendar decimal (codes "equiv") cfg
      (at (sunday + 600)) (sunday + 539) [] [] empty_dir
      (write_cold_restart_equivalent_marker decimal (codes "equiv") (sunday + 539) [] empty_dir).1
      calendar-IsCalendar (ground arith) (ground arith) refl (inl (refl, ground arith))

-- The equivalent marker that appears in the warning window turns the fire into a skip.
race_test :
    (tick calendar cfg
      (codes "equiv")
      (record (at (sunday + 540)) {
        window = λ fs. put fs (codes "equiv") (holds (decimal (sunday + 539)));
      })
      []
      empty_dir).sent
    ≡ skipped (fresh_auth_today (sunday + 539)) ∷ []
unfolding tick compute_next_action started_past_target_on_startup_day should_skip_for_marker int_eq
    already_fired day_text show_int trim trim_start is_whitespace
    read_cold_restart_equivalent_marker atomic_write parse_below parse_digits digits
    read_marker_state text_eq decimal parse_u32 write_fired_marker
race_test = ground arith

-- A fired marker that cannot be read leaves the restart due again.
refire_test :
    let marked = put empty_dir (codes ".ibctl-cold-restart-marker") (holds (codes "2026-7")) in
    (tick calendar cfg
      (codes "equiv")
      (record (at (sunday + 600)) { fails_pre = λ name. true })
      []
      marked).sent
    ≡ fire ∷ []
unfolding tick compute_next_action started_past_target_on_startup_day should_skip_for_marker int_eq
    already_fired day_text show_int trim trim_start is_whitespace
    read_cold_restart_equivalent_marker atomic_write parse_below parse_digits digits
    read_marker_state text_eq decimal parse_u32 write_fired_marker
refire_test = ground arith

-- ===== src/ColdRestart/Equivalent.antt =====
-- ibctl/src/state_machine/markers.rs: the writer of the marker that the scheduler of
-- ibctl/src/cold_restart.rs reads, and the cold restarts that it keeps back.
use ibctl.Base.{◌≡◌, ◌≢◌, ◌∙◌, refl, ap, some, List, [], ◌∷◌, arith, ◌⊎◌, inl, inr}
use ibctl.Base.Text.{Text, trim, text_eq_self}
use ibctl.Recovery.Disk.{Fs, holds, Fault, Io, done, tmp_name}
use ibctl.Recovery.Disk.Laws.{text_eq-tmp_name}
use ibctl.ColdRestart.{
  Calendar, IsCalendar, SchedulerConfig, fire, fire_eligible, compute_next_action, NextAction,
  sleep, skip, fresh_auth_today,
}
use ibctl.ColdRestart.Laws.{IsDue, IsFresh, IsValidTarget, fire_eligible_iff, skip_lem, due_lem}
use ibctl.ColdRestart.Once.{send_skipped_only}
use ibctl.ColdRestart.Scheduler.{
  TickInput, tick, atomic_write, write_fired_marker, read_marker_state, as_read, first_decision,
  read_cold_restart_equivalent_marker,
}

-- The text of jiff's `to_string`, in one atomic write.
unfoldable pub write_cold_restart_equivalent_marker :
    {Zoned : Type 0} → (Zoned → Text) → Text → Zoned → Io (Unit {0})
unfolding atomic_write
write_cold_restart_equivalent_marker to_string path now = atomic_write path (to_string now)

-- A write that succeeds leaves the text in the file.
written :
    (path bytes : Text) (faults : List Fault) (fs : Fs)
    → (atomic_write path bytes faults fs).0 ≡ done tt
    → (atomic_write path bytes faults fs).1 path ≡ holds bytes
unfolding atomic_write
written path bytes faults fs h =
    ground (arith, text_eq_self path, text_eq_self (tmp_name path), text_eq-tmp_name path)

module _ {Zoned Time : Type 0} (cal : Calendar Zoned Time) (to_string : Zoned → Text)
    (path : Text) where
  marked :
      (at now : Zoned) (fs : Fs)
      → cal.from_str (trim (to_string at)) ≡ some at
      → fs path ≡ holds (to_string at)
      → (read_marker_state cal fs path now).equivalent_marker ≡ some at
  unfolding read_marker_state read_cold_restart_equivalent_marker
  marked at now fs back m = ap (read_cold_restart_equivalent_marker cal) m ∙ back

  unfired :
      (cfg : SchedulerConfig Zoned) (at now : Zoned) (fs : Fs)
      → IsCalendar cal
      → IsValidTarget cfg
      → cal.from_str (trim (to_string at)) ≡ some at
      → fs path ≡ holds (to_string at)
      → IsFresh cal cfg now at
      → compute_next_action cal now cfg (read_marker_state cal fs path now) ≢ fire_eligible
  unfired cfg at now fs is_cal valid back m fresh = λ e.
      let (due, unfresh) =
        (fire_eligible_iff cal cfg (read_marker_state cal fs path now) now is_cal valid).0 e in
      unfresh at (marked at now fs back m) fresh

  skipped_over :
      (cfg : SchedulerConfig Zoned) (at now : Zoned) (fs : Fs)
      → IsCalendar cal
      → IsValidTarget cfg
      → cal.from_str (trim (to_string at)) ≡ some at
      → fs path ≡ holds (to_string at)
      → IsFresh cal cfg now at
      → IsDue cal cfg (read_marker_state cal fs path now) now
      → compute_next_action cal now cfg (read_marker_state cal fs path now)
        ≡ skip (fresh_auth_today at)
  skipped_over cfg at now fs is_cal valid back m fresh due = ground (
    arith,
    due_lem cal cfg (read_marker_state cal fs path now) now,
    due,
    marked at now fs back m,
    (skip_lem cal cfg now at is_cal valid).1 fresh,
  )

  abbrev after : SchedulerConfig Zoned → TickInput Zoned → Fs → NextAction Zoned
  after cfg i fs =
      compute_next_action cal i.now_post cfg
        (read_marker_state cal (as_read i.fails_post (i.window fs)) path i.now_post)

  held :
      (a : NextAction Zoned) (cfg : SchedulerConfig Zoned) (i : TickInput Zoned)
      (faults : List Fault) (fs : Fs)
      → (a ≢ fire_eligible) ⊎ ((z : Zoned) × (after cfg i fs ≡ skip (fresh_auth_today z)))
      → (first_decision cal a cfg path i faults fs).sent ≢ fire ∷ []
  held sleep cfg i faults fs h = λ e. ground arith
  held (skip reason) cfg i faults fs h =
      send_skipped_only cal path reason i.receiver_alive
        (write_fired_marker cal i.now_pre faults fs)
  held fire_eligible cfg i faults fs (inl h) = absurd (h refl)
  held fire_eligible cfg i faults fs (inr (z, h)) = rw h (
      send_skipped_only cal path (fresh_auth_today z) i.receiver_alive
        (write_fired_marker cal i.now_pre faults (i.window fs)))

  -- An authentication that the state machine has recorded keeps the cold restart from being fired:
  -- if its write returned Ok and the tick finds the marker as it was left, before it, and the
  -- authentication is fresh by the first clock, or after its warning window, and it is fresh and
  -- the restart due by the second clock. A date is assumed to be read back from its text, and
  -- jiff's dates and times to be consistent.
  pub tick-write_cold_restart_equivalent_marker :
      (cfg : SchedulerConfig Zoned) (i : TickInput Zoned) (at : Zoned) (faults later : List Fault)
      (before fs : Fs)
      → IsCalendar cal
      → IsValidTarget cfg
      → cal.from_str (trim (to_string at)) ≡ some at
      → let (result, left, _) =
          write_cold_restart_equivalent_marker to_string path at faults before in
        result ≡ done tt
        → ((as_read i.fails_pre fs path ≡ left path) × IsFresh cal cfg i.now_pre at)
          ⊎ ((as_read i.fails_post (i.window fs) path ≡ left path)
              × IsFresh cal cfg i.now_post at
              × IsDue cal cfg
                  (read_marker_state cal (as_read i.fails_post (i.window fs)) path i.now_post)
                  i.now_post)
        → (tick cal cfg path i later fs).sent ≢ fire ∷ []
  unfolding tick write_cold_restart_equivalent_marker
  tick-write_cold_restart_equivalent_marker cfg i at faults later before fs is_cal valid back ok
        (inl (same, fresh)) =
      held
        (compute_next_action cal i.now_pre cfg
          (read_marker_state cal (as_read i.fails_pre fs) path i.now_pre))
        cfg i later fs
        (inl (
          unfired cfg at i.now_pre (as_read i.fails_pre fs) is_cal valid back
            (same ∙ written path (to_string at) faults before ok) fresh))
  tick-write_cold_restart_equivalent_marker cfg i at faults later before fs is_cal valid back ok
        (inr (same, fresh, due)) =
      held
        (compute_next_action cal i.now_pre cfg
          (read_marker_state cal (as_read i.fails_pre fs) path i.now_pre))
        cfg i later fs
        (inr (
          at,
          skipped_over cfg at i.now_post (as_read i.fails_post (i.window fs)) is_cal valid back
              (same ∙ written path (to_string at) faults before ok) fresh due,
        ))

-- ===== src/ColdRestart/Once.antt =====
-- One cold restart a day: the loop of ibctl/src/cold_restart.rs over the fired marker.
use ibctl.Base.{
  ℕ, ◌≡◌, ◌≢◌, Bool, true, false, some, List, [], ◌∷◌, ◌++◌, arith, refl, ap, ◌∙◌, All,
}
use ibctl.Base.Int.{ℤ}
use ibctl.Base.Text.{Text, text_eq, text_eq_self, is_whitespace}
use ibctl.Base.Decimal.{
  decimal, show_int, trim-IsSolid, All-append, IsSolid, show_int-IsSolid, decimal-IsDigit,
  IsDigit-IsSolid,
}
use ibctl.Recovery.Disk.{Fs, holds, works, Fault, Outcome, fails, dies, done, io_error, crashed}
use ibctl.ColdRestart.{
  Calendar, IsCalendar, SchedulerConfig, fire, fire_eligible, ColdRestartSignal,
  compute_next_action, skip, sleep, NextAction, skipped, ColdRestartSkipReason,
}
use ibctl.ColdRestart.Laws.{SameDay, IsDue, IsFresh, IsValidTarget, fire_eligible_iff, unfresh_lem}
use ibctl.ColdRestart.Scheduler.{
  Ticked, TickInput, tick, marker_path, day_text, already_fired, atomic_write, write_fired_marker,
  read_marker_state, as_read, goes_on, send_fire, send_skipped, after_window, first_decision,
  read_cold_restart_equivalent_marker,
}

day_text-IsSolid : (year : ℤ) (day : ℕ) → All IsSolid (day_text year day)
unfolding day_text is_whitespace
day_text-IsSolid year day =
    All-append IsSolid (show_int year) (b'-' ∷ decimal day) (show_int-IsSolid year)
      (refl, IsDigit-IsSolid (decimal day) (decimal-IsDigit day))

-- The marker of a day is recognised on that day.
already_fired-day_text :
    (year : ℤ) (day : ℕ) → already_fired (holds (day_text year day)) year day ≡ true
unfolding already_fired
already_fired-day_text year day =
    ap (λ t. text_eq t (day_text year day))
      (trim-IsSolid (day_text year day) (day_text-IsSolid year day))
    ∙ text_eq_self (day_text year day)

-- A write that succeeds leaves the text in the file.
atomic_write-done :
    (bytes : Text) (faults : List Fault) (fs : Fs)
    → let (result, fs', _) = atomic_write marker_path bytes faults fs in
      result ≡ done tt → fs' marker_path ≡ holds bytes
unfolding atomic_write text_eq
atomic_write-done bytes [] fs h = ground arith
atomic_write-done bytes (works ∷ []) fs h = ground arith
atomic_write-done bytes (works ∷ works ∷ []) fs h = ground arith
atomic_write-done bytes (works ∷ works ∷ f ∷ []) fs h = ground arith
atomic_write-done bytes (works ∷ works ∷ f ∷ g ∷ _) fs h = ground arith
atomic_write-done bytes (works ∷ fails _ ∷ _) fs h = ground arith
atomic_write-done bytes (works ∷ dies _ ∷ _) fs h = ground arith
atomic_write-done bytes (fails _ ∷ _) fs h = ground arith
atomic_write-done bytes (dies _ ∷ _) fs h = ground arith

-- One tick of some run of the program, after changes that others made to the directory.
pub record Round (Zoned : Type 0) : Type 0 where
  pub cfg : SchedulerConfig Zoned
  pub input : TickInput Zoned
  pub before : Fs → Fs

module _ {Zoned Time : Type 0} (cal : Calendar Zoned Time) (equiv_path : Text) where
  -- The signals of a sequence of ticks, with as many restarts of the program as the sequence has.
  unfoldable pub signals : List (Round Zoned) → List Fault → Fs → List (ColdRestartSignal Zoned)
  unfolding tick
  signals [] faults fs = []
  signals (r ∷ rs) faults fs =
      let t = tick cal r.cfg equiv_path r.input faults (r.before fs) in
      t.sent ++ signals rs t.faults t.fs

  -- The round is on the day of `z`, its read of the fired marker works, and nobody else writes that
  -- marker.
  abbrev pub IsRoundOf : Zoned → Round Zoned → Type 0
  IsRoundOf z r =
      SameDay cal r.input.now_pre z
      × (r.input.fails_pre marker_path ≡ false)
      × ((fs : Fs) → r.before fs marker_path ≡ fs marker_path)

  marked_tick :
      (cfg : SchedulerConfig Zoned) (i : TickInput Zoned) (z : Zoned) (faults : List Fault)
      (fs : Fs)
      → SameDay cal i.now_pre z
      → i.fails_pre marker_path ≡ false
      → fs marker_path ≡ holds (day_text (cal.year z) (cal.day_of_year z))
      → tick cal cfg equiv_path i faults fs
        ≡ record { sent = []; ended = goes_on; fs = fs; faults = faults }
  unfolding tick compute_next_action read_marker_state
  marked_tick cfg i z faults fs (same_year, same_day) readable m =
      ground (arith, already_fired-day_text (cal.year z) (cal.day_of_year z))

  marked_signals :
      (z : Zoned) (rs : List (Round Zoned)) (faults : List Fault) (fs : Fs)
      → All (IsRoundOf z) rs
      → fs marker_path ≡ holds (day_text (cal.year z) (cal.day_of_year z))
      → signals rs faults fs ≡ []
  unfolding signals
  marked_signals z [] faults fs p m = refl
  marked_signals z (r ∷ rs) faults fs ((same, readable, keeps), ps) m =
      let quiet = marked_tick r.cfg r.input z faults (r.before fs) same readable (keeps fs ∙ m) in
      ap (λ (t : Ticked Zoned). t.sent ++ signals rs t.faults t.fs) quiet
      ∙ marked_signals z rs faults (r.before fs) ps (keeps fs ∙ m)

  send_fire_writes :
      (alive : Bool) (w : Outcome (Unit {0}) × Fs × List Fault) (bytes : Text)
      → (w.0 ≡ done tt → w.1 marker_path ≡ holds bytes)
      → (send_fire cal alive w).sent ≡ fire ∷ []
      → (send_fire cal alive w).fs marker_path ≡ holds bytes
  send_fire_writes true (done _, fs, faults) bytes m h = m refl
  send_fire_writes false (done _, fs, faults) bytes m h = ground arith
  send_fire_writes alive (io_error, fs, faults) bytes m h = ground arith
  send_fire_writes alive (crashed, fs, faults) bytes m h = ground arith

  pub send_skipped_only :
      (reason : ColdRestartSkipReason Zoned) (alive : Bool)
      (w : Outcome (Unit {0}) × Fs × List Fault)
      → (send_skipped cal (skipped reason) alive w).sent ≢ fire ∷ []
  send_skipped_only reason true (done u, fs, faults) = λ e. ground arith
  send_skipped_only reason false (done u, fs, faults) = λ e. ground arith
  send_skipped_only reason true (io_error, fs, faults) = λ e. ground arith
  send_skipped_only reason false (io_error, fs, faults) = λ e. ground arith
  send_skipped_only reason alive (crashed, fs, faults) = λ e. ground arith

  abbrev day_of : Zoned → Text
  day_of z = day_text (cal.year z) (cal.day_of_year z)

  written :
      (z : Zoned) (faults : List Fault) (fs : Fs)
      → (write_fired_marker cal z faults fs).0 ≡ done tt
      → (write_fired_marker cal z faults fs).1 marker_path ≡ holds (day_of z)
  unfolding write_fired_marker
  written z faults fs = atomic_write-done (day_of z) faults fs

  after_window_writes :
      (a : NextAction Zoned) (z : Zoned) (alive : Bool) (faults : List Fault) (fs : Fs)
      → (after_window cal a z alive faults fs).sent ≡ fire ∷ []
      → (after_window cal a z alive faults fs).fs marker_path ≡ holds (day_of z)
  after_window_writes (skip reason) z alive faults fs h =
      absurd (send_skipped_only reason alive (write_fired_marker cal z faults fs) h)
  after_window_writes sleep z alive faults fs h =
      send_fire_writes alive (write_fired_marker cal z faults fs) (day_of z) (written z faults fs) h
  after_window_writes fire_eligible z alive faults fs h =
      send_fire_writes alive (write_fired_marker cal z faults fs) (day_of z) (written z faults fs) h

  first_decision_writes :
      (a : NextAction Zoned) (cfg : SchedulerConfig Zoned) (i : TickInput Zoned)
      (faults : List Fault) (fs : Fs)
      → (first_decision cal a cfg equiv_path i faults fs).sent ≡ fire ∷ []
      → (first_decision cal a cfg equiv_path i faults fs).fs marker_path ≡ holds (day_of i.now_pre)
  first_decision_writes sleep cfg i faults fs h = ground arith
  first_decision_writes (skip reason) cfg i faults fs h =
      absurd
        (send_skipped_only reason i.receiver_alive (write_fired_marker cal i.now_pre faults fs) h)
  first_decision_writes fire_eligible cfg i faults fs h =
      let fs' = i.window fs in
      after_window_writes
        (compute_next_action cal i.now_post cfg
          (read_marker_state cal (as_read i.fails_post fs') equiv_path i.now_post))
        i.now_pre i.receiver_alive faults fs' h

  -- Once a tick of the cold restart's loop sent a fire, the ticks that follow send no signal while
  -- their first clock sample is on the same day and their read of the fired marker works, if nobody
  -- else writes that marker before them; they may have another configuration, as after a restart of
  -- the program, and meet any I/O errors and deaths in their writes.
  pub fire-signals :
      (cfg : SchedulerConfig Zoned)
      → (i : TickInput Zoned) → (faults : List Fault) → (fs : Fs) → (rs : List (Round Zoned))
      → (tick cal cfg equiv_path i faults fs).sent ≡ fire ∷ []
      → All (IsRoundOf i.now_pre) rs
      → let t = tick cal cfg equiv_path i faults fs in signals rs t.faults t.fs ≡ []
  unfolding tick
  fire-signals cfg i faults fs rs h p =
      let t = tick cal cfg equiv_path i faults fs in
      marked_signals i.now_pre rs t.faults t.fs p (
        first_decision_writes
          (compute_next_action cal i.now_pre cfg
            (read_marker_state cal (as_read i.fails_pre fs) equiv_path i.now_pre))
          cfg i faults fs h)

  -- A cold restart that is due is fired in one tick, whatever the clock shows after the warning
  -- window: if the writes work and the receiver is there, and no fresh authentication is recorded
  -- before or after the window.
  pub tick-fire :
      (cfg : SchedulerConfig Zoned)
      → (i : TickInput Zoned) → (fs : Fs) → IsCalendar cal
      → IsValidTarget cfg
      → IsDue cal cfg
          (read_marker_state cal (as_read i.fails_pre fs) equiv_path i.now_pre)
          i.now_pre
      → ((m : Zoned)
          → read_cold_restart_equivalent_marker cal (as_read i.fails_pre fs equiv_path) ≡ some m
          → IsFresh cal cfg i.now_pre m
          → ⊥)
      → ((m : Zoned)
          → read_cold_restart_equivalent_marker cal (as_read i.fails_post (i.window fs) equiv_path)
            ≡ some m
          → IsFresh cal cfg i.now_post m
          → ⊥)
      → i.receiver_alive ≡ true
      → (tick cal cfg equiv_path i [] fs).sent ≡ fire ∷ []
  unfolding tick write_fired_marker atomic_write read_marker_state
  tick-fire cfg i fs is_cal valid due unfresh_pre unfresh_post alive =
      let fs' = i.window fs in
      let (_, pre) =
        fire_eligible_iff cal cfg
          (read_marker_state cal (as_read i.fails_pre fs) equiv_path i.now_pre) i.now_pre is_cal
          valid in
      ground (
        arith,
        pre (due, unfresh_pre),
        unfresh_lem cal cfg (read_marker_state cal (as_read i.fails_post fs') equiv_path i.now_post)
            i.now_post is_cal valid unfresh_post,
      )

-- ===== src/ColdRestart/Scheduler.antt =====
-- The files and the loop of ibctl/src/cold_restart.rs. A tick is what the loop does from one of its
-- sleeps of 30 seconds to the next. The directory is the one that holds the fired marker and the
-- equivalent marker. What others do to it in the warning window is a function on directories, and the
-- reads that fail are chosen anew for each of the two decisions.
use ibctl.Base.{ℕ, Bool, true, false, Option, none, some, List, [], ◌∷◌, ◌++◌, min, if◌then◌else◌}
use ibctl.Base.Text.{Text, codes, text_eq, trim}
use ibctl.Base.Int.{ℤ}
use ibctl.Base.Decimal.{decimal, show_int}
use ibctl.Recovery.Disk.{
  Fs, File, missing, unreadable, holds, Fault, Io, Outcome, done, io_error, crashed, ◌>>◌, create,
  write_all, sync_all, rename, tmp_name,
}
use ibctl.ColdRestart.{
  Calendar, SchedulerConfig, MarkerState, NextAction, sleep, skip, fire_eligible, ColdRestartSignal,
  fire, skipped, compute_next_action, parse_cold_restart_time,
}

abbrev pub marker_path : Text
marker_path = codes ".ibctl-cold-restart-marker"

-- `format!("{}-{}", year, day_of_year)`
unfoldable pub day_text : ℤ → ℕ → Text
day_text year day_of_year = show_int year ++ (b'-' ∷ decimal day_of_year)

-- Whether the read text is the date's.
unfoldable pub already_fired : File → ℤ → ℕ → Bool
unfolding day_text
already_fired missing year day_of_year = false
already_fired unreadable year day_of_year = false
already_fired (holds contents) year day_of_year =
    text_eq (trim contents) (day_text year day_of_year)

-- `.ok()`: an error is forgotten, a killed process is not.
abbrev forget_error : Outcome (Unit {0}) × Fs × List Fault → Outcome (Unit {0}) × Fs × List Fault
forget_error (done u, fs, faults) = (done u, fs, faults)
forget_error (io_error, fs, faults) = (done tt, fs, faults)
forget_error (crashed, fs, faults) = (crashed, fs, faults)

abbrev best_effort : Io (Unit {0}) → Io (Unit {0})
best_effort op faults fs = forget_error (op faults fs)

unfoldable pub atomic_write : Text → Text → Io (Unit {0})
atomic_write path bytes = do
  create (tmp_name path)
  write_all (tmp_name path) bytes
  best_effort sync_all
  rename (tmp_name path) path

-- How a tick ends: the loop goes on, or returns (the channel's receiver is gone), or the process
-- was killed.
pub data TickEnd : Type 0 where
  goes_on returned killed : TickEnd

-- What a tick leaves: the signals sent, in order.
pub record Ticked (Zoned : Type 0) : Type 0 where
  pub sent : List (ColdRestartSignal Zoned)
  pub ended : TickEnd
  pub fs : Fs
  pub faults : List Fault

pub record TickInput (Zoned : Type 0) : Type 0 where
  pub now_pre : Zoned
  pub now_post : Zoned
  pub window : Fs → Fs  -- the directory's changes in the warning window
  pub fails_pre : Text → Bool  -- whose reads fail, by the names of the files
  pub fails_post : Text → Bool
  pub receiver_alive : Bool

-- The directory as `read_to_string` finds it, when the reads of some files fail.
abbrev pub as_read : (Text → Bool) → Fs → Fs
as_read fails fs name = if fails name then unreadable else fs name

module _ {Zoned Time : Type 0} (cal : Calendar Zoned Time) where
  unfoldable pub read_cold_restart_equivalent_marker : File → Option Zoned
  read_cold_restart_equivalent_marker missing = none
  read_cold_restart_equivalent_marker unreadable = none
  read_cold_restart_equivalent_marker (holds raw) = cal.from_str (trim raw)

  unfoldable pub read_marker_state : Fs → Text → Zoned → MarkerState Zoned
  unfolding already_fired read_cold_restart_equivalent_marker
  read_marker_state fs equiv_path now = record {
    fired_today = already_fired (fs marker_path) (cal.year now) (cal.day_of_year now);
    equivalent_marker = read_cold_restart_equivalent_marker (fs equiv_path);
  }

  unfoldable pub write_fired_marker : Zoned → Io (Unit {0})
  unfolding atomic_write day_text
  write_fired_marker now = atomic_write marker_path (day_text (cal.year now) (cal.day_of_year now))

  -- `tx.send`, with the return of the loop if the receiver is gone.
  abbrev send : ColdRestartSignal Zoned → Bool → Fs → List Fault → Ticked Zoned
  send s true fs faults = record { sent = s ∷ []; ended = goes_on; fs = fs; faults = faults }
  send s false fs faults = record { sent = []; ended = returned; fs = fs; faults = faults }

  abbrev quiet : TickEnd → Fs → List Fault → Ticked Zoned
  quiet end fs faults = record { sent = []; ended = end; fs = fs; faults = faults }

  -- After the marker's write for a skip: its error is discarded.
  abbrev pub send_skipped :
      ColdRestartSignal Zoned → Bool → Outcome (Unit {0}) × Fs × List Fault → Ticked Zoned
  send_skipped s alive (done _, fs, faults) = send s alive fs faults
  send_skipped s alive (io_error, fs, faults) = send s alive fs faults
  send_skipped s alive (crashed, fs, faults) = quiet killed fs faults

  -- After the marker's write for a fire: an error keeps the signal back.
  abbrev pub send_fire : Bool → Outcome (Unit {0}) × Fs × List Fault → Ticked Zoned
  send_fire alive (done _, fs, faults) = send fire alive fs faults
  send_fire alive (io_error, fs, faults) = quiet goes_on fs faults
  send_fire alive (crashed, fs, faults) = quiet killed fs faults

  -- The second decision, after the warning window.
  abbrev pub after_window : NextAction Zoned → Zoned → Bool → List Fault → Fs → Ticked Zoned
  after_window (skip reason) now_pre alive faults fs =
      send_skipped (skipped reason) alive (write_fired_marker now_pre faults fs)
  after_window sleep now_pre alive faults fs =
      send_fire alive (write_fired_marker now_pre faults fs)
  after_window fire_eligible now_pre alive faults fs =
      send_fire alive (write_fired_marker now_pre faults fs)

  abbrev pub first_decision :
      NextAction Zoned
      → SchedulerConfig Zoned
      → Text
      → TickInput Zoned
      → List Fault
      → Fs
      → Ticked Zoned
  first_decision sleep cfg equiv_path i faults fs = quiet goes_on fs faults
  first_decision (skip reason) cfg equiv_path i faults fs =
      send_skipped (skipped reason) i.receiver_alive (write_fired_marker i.now_pre faults fs)
  first_decision fire_eligible cfg equiv_path i faults fs =
      let fs' = i.window fs in
      after_window
        (compute_next_action cal i.now_post cfg
          (read_marker_state (as_read i.fails_post fs') equiv_path i.now_post))
        i.now_pre i.receiver_alive faults fs'

  -- One round of `scheduler_loop`.
  unfoldable pub tick :
      SchedulerConfig Zoned → Text → TickInput Zoned → List Fault → Fs → Ticked Zoned
  unfolding read_marker_state write_fired_marker compute_next_action
  tick cfg equiv_path i faults fs =
      first_decision
        (compute_next_action cal i.now_pre cfg
          (read_marker_state (as_read i.fails_pre fs) equiv_path i.now_pre))
        cfg equiv_path i faults fs

-- The configuration that `cold_restart_scheduler` runs the loop with, `none` if there is no loop.
unfoldable pub cold_restart_scheduler :
    {Zoned : Type 0} → Text → ℕ → Zoned → Option (SchedulerConfig Zoned)
unfolding parse_cold_restart_time
cold_restart_scheduler cold_restart_time cold_restart_day now =
    elim (parse_cold_restart_time cold_restart_time) [
      | none ↦ none
      | some (h, m) ↦ some (record {
        target_dow = min cold_restart_day 6;
        target_hour = h;
        target_minute = m;
        boot_at = now;
      })
    ]

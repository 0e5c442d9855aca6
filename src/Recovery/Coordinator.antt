-- ===== src/Recovery/Coordinator.antt =====
-- `RecoveryCoordinator` of ibctl/src/state_machine/recovery.rs: boot, compute, apply and
-- record_success. jiff, serde_json and the hasher are the parameter `Platform`. An `Instant` is the
-- nanoseconds since the earliest instant that the platform represents. Logging is left out.
pub mod Phases
pub mod Invariant
pub mod History
pub mod Restart
pub mod Resume
pub mod Ticks
pub mod GiveUp
use ibctl.Base.{
  ℕ, ◌+◌, ◌-◌, ◌*◌, ◌/◌, ◌≡◌, Bool, true, false, not, ◌&&◌, ◌||◌, Option, none, some, List, [], ◌∷◌,
  map, leb, ltb, if◌then◌else◌, is_some, min,
}
use ibctl.Base.Int.{ℤ, clamped_sub}
use ibctl.Base.Text.{Text, codes, text_eq}
use ibctl.Recovery.Decision.{
  Phase, aggressive, backoff_every_15min, given_up, phase_eq, RecoveryConfig, ResumeToken,
  NextAction, sleep, escalate_to_backoff, fire_giveup_alert, resume_to_aggressive,
  resume_automatically, defer_to_cold_restart, force_hitl_early, compute_next_action,
}
use ibctl.Recovery.Disk.{Fs, Fault, Io, Outcome, done, io_error, crashed}
use ibctl.Recovery.Persist.{
  RecoveryPersistedState, Json, RecoveryLoadOutcome, loaded, defaulted, refused_given_up_auto_reset,
  load, save,
}

-- What the coordinator calls of jiff (`Zoned::timestamp`, `Timestamp::as_second`), of serde_json,
-- and the hex digest that `DefaultHasher` gives of (mode, second, nonce).
pub record Platform (Zoned Timestamp : Type 0) : Type 0 where
  pub json : Json Zoned Timestamp
  pub timestamp : Zoned → Timestamp
  pub as_second : Timestamp → ℤ
  pub digest : Text → ℤ → Text → Text

pub record RecoveryCoordinator (Zoned Timestamp : Type 0) : Type 0 where
  pub mode : Text
  pub config : RecoveryConfig
  pub phase : Phase
  pub phase_entered_at_wall : Zoned
  pub phase_entered_at_mono : ℕ
  pub last_full_success_at : Option Zoned
  pub last_full_success_mono : Option ℕ
  pub giveup_alert_sent_at : Option Timestamp
  pub resumed_by_token_hash : Option Text
  pub blocked_awaiting_resume : Bool
  pub giveup_signal_tx : Bool  -- whether a sender is installed

pub data AppliedAction : Type 0 where
  no_change escalated_to_backoff fired_giveup_alert resumed_to_aggressive deferred : AppliedAction

pub data RecoveryApplyError : Type 0 where
  marker_write clock_skew token_replay : RecoveryApplyError
  invalid_for_phase : Phase → RecoveryApplyError

-- `died` stands for a process that was killed inside the call.
pub data ApplyResult (A : Type 0) : Type 0 where
  ok : A → ApplyResult A
  err : RecoveryApplyError → ApplyResult A
  died : ApplyResult A

-- `Signal::RecoveryGaveUp`
pub record GaveUp (Zoned : Type 0) : Type 0 where
  pub mode : Text
  pub phase_entered_at : Zoned

abbrev pub nanos_per_sec : ℕ
nanos_per_sec = 1_000_000_000

-- `Instant::checked_sub` of a number of seconds, or the instant itself
abbrev pub back_dated : ℕ → ℕ → ℕ
back_dated now secs = if leb (secs * nanos_per_sec) now then now - secs * nanos_per_sec else now

-- `checked_duration_since(..).map(as_secs).unwrap_or(0)`: `-` stops at 0
abbrev pub secs_since : ℕ → ℕ → ℕ
secs_since now anchor = (now - anchor) / nanos_per_sec

-- `to_ascii_lowercase`
abbrev pub ascii_lower : ℕ → ℕ
ascii_lower c = if leb b'A' c && leb c b'Z' then c + 32 else c

-- The value of IBCTL_RECOVERY_FORCE_RESET, `none` if it is not set.
unfoldable pub read_force_reset_env : Option Text → Bool
read_force_reset_env none = false
read_force_reset_env (some v) =
    let low = map ascii_lower v in
    text_eq low (codes "1")
    || text_eq low (codes "true")
    || text_eq low (codes "yes")
    || text_eq low (codes "on")

module _ {Zoned Timestamp : Type 0} where
  -- Every phase transition goes through this.
  unfoldable pub enter_phase :
      RecoveryCoordinator Zoned Timestamp → Phase → Zoned → ℕ → RecoveryCoordinator Zoned Timestamp
  enter_phase c next now_wall now_mono = record c {
    phase = next;
    phase_entered_at_wall = now_wall;
    phase_entered_at_mono = now_mono;
    last_full_success_at = none;
    last_full_success_mono = none;
  }

  -- The state that `persist` writes.
  unfoldable pub persisted_state :
      RecoveryCoordinator Zoned Timestamp → RecoveryPersistedState Zoned Timestamp
  persisted_state c = record {
    schema_version = 1;
    phase = c.phase;
    phase_entered_at = c.phase_entered_at_wall;
    phase_entered_at_monotonic_secs_since_boot = 0;
    last_full_success_at = c.last_full_success_at;
    giveup_alert_sent_at = c.giveup_alert_sent_at;
    resumed_by_token_hash = c.resumed_by_token_hash;
    last_known_phase = c.phase;
  }

-- A call's result and what it leaves: the coordinator, the signals that it sent.
pub record Applied (Zoned Timestamp A : Type 0) : Type 0 where
  pub coord : RecoveryCoordinator Zoned Timestamp
  pub result : ApplyResult A
  pub sent : List (GaveUp Zoned)

-- The `?` after `persist`.
abbrev pub settle : {A : Type 0} → Outcome (Unit {0}) → A → ApplyResult A
settle (done _) a = ok a
settle io_error a = err marker_write
settle crashed a = died

-- What is sent once `persist` has returned Ok.
abbrev pub if_done : {Z : Type 0} → Outcome (Unit {0}) → List (GaveUp Z) → List (GaveUp Z)
if_done (done _) sent = sent
if_done _ _ = []

module _ {Zoned Timestamp : Type 0} (sys : Platform Zoned Timestamp) where
  unfoldable pub hash_token : ResumeToken Timestamp → Text
  hash_token token = sys.digest token.mode (sys.as_second token.minted_at) token.nonce_material

  unfoldable pub phase_elapsed_secs : RecoveryCoordinator Zoned Timestamp → Zoned → ℕ → ℕ
  phase_elapsed_secs c now_wall now_mono =
      min
        (clamped_sub (sys.as_second (sys.timestamp now_wall))
          (sys.as_second (sys.timestamp c.phase_entered_at_wall)))
        (secs_since now_mono c.phase_entered_at_mono)

  unfoldable pub persist : RecoveryCoordinator Zoned Timestamp → Io (Unit {0})
  persist c = save sys.json c.mode (persisted_state c)

  -- The phase, the wall anchor and the fields that a load outcome gives.
  unfoldable pub booted :
      Text
      → RecoveryConfig
      → RecoveryLoadOutcome Zoned Timestamp
      → Zoned
      → ℕ
      → RecoveryCoordinator Zoned Timestamp
  booted mode config (loaded state) now_wall now_mono = record {
    mode = mode;
    config = config;
    phase = state.phase;
    phase_entered_at_wall = state.phase_entered_at;
    phase_entered_at_mono = back_dated now_mono (
        clamped_sub (sys.as_second (sys.timestamp now_wall))
          (sys.as_second (sys.timestamp state.phase_entered_at)));
    last_full_success_at = state.last_full_success_at;
    last_full_success_mono = none;
    giveup_alert_sent_at = state.giveup_alert_sent_at;
    resumed_by_token_hash = state.resumed_by_token_hash;
    blocked_awaiting_resume = false;
    giveup_signal_tx = false;
  }
  booted mode config (defaulted _) now_wall now_mono = record {
    mode = mode;
    config = config;
    phase = aggressive;
    phase_entered_at_wall = now_wall;
    phase_entered_at_mono = now_mono;
    last_full_success_at = none;
    last_full_success_mono = none;
    giveup_alert_sent_at = none;
    resumed_by_token_hash = none;
    blocked_awaiting_resume = false;
    giveup_signal_tx = false;
  }
  booted mode config (refused_given_up_auto_reset _) now_wall now_mono = record {
    mode = mode;
    config = config;
    phase = given_up;
    phase_entered_at_wall = now_wall;
    phase_entered_at_mono = now_mono;
    last_full_success_at = none;
    last_full_success_mono = none;
    giveup_alert_sent_at = none;
    resumed_by_token_hash = none;
    blocked_awaiting_resume = true;
    giveup_signal_tx = false;
  }

  unfoldable pub boot :
      Fs
      → Text
      → RecoveryConfig
      → Option Text
      → Zoned
      → ℕ
      → RecoveryCoordinator Zoned Timestamp × RecoveryLoadOutcome Zoned Timestamp
  unfolding booted
  boot fs mode config env now_wall now_mono =
      let outcome = load sys.json fs mode (read_force_reset_env env) in
      (booted mode config outcome now_wall now_mono, outcome)

  unfoldable pub compute :
      RecoveryCoordinator Zoned Timestamp
      → Zoned
      → ℕ
      → Bool
      → Option (ResumeToken Timestamp)
      → ℕ
      → Option NextAction
  compute c now_wall now_mono cold_restart_pending resume_token failure_fingerprint_streak =
      compute_next_action
        (record {
          phase = c.phase;
          phase_elapsed_secs = phase_elapsed_secs c now_wall now_mono;
          had_success_this_phase = is_some c.last_full_success_at;
          resume_token = resume_token;
          cold_restart_pending = cold_restart_pending;
          failure_fingerprint_streak = failure_fingerprint_streak;
        })
        c.config

  -- `self.persist()?; Ok(a)`, with the signals that are sent after the persist.
  unfoldable pub persist_then :
      {A : Type 0}
      → RecoveryCoordinator Zoned Timestamp
      → A
      → List (GaveUp Zoned)
      → List Fault
      → Fs
      → Applied Zoned Timestamp A × Fs × List Fault
  persist_then c a sent faults fs =
      let (result, fs', faults') = persist c faults fs in
      (record { coord = c; result = settle result a; sent = if_done result sent }, fs', faults')

  abbrev pub unchanged :
      {A : Type 0}
      → RecoveryCoordinator Zoned Timestamp
      → ApplyResult A
      → List Fault
      → Fs
      → Applied Zoned Timestamp A × Fs × List Fault
  unchanged c result faults fs = (record { coord = c; result = result; sent = [] }, fs, faults)

  -- FireGiveUpAlert and ForceHitlEarly. The alert is not stamped again in one give-up.
  unfoldable pub give_up :
      RecoveryCoordinator Zoned Timestamp
      → Zoned
      → ℕ
      → List Fault
      → Fs
      → Applied Zoned Timestamp AppliedAction × Fs × List Fault
  unfolding enter_phase persist_then
  give_up c now_wall now_mono =
      if phase_eq c.phase given_up && is_some c.giveup_alert_sent_at
      then unchanged c (ok no_change)
      else let entered = enter_phase c given_up now_wall now_mono in
        persist_then (record entered { giveup_alert_sent_at = some (sys.timestamp now_wall) })
          fired_giveup_alert
          (if c.giveup_signal_tx
            then record { mode = c.mode; phase_entered_at = now_wall } ∷ []
            else [])

  abbrev pub same_hash : Text → Option Text → Bool
  same_hash hash none = false
  same_hash hash (some existing) = text_eq existing hash

  unfoldable pub resume_with :
      RecoveryCoordinator Zoned Timestamp
      → Zoned
      → ℕ
      → ResumeToken Timestamp
      → List Fault
      → Fs
      → Applied Zoned Timestamp AppliedAction × Fs × List Fault
  unfolding enter_phase persist_then
  resume_with c now_wall now_mono token =
      if same_hash (hash_token token) c.resumed_by_token_hash
      then unchanged c (err token_replay)
      else let entered = enter_phase c aggressive now_wall now_mono in
        persist_then
          (record entered {
            giveup_alert_sent_at = none;
            resumed_by_token_hash = some (hash_token token);
            blocked_awaiting_resume = false;
          })
          resumed_to_aggressive []

  unfoldable pub apply :
      RecoveryCoordinator Zoned Timestamp
      → NextAction
      → Zoned
      → ℕ
      → Option (ResumeToken Timestamp)
      → List Fault
      → Fs
      → Applied Zoned Timestamp AppliedAction × Fs × List Fault
  unfolding give_up resume_with enter_phase persist_then
  apply c (sleep _) now_wall now_mono token = unchanged c (ok no_change)
  apply c defer_to_cold_restart now_wall now_mono token = unchanged c (ok deferred)
  apply c resume_automatically now_wall now_mono token =
      let entered = enter_phase c aggressive now_wall now_mono in
      persist_then
        (record entered {
          giveup_alert_sent_at = none;
          resumed_by_token_hash = none;
          blocked_awaiting_resume = false;
        })
        resumed_to_aggressive []
  apply c escalate_to_backoff now_wall now_mono token =
      persist_then (enter_phase c backoff_every_15min now_wall now_mono) escalated_to_backoff []
  apply c fire_giveup_alert now_wall now_mono token = give_up c now_wall now_mono
  apply c force_hitl_early now_wall now_mono token = give_up c now_wall now_mono
  apply c resume_to_aggressive now_wall now_mono none =
      unchanged c (err (invalid_for_phase c.phase))
  apply c resume_to_aggressive now_wall now_mono (some token) =
      resume_with c now_wall now_mono token

  -- A dwell success by phase.
  unfoldable pub success_in :
      Phase
      → RecoveryCoordinator Zoned Timestamp
      → Zoned
      → ℕ
      → List Fault
      → Fs
      → Applied Zoned Timestamp (Unit {0}) × Fs × List Fault
  unfolding enter_phase persist_then
  success_in given_up c now_wall now_mono = unchanged c (err (invalid_for_phase given_up))
  success_in aggressive c now_wall now_mono =
      persist_then
        (record c { last_full_success_at = some now_wall; last_full_success_mono = some now_mono })
        tt []
  success_in backoff_every_15min c now_wall now_mono =
      let entered = enter_phase c aggressive now_wall now_mono in
      persist_then
        (record entered {
          last_full_success_at = some now_wall;
          last_full_success_mono = some now_mono;
        })
        tt []

  unfoldable pub record_success :
      RecoveryCoordinator Zoned Timestamp
      → Zoned
      → ℕ
      → List Fault
      → Fs
      → Applied Zoned Timestamp (Unit {0}) × Fs × List Fault
  unfolding success_in
  record_success c = success_in c.phase c

  -- One compute-and-apply cycle with the same instants and token, as `tick_recovery` drives it;
  -- `none` if compute panics.
  unfoldable pub tick :
      RecoveryCoordinator Zoned Timestamp
      → Zoned
      → ℕ
      → Bool
      → Option (ResumeToken Timestamp)
      → ℕ
      → List Fault
      → Fs
      → Option (Applied Zoned Timestamp AppliedAction × Fs × List Fault)
  tick c now_wall now_mono cold_pending token streak faults fs =
      elim (compute c now_wall now_mono cold_pending token streak) [
        | none ↦ none
        | some action ↦ some (apply c action now_wall now_mono token faults fs)
      ]

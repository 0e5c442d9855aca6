-- ===== src/Recovery/Persist.antt =====
-- The persistence layer of ibctl/src/state_machine/recovery.rs: `load`, `classify_corrupt`, `save`
-- and `clear_sidecar` over the files of the settings directory. serde_json is a parameter. The text
-- of a reason is left out but for which of the messages it is.
pub mod Laws
pub mod Crash
pub mod Modes
use ibctl.Base.{ℕ, ◌++◌, ◌≡◌, Bool, true, false, not, ◌&&◌, Option, none, some, ◌==◌, if◌then◌else◌}
use ibctl.Base.Text.{Text, codes, text_eq, trim}
use ibctl.Recovery.Decision.{Phase, given_up, phase_eq, as_str}
use ibctl.Recovery.Disk.{
  Fs, File, missing, unreadable, holds, Io, Outcome, io_error, Fault, ◌>>◌, remove_if_there,
  atomic_write,
}

pub record RecoveryPersistedState (Zoned Timestamp : Type 0) : Type 0 where
  pub schema_version : ℕ
  pub phase : Phase
  pub phase_entered_at : Zoned
  pub phase_entered_at_monotonic_secs_since_boot : ℕ
  pub last_full_success_at : Option Zoned
  pub giveup_alert_sent_at : Option Timestamp
  pub resumed_by_token_hash : Option Text
  pub last_known_phase : Phase

-- serde_json: `to_vec_pretty` and `from_str` at the persisted state, and the string field
-- `last_known_phase` of a text read as a `serde_json::Value`.
pub record Json (Zoned Timestamp : Type 0) : Type 0 where
  pub encode : RecoveryPersistedState Zoned Timestamp → Option Text
  pub decode : Text → Option (RecoveryPersistedState Zoned Timestamp)
  pub peek : Text → Option Text

-- What the program relies on: what was written is read back.
pub record IsFaithful {Zoned Timestamp : Type 0} (json : Json Zoned Timestamp) : Type 0 where
  pub decode-encode :
      (s : RecoveryPersistedState Zoned Timestamp) (t : Text)
      → json.encode s ≡ some t
      → json.decode t ≡ some s

pub data Reason : Type 0 where
  marker_missing read_error parse_error schema_mismatch : Reason
  force_reset_override : Reason → Reason
  sidecar_says_given_up : Reason → Reason
  peek_says_given_up : Reason → Reason
  stale_sidecar given_up_demoted : Reason

pub data RecoveryLoadOutcome (Zoned Timestamp : Type 0) : Type 0 where
  loaded : RecoveryPersistedState Zoned Timestamp → RecoveryLoadOutcome Zoned Timestamp
  defaulted : Reason → RecoveryLoadOutcome Zoned Timestamp
  refused_given_up_auto_reset : Reason → RecoveryLoadOutcome Zoned Timestamp

abbrev pub should_block_boot : {Z T : Type 0} → RecoveryLoadOutcome Z T → Bool
should_block_boot (refused_given_up_auto_reset _) = true
should_block_boot _ = false

-- The file names of a mode; the directory is the settings directory.
unfoldable pub marker_path : Text → Text
marker_path mode = codes ".ibctl-recovery-state." ++ (mode ++ codes ".json")

unfoldable pub sidecar_path : Text → Text
sidecar_path mode = codes ".ibctl-recovery-state." ++ (mode ++ codes ".last-known-phase.txt")

-- `content.trim() == RecoveryPhase::GivenUp.as_str()`, false if the file cannot be read
abbrev pub file_says_given_up : File → Bool
file_says_given_up missing = false
file_says_given_up unreadable = false
file_says_given_up (holds content) = text_eq (trim content) (as_str given_up)

-- The sidecar first, whichever way.
unfoldable pub mark_sidecar : Text → Phase → Io (Unit {0})
mark_sidecar mode phase =
    if phase_eq phase given_up
    then atomic_write (sidecar_path mode) (as_str given_up)
    else remove_if_there (sidecar_path mode)

module _ {Zoned Timestamp : Type 0} (json : Json Zoned Timestamp) where
  -- Whether the main marker, read as loose JSON, has `last_known_phase` given_up.
  abbrev pub peek_given_up : File → Bool
  peek_given_up missing = false
  peek_given_up unreadable = false
  peek_given_up (holds raw) = elim (json.peek raw) [
    | none ↦ false
    | some s ↦ text_eq s (as_str given_up)
  ]

  unfoldable pub classify_corrupt : Fs → Text → Bool → Reason → RecoveryLoadOutcome Zoned Timestamp
  classify_corrupt fs mode force_reset reason =
      if force_reset
      then defaulted (force_reset_override reason)
      else if file_says_given_up (fs (sidecar_path mode))
      then refused_given_up_auto_reset (sidecar_says_given_up reason)
      else if peek_given_up (fs (marker_path mode))
      then refused_given_up_auto_reset (peek_says_given_up reason)
      else defaulted reason

  -- The checks after a clean parse.
  unfoldable pub load_parsed :
      Fs
      → Text
      → Bool
      → RecoveryPersistedState Zoned Timestamp
      → RecoveryLoadOutcome Zoned Timestamp
  unfolding classify_corrupt
  load_parsed fs mode force_reset state =
      if not (state.schema_version == 1)
      then classify_corrupt fs mode force_reset schema_mismatch
      else if (not force_reset && not (phase_eq state.phase given_up))
          && file_says_given_up (fs (sidecar_path mode))
      then refused_given_up_auto_reset stale_sidecar
      else if force_reset && phase_eq state.phase given_up
      then defaulted given_up_demoted
      else loaded state

  unfoldable pub load_text : Fs → Text → Bool → Text → RecoveryLoadOutcome Zoned Timestamp
  unfolding load_parsed classify_corrupt
  load_text fs mode force_reset raw = elim (json.decode raw) [
    | none ↦ classify_corrupt fs mode force_reset parse_error
    | some state ↦ load_parsed fs mode force_reset state
  ]

  unfoldable pub load : Fs → Text → Bool → RecoveryLoadOutcome Zoned Timestamp
  unfolding load_text classify_corrupt
  load fs mode force_reset = elim (fs (marker_path mode)) [
    | missing ↦ classify_corrupt fs mode force_reset marker_missing
    | unreadable ↦ classify_corrupt fs mode force_reset read_error
    | holds raw ↦ load_text fs mode force_reset raw
  ]

  -- `InvalidData` if the state cannot be encoded.
  unfoldable pub write_marker : Text → RecoveryPersistedState Zoned Timestamp → Io (Unit {0})
  write_marker mode state faults fs = elim (json.encode state) [
    | none ↦ (io_error, fs, faults)
    | some bytes ↦ atomic_write (marker_path mode) bytes faults fs
  ]

  unfoldable pub save : Text → RecoveryPersistedState Zoned Timestamp → Io (Unit {0})
  save mode state = mark_sidecar mode state.phase >> write_marker mode state

unfoldable pub clear_sidecar : Text → Io (Unit {0})
clear_sidecar mode = remove_if_there (sidecar_path mode)

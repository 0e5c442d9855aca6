-- ===== src/Recovery/Persist/Laws.antt =====
-- When a load refuses, and what force_reset lifts.
use ibctl.Base.{◌≡◌, Bool, true, false, not, ◌&&◌, ◌||◌, arith, Option, none, some, ◌==◌}
use ibctl.Base.Text.{Text}
use ibctl.Recovery.Decision.{given_up, phase_eq}
use ibctl.Recovery.Disk.{File, Fs, missing, unreadable, holds}
use ibctl.Recovery.Persist.{
  RecoveryPersistedState, Json, loaded, should_block_boot, file_says_given_up, peek_given_up,
  marker_path, sidecar_path, load,
}

module _ {Zoned Timestamp : Type 0} (json : Json Zoned Timestamp) where
  -- The phase test of a state with the schema that this version reads.
  abbrev pub current_and :
      (RecoveryPersistedState Zoned Timestamp → Bool)
      → Option (RecoveryPersistedState Zoned Timestamp)
      → Bool
  current_and test none = false
  current_and test (some s) = s.schema_version == 1 && test s

  -- The main marker is of the current schema and passes the test.
  abbrev pub marker_is : (RecoveryPersistedState Zoned Timestamp → Bool) → File → Bool
  marker_is test missing = false
  marker_is test unreadable = false
  marker_is test (holds raw) = current_and test (json.decode raw)

  -- A load without the override refuses exactly when the main marker is no current given_up marker
  -- and either the sidecar says given_up, or the marker is not current and its loose
  -- `last_known_phase` says given_up. With the override a load never refuses.
  pub load-should_block_boot :
      (fs : Fs) (mode : Text) (force_reset : Bool)
      → let main = fs (marker_path mode) in
        should_block_boot (load json fs mode force_reset) ≡ (
          not force_reset
          && (not (marker_is (λ s. phase_eq s.phase given_up) main)
              && (file_says_given_up (fs (sidecar_path mode))
                  || (not (marker_is (λ _. true) main) && peek_given_up json main))))
  unfolding load
  load-should_block_boot fs mode force_reset = ground arith

  -- With the override no load resumes given_up.
  pub load-forced_not_given_up :
      (fs : Fs) (mode : Text) (s : RecoveryPersistedState Zoned Timestamp)
      → load json fs mode true ≡ loaded s
      → phase_eq s.phase given_up ≡ false
  unfolding load
  load-forced_not_given_up fs mode s h = ground arith

-- ===== src/Recovery/Coordinator/Invariant.antt =====
-- What holds of a coordinator between two calls, through I/O errors, deaths and restarts.
use ibctl.Base.{ℕ, ◌≡◌, Bool, true, Option, some, arith, List, is_some}
use ibctl.Base.Text.{Text}
use ibctl.Recovery.Decision.{aggressive, given_up, ResumeToken, compute_next_action}
use ibctl.Recovery.Disk.{Fs, Fault, holds}
use ibctl.Recovery.Persist.{RecoveryPersistedState, marker_path}
use ibctl.Recovery.Coordinator.{
  Platform, RecoveryCoordinator, AppliedAction, Applied, compute, apply, tick, record_success,
}

-- The alert stamp and the resume gate belong to given_up, the success stamps to aggressive.
pub record Inv {Zoned Timestamp : Type 0} (c : RecoveryCoordinator Zoned Timestamp) : Type 0 where
  pub alert_scoped : is_some c.giveup_alert_sent_at ≡ true → c.phase ≡ given_up
  pub block_scoped : c.blocked_awaiting_resume ≡ true → c.phase ≡ given_up
  pub success_scoped : is_some c.last_full_success_at ≡ true → c.phase ≡ aggressive
  pub mono_scoped : is_some c.last_full_success_mono ≡ true → is_some c.last_full_success_at ≡ true

-- The same of a state on disk.
pub record IsScoped {Zoned Timestamp : Type 0} (s : RecoveryPersistedState Zoned Timestamp)
    : Type 0 where
  pub alert_scoped : is_some s.giveup_alert_sent_at ≡ true → s.phase ≡ given_up
  pub success_scoped : is_some s.last_full_success_at ≡ true → s.phase ≡ aggressive

module _ {Zoned Timestamp : Type 0} (sys : Platform Zoned Timestamp) where
  -- Every state that the main marker of the mode reads as is scoped.
  abbrev pub DiskInv : Text → Fs → Type 0
  DiskInv mode fs =
      (t : Text) (s : RecoveryPersistedState Zoned Timestamp)
      → fs (marker_path mode) ≡ holds t
      → sys.json.decode t ≡ some s
      → IsScoped s

  pub tick-Inv :
      (c : RecoveryCoordinator Zoned Timestamp) (now_wall : Zoned) (now_mono : ℕ) (cold : Bool)
      (token : Option (ResumeToken Timestamp)) (streak : ℕ) (faults : List Fault) (fs fs' : Fs)
      (rest : List Fault) (after : Applied Zoned Timestamp AppliedAction)
      → Inv c
      → tick sys c now_wall now_mono cold token streak faults fs ≡ some (after, fs', rest)
      → Inv after.coord
  unfolding tick compute compute_next_action apply
  tick-Inv c now_wall now_mono cold token streak faults fs fs' rest after v h = ground arith

  pub record_success-Inv :
      (c : RecoveryCoordinator Zoned Timestamp) (now_wall : Zoned) (now_mono : ℕ)
      (faults : List Fault) (fs : Fs)
      → Inv c
      → Inv (record_success sys c now_wall now_mono faults fs).0.coord
  unfolding record_success
  record_success-Inv c now_wall now_mono faults fs v = ground arith

-- ===== src/Recovery/Coordinator/Restart.antt =====
-- A restart picks up where the process left off: the persisted fields and the age of the phase.
use ibctl.Base.{ℕ, ◌+◌, ◌*◌, ◌/◌, ◌≤◌, ◌≡◌, refl, ◌≢◌, false, Option, none, arith, List, min}
use ibctl.Base.Int.{clamped_sub}
use ibctl.Base.Text.{Text}
use ibctl.Recovery.Decision.{RecoveryConfig, ResumeToken, NextAction}
use ibctl.Recovery.Disk.{Fs, Fault, done}
use ibctl.Recovery.Persist.{IsFaithful, RecoveryPersistedState, load, loaded}
use ibctl.Recovery.Persist.Crash.{save-loaded}
use ibctl.Recovery.Coordinator.{
  Platform, RecoveryCoordinator, AppliedAction, no_change, deferred, apply, persisted_state, boot,
  persist, ok, phase_elapsed_secs, nanos_per_sec, secs_since, read_force_reset_env, back_dated,
}

module _ {Zoned Timestamp : Type 0} (sys : Platform Zoned Timestamp) where
  -- The seconds that a wall-clock instant is past another, 0 if it is not.
  abbrev pub wall_secs : Zoned → Zoned → ℕ
  wall_secs later earlier =
      clamped_sub (sys.as_second (sys.timestamp later)) (sys.as_second (sys.timestamp earlier))

  persist-loaded :
      (c : RecoveryCoordinator Zoned Timestamp) (faults : List Fault) (fs : Fs)
      → IsFaithful sys.json
      → (persist sys c faults fs).0 ≡ done tt
      → load sys.json (persist sys c faults fs).1 c.mode false ≡ loaded (persisted_state c)
  unfolding persist persisted_state
  persist-loaded c faults fs faithful h =
      save-loaded sys.json c.mode (persisted_state c) faults fs faithful refl h

  apply-persisted :
      (c : RecoveryCoordinator Zoned Timestamp) (action : NextAction) (wall : Zoned) (mono : ℕ)
      (token : Option (ResumeToken Timestamp)) (faults : List Fault) (fs : Fs) (a : AppliedAction)
      → a ≢ no_change
      → a ≢ deferred
      → let (after, fs', _) = apply sys c action wall mono token faults fs in
        after.result ≡ ok a
        → ((persist sys after.coord faults fs).0 ≡ done tt)
          × (fs' ≡ (persist sys after.coord faults fs).1)
          × (after.coord.mode ≡ c.mode)
  unfolding apply
  apply-persisted c action wall mono token faults fs a n d h = ground arith

  age_after_boot :
      (w now uptime : ℕ)
      → w * nanos_per_sec ≤ now
      → secs_since (now + uptime) (back_dated now w) ≡ w + uptime / nanos_per_sec
  age_after_boot w now uptime h = ground arith

  -- If an action that changes the phase was applied with Ok, a restart without the override loads
  -- exactly what the coordinator had persisted, and boots with its phase, wall anchor, success
  -- stamp, alert stamp and consumed token, not blocked.
  pub boot-apply :
      (c : RecoveryCoordinator Zoned Timestamp) (action : NextAction) (wall : Zoned) (mono : ℕ)
      (token : Option (ResumeToken Timestamp)) (faults : List Fault) (fs : Fs) (a : AppliedAction)
      (later_wall : Zoned) (later_mono : ℕ)
      → IsFaithful sys.json
      → a ≢ no_change
      → a ≢ deferred
      → let (after, fs', _) = apply sys c action wall mono token faults fs in
        after.result ≡ ok a
        → let (again, outcome) = boot sys fs' c.mode c.config none later_wall later_mono in
          (outcome ≡ loaded (persisted_state after.coord))
          × (again.phase ≡ after.coord.phase)
          × (again.phase_entered_at_wall ≡ after.coord.phase_entered_at_wall)
          × (again.last_full_success_at ≡ after.coord.last_full_success_at)
          × (again.giveup_alert_sent_at ≡ after.coord.giveup_alert_sent_at)
          × (again.resumed_by_token_hash ≡ after.coord.resumed_by_token_hash)
          × (again.blocked_awaiting_resume ≡ false)
  unfolding boot read_force_reset_env persisted_state
  boot-apply c action wall mono token faults fs a later_wall later_mono faithful n d h =
      let after = apply sys c action wall mono token faults fs in
      let (wrote, disk, mode) = apply-persisted c action wall mono token faults fs a n d h in
      let back = persist-loaded after.0.coord faults fs faithful wrote in
      let again : load sys.json after.1 c.mode false ≡ loaded (persisted_state after.0.coord) =
        cc (back, disk, mode) in
      ground (arith, again)

  -- After a restart on a loaded marker, as long as the platform can represent the back-dated anchor,
  -- the age of the phase at any later tick is the lesser of the wall clock's age of the phase and of
  -- the wall clock's age at boot plus the uptime since (to the second).
  pub boot-phase_elapsed_secs :
      (fs : Fs) (mode : Text) (config : RecoveryConfig) (boot_wall : Zoned) (boot_mono : ℕ)
      (s : RecoveryPersistedState Zoned Timestamp) (wall : Zoned) (uptime : ℕ)
      → load sys.json fs mode false ≡ loaded s
      → wall_secs boot_wall s.phase_entered_at * nanos_per_sec ≤ boot_mono
      → phase_elapsed_secs sys
          (boot sys fs mode config none boot_wall boot_mono).0
          wall
          (boot_mono + uptime)
        ≡ min
            (wall_secs wall s.phase_entered_at)
            (wall_secs boot_wall s.phase_entered_at + uptime / nanos_per_sec)
  unfolding boot phase_elapsed_secs read_force_reset_env
  boot-phase_elapsed_secs fs mode config boot_wall boot_mono s wall uptime h fits =
      ground
        (arith, h, age_after_boot (wall_secs boot_wall s.phase_entered_at) boot_mono uptime fits)

-- ===== src/Recovery/Coordinator/Phases.antt =====
-- The phase diagram: which phases a tick can move between, and on what trigger.
use ibctl.Base.{ℕ, ◌≤◌, ◌≡◌, ◌⊎◌, Bool, true, false, Option, some, arith, List, is_some}
use ibctl.Recovery.Decision.{
  Phase, aggressive, backoff_every_15min, given_up, ResumeToken, compute_next_action,
}
use ibctl.Recovery.Disk.{Fs, Fault}
use ibctl.Recovery.Coordinator.{
  Platform, RecoveryCoordinator, AppliedAction, Applied, phase_elapsed_secs, compute, apply, tick,
}

module _ {Zoned Timestamp : Type 0} (sys : Platform Zoned Timestamp)
    (c : RecoveryCoordinator Zoned Timestamp) (now_wall : Zoned) (now_mono : ℕ) (cold : Bool)
    (token : Option (ResumeToken Timestamp)) (streak : ℕ) where
  -- The edges of the phase diagram with what triggers each.
  abbrev pub Edge : Phase → Phase → Type 0
  Edge p q =
      (p ≡ q)
      ⊎ ((p ≡ aggressive)
          × (c.config.disabled ≡ false)
          × (cold ≡ false)
          × (q ≡ backoff_every_15min)
          × ((c.config.aggressive_phase_max_secs ≤ phase_elapsed_secs sys c now_wall now_mono)
              ⊎ ((c.config.fingerprint_streak_forcing_hitl ≤ streak)
                  × (c.config.autonomous ≡ true))))
      ⊎ ((q ≡ given_up)
          × (c.config.disabled ≡ false)
          × (cold ≡ false)
          × (c.config.autonomous ≡ false)
          × (((p ≡ backoff_every_15min)
                × (c.config.backoff_phase_max_secs ≤ phase_elapsed_secs sys c now_wall now_mono))
              ⊎ (c.config.fingerprint_streak_forcing_hitl ≤ streak)))
      ⊎ ((p ≡ given_up)
          × (c.config.disabled ≡ false)
          × (q ≡ aggressive)
          × ((c.config.autonomous ≡ true) ⊎ (is_some token ≡ true)))

  -- Whatever the disk does, a tick that does not panic leaves the phase as it was or moves it along
  -- one edge of the diagram, on that edge's trigger.
  pub tick-Edge :
      (faults : List Fault) (fs : Fs) (r : Applied Zoned Timestamp AppliedAction × Fs × List Fault)
      → tick sys c now_wall now_mono cold token streak faults fs ≡ some r
      → Edge c.phase r.0.coord.phase
  unfolding tick compute compute_next_action apply
  tick-Edge faults fs r h = ground arith

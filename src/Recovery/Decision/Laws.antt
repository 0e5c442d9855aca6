-- ===== src/Recovery/Decision/Laws.antt =====
-- What `compute_next_action` decides, gate by gate.
use ibctl.Base.{ℕ, ◌+◌, ◌-◌, ◌*◌, ◌/◌, ◌%◌, ◌≤◌, ◌<◌, ◌≡◌, ◌≢◌, ◌↔◌, false, some, arith}
use ibctl.Recovery.Decision.{
  RecoveryConfig, RecoverySnapshot, sleep, fire_giveup_alert, backoff_every_15min,
  compute_next_action,
}

next_boundary : (e i : ℕ) → i ≢ 0 → e + (i - e % i) ≡ (e / i + 1) * i
next_boundary e i h = grind arith

module _ {Timestamp : Type 0} (snap : RecoverySnapshot Timestamp) (cfg : RecoveryConfig) where
  -- The time-based give-up alert is the decision exactly when the coordinator is enabled, not
  -- autonomous, in the backoff phase for at least its maximum, with no cold restart pending and a
  -- failure streak below the tripwire.
  fire_giveup_iff : (compute_next_action snap cfg ≡ some fire_giveup_alert) ↔ (
      (cfg.disabled ≡ false)
      × (cfg.autonomous ≡ false)
      × (snap.phase ≡ backoff_every_15min)
      × (snap.cold_restart_pending ≡ false)
      × (snap.failure_fingerprint_streak < cfg.fingerprint_streak_forcing_hitl)
      × (cfg.backoff_phase_max_secs ≤ snap.phase_elapsed_secs))
  unfolding compute_next_action
  fire_giveup_iff = ((λ h. ground arith), (λ h. ground arith))

  -- A decision made in the backoff phase that sleeps below the tripwire ends the sleep on the next
  -- multiple of the interval after phase entry, at most one interval away.
  pub backoff_sleep_aligned :
      (n : ℕ)
      → snap.phase ≡ backoff_every_15min
      → cfg.disabled ≡ false
      → snap.failure_fingerprint_streak < cfg.fingerprint_streak_forcing_hitl
      → compute_next_action snap cfg ≡ some (sleep n)
      → (snap.phase_elapsed_secs + n
          ≡ (snap.phase_elapsed_secs / cfg.backoff_interval_secs + 1) * cfg.backoff_interval_secs)
        × (0 < n)
        × (n ≤ cfg.backoff_interval_secs)
  unfolding compute_next_action
  backoff_sleep_aligned n p d f e =
      let i : ℕ = cfg.backoff_interval_secs in
      let pos : i ≢ 0 = ground arith in
      let len : n ≡ i - snap.phase_elapsed_secs % i = ground arith in
      (rw len (next_boundary snap.phase_elapsed_secs i pos), ground arith, ground arith)

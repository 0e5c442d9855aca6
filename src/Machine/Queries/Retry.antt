-- ===== src/Machine/Queries/Retry.antt =====
-- ibctl/src/state_machine/queries.rs against recovery.rs: when the status says that the next retry is.
use ibctl.Base.{ℕ, ◌+◌, ◌*◌, ◌/◌, ◌^◌, ◌<◌, ◌≡◌, false, some, arith}
use ibctl.Recovery.Decision.{
  RecoverySnapshot, RecoveryConfig, backoff_every_15min, compute_next_action, sleep,
}
use ibctl.Recovery.Decision.Laws.{backoff_sleep_aligned}
use ibctl.Machine.Queries.Recovery.{Dates, next_retry_at}

-- While a recovery in backoff sleeps below the tripwire, the status gives the end of that sleep as the
-- next retry, if both go by the same age of the phase and the sum fits an i64.
pub next_retry_at-sleep :
    {Zoned Timestamp : Type 0} (dates : Dates Zoned Timestamp) (entered : Zoned)
    (snap : RecoverySnapshot Timestamp) (cfg : RecoveryConfig) (n : ℕ)
    → snap.phase ≡ backoff_every_15min
    → cfg.disabled ≡ false
    → snap.failure_fingerprint_streak < cfg.fingerprint_streak_forcing_hitl
    → compute_next_action snap cfg ≡ some (sleep n)
    → snap.phase_elapsed_secs + n < 2 ^ 63
    → next_retry_at dates snap.phase cfg.backoff_interval_secs snap.phase_elapsed_secs entered
      ≡ dates.checked_add entered (snap.phase_elapsed_secs + n)
unfolding next_retry_at
next_retry_at-sleep dates entered snap cfg n p d f e small =
    let (ends, later, soon) = backoff_sleep_aligned snap cfg n p d f e in
    let boundary : cfg.backoff_interval_secs
          * (snap.phase_elapsed_secs / cfg.backoff_interval_secs + 1)
        ≡ snap.phase_elapsed_secs + n =
      grind arith in
    rw (p, boundary) (ground arith)

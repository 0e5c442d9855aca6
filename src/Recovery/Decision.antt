-- ===== src/Recovery/Decision.antt =====
-- The pure decision layer of ibctl/src/state_machine/recovery.rs: phases, thresholds, the per-tick
-- snapshot and `compute_next_action`. Durations are whole seconds, as in the source.
pub mod Laws
use ibctl.Base.{
  ℕ, ◌-◌, ◌%◌, Bool, true, false, not, ◌&&◌, Option, none, some, leb, ◌==◌, if◌then◌else◌, is_some,
}
use ibctl.Base.Text.{Text, codes}

pub data Phase : Type 0 where
  aggressive backoff_every_15min given_up : Phase

-- `==` of the derived `PartialEq`
abbrev pub phase_eq : Phase → Phase → Bool
phase_eq aggressive aggressive = true
phase_eq backoff_every_15min backoff_every_15min = true
phase_eq given_up given_up = true
phase_eq _ _ = false

unfoldable pub as_str : Phase → Text
as_str aggressive = codes "aggressive"
as_str backoff_every_15min = codes "backoff_every_15min"
as_str given_up = codes "given_up"

pub record RecoveryConfig : Type 0 where
  pub autonomous : Bool
  pub aggressive_phase_max_secs : ℕ
  pub backoff_phase_max_secs : ℕ
  pub backoff_interval_secs : ℕ
  pub min_success_dwell_secs : ℕ
  pub fingerprint_streak_forcing_hitl : ℕ
  pub giveup_callback_valid_hours : ℕ
  pub giveup_alert_resend_interval_hours : ℕ
  pub disabled : Bool

-- `RecoveryConfig::default`
abbrev pub default_config : RecoveryConfig
default_config = record {
  autonomous = false;
  aggressive_phase_max_secs = 3600;
  backoff_phase_max_secs = 10800;
  backoff_interval_secs = 900;
  min_success_dwell_secs = 60;
  fingerprint_streak_forcing_hitl = 8;
  giveup_callback_valid_hours = 12;
  giveup_alert_resend_interval_hours = 6;
  disabled = false;
}

-- `Timestamp` stands for `jiff::Timestamp`.
pub record ResumeToken (Timestamp : Type 0) : Type 0 where
  pub mode : Text
  pub minted_at : Timestamp
  pub nonce_material : Text

pub record RecoverySnapshot (Timestamp : Type 0) : Type 0 where
  pub phase : Phase
  pub phase_elapsed_secs : ℕ
  pub had_success_this_phase : Bool
  pub resume_token : Option (ResumeToken Timestamp)
  pub cold_restart_pending : Bool
  pub failure_fingerprint_streak : ℕ

pub data NextAction : Type 0 where
  sleep : ℕ → NextAction
  escalate_to_backoff fire_giveup_alert resume_to_aggressive resume_automatically : NextAction
  defer_to_cold_restart force_hitl_early : NextAction

-- The sleep to the next boundary; `u64 % 0` panics, which is `none`.
unfoldable pub backoff_sleep : RecoveryConfig → ℕ → Option NextAction
backoff_sleep cfg elapsed =
    if cfg.backoff_interval_secs == 0
    then none
    else some (sleep (cfg.backoff_interval_secs - elapsed % cfg.backoff_interval_secs))

-- The `match snap.phase` at the end.
unfoldable pub by_phase :
    {Timestamp : Type 0} → Phase → RecoverySnapshot Timestamp → RecoveryConfig → Option NextAction
unfolding backoff_sleep
by_phase aggressive snap cfg =
    if snap.had_success_this_phase
    then some (sleep 0)
    else if leb cfg.aggressive_phase_max_secs snap.phase_elapsed_secs
    then some escalate_to_backoff
    else some (sleep 0)
by_phase backoff_every_15min snap cfg =
    if not cfg.autonomous && leb cfg.backoff_phase_max_secs snap.phase_elapsed_secs
    then some fire_giveup_alert
    else backoff_sleep cfg snap.phase_elapsed_secs
by_phase given_up snap cfg = some (sleep 3600)

-- Gate 3's answer once the streak has reached its threshold.
unfoldable pub by_fingerprint : Phase → RecoveryConfig → NextAction
by_fingerprint phase cfg =
    if cfg.autonomous
    then if phase_eq phase aggressive then escalate_to_backoff else sleep cfg.backoff_interval_secs
    else force_hitl_early

-- `none` is the panic of `%` by a zero interval.
unfoldable pub compute_next_action :
    {Timestamp : Type 0} → RecoverySnapshot Timestamp → RecoveryConfig → Option NextAction
unfolding by_phase by_fingerprint
compute_next_action snap cfg =
    if cfg.disabled
    then some (sleep 0)
    else if cfg.autonomous && phase_eq snap.phase given_up
    then some resume_automatically
    else if snap.cold_restart_pending
    then some defer_to_cold_restart
    else if is_some snap.resume_token && phase_eq snap.phase given_up
    then some resume_to_aggressive
    else if not (phase_eq snap.phase given_up)
        && leb cfg.fingerprint_streak_forcing_hitl snap.failure_fingerprint_streak
    then some (by_fingerprint snap.phase cfg)
    else by_phase snap.phase snap cfg

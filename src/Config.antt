-- ===== src/Config.antt =====
-- `RecoveryTimingConfig` of ibctl/src/config.rs and how the environment overrides it. The
-- environment is a function; a variable that is not set, or no text, is none.
pub mod Data
pub mod Defaults
pub mod Names
pub mod Overrides
pub mod Load
pub mod Complete
mod Tests
use ibctl.Base.{
  ℕ, ◌≡◌, refl, Bool, true, false, not, ◌||◌, Option, none, some, List, [], ◌∷◌, map, arith,
  Option-cases, inl, inr,
}
use ibctl.Base.Text.{Text, codes, text_eq, trim}
use ibctl.Base.Decimal.{decimal, parse_u32, parse_u64}
use ibctl.Base.Words.{ascii_lower}
use ibctl.Recovery.Decision.{RecoveryConfig, default_config}

pub record RecoveryTimingConfig : Type 0 where
  pub enabled : Bool
  pub autonomous : Bool
  pub aggressive_phase_max_secs : ℕ
  pub backoff_phase_max_secs : ℕ
  pub backoff_interval_secs : ℕ
  pub min_success_dwell_secs : ℕ
  pub fingerprint_streak_forcing_hitl : ℕ
  pub giveup_ntfy_kind : Text
  pub giveup_callback_valid_hours : ℕ
  pub giveup_alert_resend_interval_hours : ℕ

-- `RecoveryTimingConfig::default`
abbrev pub default_timing : RecoveryTimingConfig
default_timing = record {
  enabled = true;
  autonomous = false;
  aggressive_phase_max_secs = 3600;
  backoff_phase_max_secs = 10800;
  backoff_interval_secs = 900;
  min_success_dwell_secs = 60;
  fingerprint_streak_forcing_hitl = 8;
  giveup_ntfy_kind = codes "reconnect_gave_up";
  giveup_callback_valid_hours = 12;
  giveup_alert_resend_interval_hours = 6;
}

abbrev pub Environment : Type 0
Environment = Text → Option Text

unfoldable pub is_yes : Text → Bool
unfolding text_eq
is_yes v =
    let low = map ascii_lower v in
    text_eq low (codes "1")
    || text_eq low (codes "true")
    || text_eq low (codes "yes")
    || text_eq low (codes "on")

-- `env_bool(key).unwrap_or(current)`: any other text is false.
abbrev pub flag : Option Text → Bool → Bool
flag none current = current
flag (some v) current = is_yes v

abbrev number_or : Option ℕ → ℕ → ℕ
number_or none current = current
number_or (some n) current = n

-- `env_u64` and `env_u32`: a blank text and one that is no number are passed over.
unfoldable pub numeric : (Text → Option ℕ) → Option Text → ℕ → ℕ
unfolding trim
numeric parse none current = current
numeric parse (some v) current = elim (trim v) [
  | [] ↦ current
  | c ∷ cs ↦ number_or (parse v) current
]

unfoldable pub to_runtime : Environment → RecoveryTimingConfig → RecoveryConfig
unfolding is_yes numeric parse_u32 parse_u64
to_runtime env config = record {
  autonomous = flag (env (codes "IBCTL_RECOVERY_AUTONOMOUS")) config.autonomous;
  aggressive_phase_max_secs =
      numeric parse_u64 (env (codes "IBCTL_RECOVERY_AGGRESSIVE_MAX_SECS"))
        config.aggressive_phase_max_secs;
  backoff_phase_max_secs =
      numeric parse_u64 (env (codes "IBCTL_RECOVERY_BACKOFF_MAX_SECS"))
        config.backoff_phase_max_secs;
  backoff_interval_secs =
      numeric parse_u64 (env (codes "IBCTL_RECOVERY_BACKOFF_INTERVAL_SECS"))
        config.backoff_interval_secs;
  min_success_dwell_secs =
      numeric parse_u64 (env (codes "IBCTL_RECOVERY_MIN_SUCCESS_DWELL_SECS"))
        config.min_success_dwell_secs;
  fingerprint_streak_forcing_hitl =
      numeric parse_u32 (env (codes "IBCTL_RECOVERY_FINGERPRINT_STREAK"))
        config.fingerprint_streak_forcing_hitl;
  giveup_callback_valid_hours =
      numeric parse_u32 (env (codes "IBCTL_RECOVERY_GIVEUP_CALLBACK_VALID_HOURS"))
        config.giveup_callback_valid_hours;
  giveup_alert_resend_interval_hours =
      numeric parse_u32 (env (codes "IBCTL_RECOVERY_GIVEUP_ALERT_RESEND_INTERVAL_HOURS"))
        config.giveup_alert_resend_interval_hours;
  disabled = flag (env (codes "IBCTL_RECOVERY_DISABLED")) (not config.enabled);
}

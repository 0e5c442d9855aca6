-- ===== src/Machine/Queries/Recovery.antt =====
-- ibctl/src/state_machine/queries.rs: what the status says of the recovery and of skipped cold
-- restarts, and how JSON values are put together. The texts of dates are inputs.
use ibctl.Base.{
  ℕ, ◌+◌, ◌-◌, ◌*◌, ◌/◌, ◌^◌, Bool, not, Option, none, some, List, [], ◌∷◌, min, ltb, ◌==◌,
  if◌then◌else◌,
}
use ibctl.Base.Int.{ℤ, clamped_sub}
use ibctl.Base.Text.{Text, codes}
use ibctl.Base.Decimal.{decimal}
use ibctl.ColdRestart.{fresh_auth_today, dormant_site}
use ibctl.Machine.Json.{
  Json, Elements, Members, null, boolean, number, string, array, object, end, element, empty,
  member,
}
use ibctl.Machine.Lifecycle.{ColdRestartSkipRecord}
use ibctl.Recovery.Decision.{Phase, backoff_every_15min, phase_eq, as_str}
use ibctl.Recovery.Coordinator.{RecoveryCoordinator}

abbrev pub num : ℕ → Json
num n = number (decimal n)

abbrev pub or_null : {A : Type 0} → (A → Json) → Option A → Json
or_null f none = null
or_null f (some a) = f a

abbrev pub elements : List Json → Elements
elements [] = end
elements (v ∷ vs) = element v (elements vs)

abbrev pub members : List (Text × Json) → Members
members [] = empty
members ((k, v) ∷ rest) = member k v (members rest)

abbrev pub obj : List (Text × Json) → Json
obj fields = object (members fields)

abbrev pub arr : List Json → Json
arr vs = array (elements vs)

-- What jiff makes of dates: their seconds, their texts, and a date that is some seconds later, if it
-- is one.
pub record Dates (Zoned Timestamp : Type 0) : Type 0 where
  pub as_second : Zoned → ℤ
  pub shown : Zoned → Text
  pub shown_timestamp : Timestamp → Text
  pub checked_add : Zoned → ℕ → Option Zoned

-- The supervisor's record of the JVM.
pub record JvmInfo : Type 0 where
  pub pid : Option ℕ
  pub alive : Bool
  pub started_at : Option ℕ
  pub config_dir : Text
  pub agent_socket : Text

-- What else the answer is made of; `socat_alive` is what `try_wait` says of the process that is kept.
pub record Figures (Zoned : Type 0) : Type 0 where
  pub version : Text
  pub now : ℕ
  pub now_wall : Zoned
  pub start_time : ℕ
  pub socat_alive : Bool
  pub socat_pid : ℕ
  pub jvm : JvmInfo
  pub client_ids : List Text
  pub stats : Json
  pub relogins_today : ℕ
  pub verified_offset_ms : Option ℤ
  pub last_verified_unix_secs : Option ℕ
  pub container_exit_after_restarts : Option Text  -- the environment's

abbrev pub saturating_mul : ℕ → ℕ → ℕ
saturating_mul a b = min (a * b) (2 ^ 64 - 1)

module _ {Zoned Timestamp : Type 0} (dates : Dates Zoned Timestamp) where
  -- A wall clock that runs backwards gives 0.
  abbrev pub wall_elapsed_secs : Zoned → Zoned → ℕ
  wall_elapsed_secs now_wall entered =
      clamped_sub (dates.as_second now_wall) (dates.as_second entered)

  -- The next boundary of the interval after phase entry; none for an interval of 0, an overflow of
  -- i64 and a date that jiff cannot represent.
  unfoldable pub next_retry_at : Phase → ℕ → ℕ → Zoned → Option Zoned
  next_retry_at phase interval elapsed entered =
      if not (phase_eq phase backoff_every_15min)
      then none
      else if interval == 0
      then none
      else let offset_secs = saturating_mul interval (elapsed / interval + 1) in
        if ltb offset_secs (2 ^ 63) then dates.checked_add entered offset_secs else none

  unfoldable pub recovery_json : RecoveryCoordinator Zoned Timestamp → Zoned → Json
  unfolding next_retry_at as_str decimal
  recovery_json c now_wall =
      let entered = c.phase_entered_at_wall in
      let elapsed = wall_elapsed_secs now_wall entered in
      obj (
        (codes "phase", string (as_str c.phase))
        ∷ (codes "phase_entered_at", string (dates.shown entered))
        ∷ (codes "phase_elapsed_secs", num elapsed)
        ∷ (
          codes "last_full_success_at",
          or_null (λ z. string (dates.shown z)) c.last_full_success_at,
        )
        ∷ (
          codes "giveup_alert_sent_at",
          or_null (λ t. string (dates.shown_timestamp t)) c.giveup_alert_sent_at,
        )
        ∷ (
          codes "next_retry_at",
          or_null (λ z. string (dates.shown z))
              (next_retry_at c.phase c.config.backoff_interval_secs elapsed entered),
        )
        ∷ (codes "blocked_awaiting_resume", boolean c.blocked_awaiting_resume)
        ∷ (codes "aggressive_phase_max_secs", num c.config.aggressive_phase_max_secs)
        ∷ (codes "backoff_phase_max_secs", num c.config.backoff_phase_max_secs)
        ∷ (codes "min_success_dwell_secs", num c.config.min_success_dwell_secs)
        ∷ (codes "callback_valid_hours", num c.config.giveup_callback_valid_hours)
        ∷ (
          codes "giveup_alert_resend_interval_hours",
          num c.config.giveup_alert_resend_interval_hours,
        )
        ∷ [])

  unfoldable pub skip_json : ColdRestartSkipRecord Zoned → Json
  skip_json rec = elim rec.reason [
    | fresh_auth_today at ↦ obj (
        (codes "recorded_at", string (dates.shown rec.recorded_at))
        ∷ (codes "reason", string (codes "fresh_auth_today"))
        ∷ (codes "last_login_at", string (dates.shown at))
        ∷ [])
    | dormant_site ↦ obj (
        (codes "recorded_at", string (dates.shown rec.recorded_at))
        ∷ (codes "reason", string (codes "dormant_site"))
        ∷ [])
  ]

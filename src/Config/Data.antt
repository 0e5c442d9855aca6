-- ===== src/Config/Data.antt =====
-- The sections of the configuration, ibctl/src/config.rs, with their defaults. Secrets are texts.
use ibctl.Base.{ℕ, Bool, List}
use ibctl.Base.Text.{Text}
use ibctl.Config.{RecoveryTimingConfig}
use ibctl.Machine.Handlers.{TwoFaOnTimeout, HitlStrategy, ReloginFailureAction}

pub data TradingMode : Type 0 where
  live paper both : TradingMode

pub data TotpProvider : Type 0 where
  oathtool builtin : TotpProvider

pub data TwoFaTimeoutAction : Type 0 where
  restart exit : TwoFaTimeoutAction

pub data GatewayProgram : Type 0 where
  gateway tws : GatewayProgram

pub data SessionAction : Type 0 where
  primary secondary primary_override : SessionAction

pub data AcceptIncoming : Type 0 where
  accept reject manual : AcceptIncoming

pub data SiteRole : Type 0 where
  primary standby : SiteRole

pub data LogLevel : Type 0 where
  debug info warn error : LogLevel

pub data CounterResetScope : Type 0 where
  any_reach stable : CounterResetScope

pub record PaperAuthConfig : Type 0 where
  pub username : Text
  pub password : Text

pub record AuthConfig : Type 0 where
  pub username : Text
  pub password : Text
  pub trading_mode : TradingMode
  pub paper_auth : PaperAuthConfig

pub record TwoFaBackoffConfig : Type 0 where
  pub max_immediate_attempts : ℕ
  pub on_timeout : TwoFaOnTimeout
  pub strategy : HitlStrategy
  pub intervals_minutes : List ℕ
  pub callback_valid_hours : ℕ
  pub counter_reset : CounterResetScope
  pub stable_secs : ℕ
  pub cold_restart_preempts_hitl : Bool
  pub ntfy_send_retries : ℕ
  pub ntfy_action_signing_key : Text

pub record TwoFaConfig : Type 0 where
  pub secret_env : Text
  pub provider : TotpProvider
  pub timeout_action : TwoFaTimeoutAction
  pub timeout_seconds : ℕ
  pub device : Text
  pub relogin_after_timeout : Bool
  pub has_secret : Bool
  pub backoff : TwoFaBackoffConfig

pub record GatewayConfig : Type 0 where
  pub tws_path : Text
  pub settings_path : Text
  pub version : Text
  pub java_heap_mb : ℕ
  pub program : GatewayProgram
  pub live_api_port : ℕ
  pub paper_api_port : ℕ
  pub live_socat_port : ℕ
  pub paper_socat_port : ℕ

pub record SessionConfig : Type 0 where
  pub action : SessionAction
  pub accept_incoming : AcceptIncoming
  pub cold_restart_time : Text
  pub tws_cold_restart_day : ℕ
  pub save_settings_at : Text

pub record CommandServerConfig : Type 0 where
  pub enabled : Bool
  pub port : ℕ
  pub bind_address : Text
  pub control_from : List Text

pub record AgentConfig : Type 0 where
  pub socket_path : Text

pub record IbStatusConfig : Type 0 where
  pub kick_active_session : Bool

pub record LoggingConfig : Type 0 where
  pub level : LogLevel
  pub log_dir : Text
  pub futures_session_logging : Bool
  pub session_reopen_hour : ℕ

pub record SiteConfig : Type 0 where
  pub role : SiteRole
  pub auto_launch : Bool

pub record TimingConfig : Type 0 where
  pub ui_tick_ms : ℕ
  pub agent_tick_ms : ℕ
  pub post_login_delay_ms : ℕ
  pub popup_quiet_secs : ℕ
  pub popup_max_wait_secs : ℕ
  pub login_radio_delay_ms : ℕ
  pub jvm_shutdown_timeout_secs : ℕ
  pub login_dialog_timeout_secs : ℕ
  pub restart_delay_secs : ℕ
  pub relogin_max_attempts : ℕ
  pub relogin_failure_action : ReloginFailureAction
  pub api_port_probe_interval_secs : ℕ
  pub api_port_probe_fails_before_revoke : ℕ
  pub recovery : RecoveryTimingConfig

pub record Config : Type 0 where
  pub auth : AuthConfig
  pub twofa : TwoFaConfig
  pub gateway_config : GatewayConfig
  pub session : SessionConfig
  pub command_server : CommandServerConfig
  pub agent : AgentConfig
  pub logging : LoggingConfig
  pub timing : TimingConfig
  pub site : SiteConfig
  pub ib_status : IbStatusConfig

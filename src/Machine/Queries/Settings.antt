-- ===== src/Machine/Queries/Settings.antt =====
-- `build_config_json` of ibctl/src/state_machine/queries.rs: the configuration without its secrets.
use ibctl.Base.{Bool, true, false, not, [], ◌∷◌, map}
use ibctl.Base.Text.{Text, codes}
use ibctl.Base.Decimal.{decimal}
use ibctl.Config.Data.{
  Config, AuthConfig, TwoFaConfig, TwoFaBackoffConfig, GatewayConfig, SessionConfig,
  CommandServerConfig, AgentConfig, IbStatusConfig, LoggingConfig, SiteConfig, TimingConfig,
  CounterResetScope, any_reach, stable,
}
use ibctl.Config.Names.{
  show_trading_mode, show_totp_provider, show_timeout_action, show_gateway_program,
  show_session_action, show_accept_incoming, show_site_role, show_log_level,
}
use ibctl.Machine.Handlers.{
  TwoFaOnTimeout, restart_then_hitl, restart_forever, hitl_immediately, HitlStrategy, disabled,
  periodic, ntfy_callback, both, ReloginFailureAction, restart, reauth,
}
use ibctl.Machine.Json.{Json, string, boolean}
use ibctl.Machine.Queries.Recovery.{num, obj, arr}

abbrev is_empty : Text → Bool
is_empty [] = true
is_empty (_ ∷ _) = false

-- What `{:?}` prints.
abbrev debug_on_timeout : TwoFaOnTimeout → Text
debug_on_timeout restart_then_hitl = codes "RestartThenHitl"
debug_on_timeout restart_forever = codes "RestartForever"
debug_on_timeout hitl_immediately = codes "HitlImmediately"

abbrev debug_strategy : HitlStrategy → Text
debug_strategy disabled = codes "Disabled"
debug_strategy periodic = codes "Periodic"
debug_strategy ntfy_callback = codes "NtfyCallback"
debug_strategy both = codes "Both"

abbrev debug_counter_reset : CounterResetScope → Text
debug_counter_reset any_reach = codes "AnyReach"
debug_counter_reset stable = codes "Stable"

abbrev show_relogin_failure : ReloginFailureAction → Text
show_relogin_failure reauth = codes "reauth"
show_relogin_failure restart = codes "restart"

unfoldable backoff_json : TwoFaBackoffConfig → Json
unfolding decimal
backoff_json c = obj (
    (codes "max_immediate_attempts", num c.max_immediate_attempts)
    ∷ (codes "on_timeout", string (debug_on_timeout c.on_timeout))
    ∷ (codes "strategy", string (debug_strategy c.strategy))
    ∷ (codes "intervals_minutes", arr (map num c.intervals_minutes))
    ∷ (codes "callback_valid_hours", num c.callback_valid_hours)
    ∷ (codes "counter_reset", string (debug_counter_reset c.counter_reset))
    ∷ (codes "stable_secs", num c.stable_secs)
    ∷ (codes "cold_restart_preempts_hitl", boolean c.cold_restart_preempts_hitl)
    ∷ (codes "ntfy_send_retries", num c.ntfy_send_retries)
    ∷ (codes "ntfy_action_signing_key_set", boolean (not (is_empty c.ntfy_action_signing_key)))
    ∷ [])

unfoldable auth_json : AuthConfig → Json
unfolding show_trading_mode
auth_json c = obj (
    (codes "username", string c.username)
    ∷ (codes "trading_mode", string (show_trading_mode c.trading_mode))
    ∷ (codes "password", string (codes "********"))
    ∷ [])

unfoldable gateway_json : GatewayConfig → Json
unfolding decimal show_gateway_program
gateway_json c = obj (
    (codes "tws_path", string c.tws_path)
    ∷ (codes "settings_path", string c.settings_path)
    ∷ (codes "version", string c.version)
    ∷ (codes "java_heap_mb", num c.java_heap_mb)
    ∷ (codes "program", string (show_gateway_program c.program))
    ∷ (codes "live_api_port", num c.live_api_port)
    ∷ (codes "paper_api_port", num c.paper_api_port)
    ∷ (codes "live_socat_port", num c.live_socat_port)
    ∷ (codes "paper_socat_port", num c.paper_socat_port)
    ∷ [])

unfoldable session_json : SessionConfig → Json
unfolding decimal show_accept_incoming show_session_action
session_json c = obj (
    (codes "action", string (show_session_action c.action))
    ∷ (codes "accept_incoming", string (show_accept_incoming c.accept_incoming))
    ∷ (codes "cold_restart_time", string c.cold_restart_time)
    ∷ (codes "cold_restart_day", num c.tws_cold_restart_day)
    ∷ [])

unfoldable command_server_json : CommandServerConfig → Json
unfolding decimal
command_server_json c = obj (
    (codes "enabled", boolean c.enabled)
    ∷ (codes "port", num c.port)
    ∷ (codes "bind_address", string c.bind_address)
    ∷ (codes "control_from", arr (map string c.control_from))
    ∷ [])

unfoldable timing_json : TimingConfig → Json
unfolding decimal
timing_json c = obj (
    (codes "ui_tick_ms", num c.ui_tick_ms)
    ∷ (codes "agent_tick_ms", num c.agent_tick_ms)
    ∷ (codes "post_login_delay_ms", num c.post_login_delay_ms)
    ∷ (codes "popup_quiet_secs", num c.popup_quiet_secs)
    ∷ (codes "popup_max_wait_secs", num c.popup_max_wait_secs)
    ∷ (codes "login_radio_delay_ms", num c.login_radio_delay_ms)
    ∷ (codes "jvm_shutdown_timeout_secs", num c.jvm_shutdown_timeout_secs)
    ∷ (codes "login_dialog_timeout_secs", num c.login_dialog_timeout_secs)
    ∷ (codes "restart_delay_secs", num c.restart_delay_secs)
    ∷ (codes "relogin_max_attempts", num c.relogin_max_attempts)
    ∷ (codes "relogin_failure_action", string (show_relogin_failure c.relogin_failure_action))
    ∷ (codes "api_port_probe_interval_secs", num c.api_port_probe_interval_secs)
    ∷ (codes "api_port_probe_fails_before_revoke", num c.api_port_probe_fails_before_revoke)
    ∷ [])

unfoldable agent_json : AgentConfig → Json
agent_json c = obj ((codes "socket_path", string c.socket_path) ∷ [])

unfoldable ib_status_json : IbStatusConfig → Json
ib_status_json c = obj ((codes "kick_active_session", boolean c.kick_active_session) ∷ [])

unfoldable logging_json : LoggingConfig → Json
unfolding decimal show_log_level
logging_json c = obj (
    (codes "level", string (show_log_level c.level))
    ∷ (codes "log_dir", string c.log_dir)
    ∷ (codes "futures_session_logging", boolean c.futures_session_logging)
    ∷ (codes "session_reopen_hour", num c.session_reopen_hour)
    ∷ [])

unfoldable pub site_json : SiteConfig → Json
unfolding show_site_role
site_json c = obj (
    (codes "role", string (show_site_role c.role))
    ∷ (codes "auto_launch", boolean c.auto_launch)
    ∷ [])

unfoldable twofa_json : TwoFaConfig → Json
unfolding show_totp_provider show_timeout_action backoff_json decimal
twofa_json c = obj (
    (codes "provider", string (show_totp_provider c.provider))
    ∷ (codes "timeout_action", string (show_timeout_action c.timeout_action))
    ∷ (codes "timeout_seconds", num c.timeout_seconds)
    ∷ (codes "device", string c.device)
    ∷ (codes "relogin_after_timeout", boolean c.relogin_after_timeout)
    ∷ (codes "has_secret", boolean c.has_secret)
    ∷ (codes "backoff", backoff_json c.backoff)
    ∷ [])

unfoldable pub config_json : Config → Json
unfolding twofa_json auth_json gateway_json session_json command_server_json timing_json agent_json
    ib_status_json logging_json site_json
config_json c = obj (
    (codes "auth", auth_json c.auth)
    ∷ (codes "twofa", twofa_json c.twofa)
    ∷ (codes "gateway", gateway_json c.gateway_config)
    ∷ (codes "session", session_json c.session)
    ∷ (codes "command_server", command_server_json c.command_server)
    ∷ (codes "timing", timing_json c.timing)
    ∷ (codes "agent", agent_json c.agent)
    ∷ (codes "ib_status", ib_status_json c.ib_status)
    ∷ (codes "logging", logging_json c.logging)
    ∷ (codes "site", site_json c.site)
    ∷ [])

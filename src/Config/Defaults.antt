-- ===== src/Config/Defaults.antt =====
-- The built-in defaults of ibctl/src/config.rs.
use ibctl.Base.{true, false, [], ◌∷◌}
use ibctl.Base.Text.{codes}
use ibctl.Config.{default_timing}
use ibctl.Config.Data.{
  TwoFaTimeoutAction, SessionAction, SiteRole, PaperAuthConfig, AuthConfig, TwoFaBackoffConfig,
  TwoFaConfig, GatewayConfig, SessionConfig, CommandServerConfig, AgentConfig, IbStatusConfig,
  LoggingConfig, SiteConfig, TimingConfig, Config, paper, builtin, gateway, accept, info, any_reach,
}
use ibctl.Machine.Handlers.{restart_then_hitl, periodic, reauth}

abbrev pub default_paper_auth : PaperAuthConfig
default_paper_auth = record { username = []; password = [] }

abbrev pub default_auth : AuthConfig
default_auth = record {
  username = [];
  password = [];
  trading_mode = paper;
  paper_auth = default_paper_auth;
}

abbrev pub default_backoff : TwoFaBackoffConfig
default_backoff = record {
  max_immediate_attempts = 3;
  on_timeout = restart_then_hitl;
  strategy = periodic;
  intervals_minutes = 60 ∷ [];
  callback_valid_hours = 12;
  counter_reset = any_reach;
  stable_secs = 300;
  cold_restart_preempts_hitl = true;
  ntfy_send_retries = 1;
  ntfy_action_signing_key = [];
}

abbrev pub default_twofa : TwoFaConfig
default_twofa = record {
  secret_env = codes "TWOFACTOR_CODE";
  provider = builtin;
  timeout_action = TwoFaTimeoutAction.restart;
  timeout_seconds = 180;
  device = [];
  relogin_after_timeout = false;
  has_secret = false;
  backoff = default_backoff;
}

abbrev pub default_gateway : GatewayConfig
default_gateway = record {
  tws_path = codes "/home/ibgateway/Jts";
  settings_path = [];
  version = [];
  java_heap_mb = 768;
  program = gateway;
  live_api_port = 4001;
  paper_api_port = 4002;
  live_socat_port = 4003;
  paper_socat_port = 4004;
}

abbrev pub default_session : SessionConfig
default_session = record {
  action = SessionAction.primary;
  accept_incoming = accept;
  cold_restart_time = [];
  tws_cold_restart_day = 0;
  save_settings_at = [];
}

abbrev pub default_command_server : CommandServerConfig
default_command_server = record {
  enabled = false;
  port = 7462;
  bind_address = codes "0.0.0.0";
  control_from = codes "127.0.0.1" ∷ codes "172.0.0.0/8" ∷ [];
}

abbrev pub default_agent : AgentConfig
default_agent = record { socket_path = codes "/run/ibctl/agent.sock" }

abbrev pub default_ib_status : IbStatusConfig
default_ib_status = record { kick_active_session = false }

abbrev pub default_logging : LoggingConfig
default_logging = record {
  level = info;
  log_dir = [];
  futures_session_logging = false;
  session_reopen_hour = 18;
}

abbrev pub default_site : SiteConfig
default_site = record { role = SiteRole.primary; auto_launch = true }

abbrev pub default_timings : TimingConfig
default_timings = record {
  ui_tick_ms = 100;
  agent_tick_ms = 50;
  post_login_delay_ms = 1000;
  popup_quiet_secs = 5;
  popup_max_wait_secs = 30;
  login_radio_delay_ms = 100;
  jvm_shutdown_timeout_secs = 5;
  login_dialog_timeout_secs = 120;
  restart_delay_secs = 90;
  relogin_max_attempts = 1;
  relogin_failure_action = reauth;
  api_port_probe_interval_secs = 5;
  api_port_probe_fails_before_revoke = 3;
  recovery = default_timing;
}

abbrev pub built_in : Config
built_in = record {
  auth = default_auth;
  twofa = default_twofa;
  gateway_config = default_gateway;
  session = default_session;
  command_server = default_command_server;
  agent = default_agent;
  logging = default_logging;
  timing = default_timings;
  site = default_site;
  ib_status = default_ib_status;
}

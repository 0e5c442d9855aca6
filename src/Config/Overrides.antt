-- ===== src/Config/Overrides.antt =====
-- `apply_env_overrides` of ibctl/src/config.rs and what it reads. Files are a function; one that cannot
-- be read is none. A value that is not understood leaves the setting as it is.
use ibctl.Base.{
  ℕ, ◌^◌, Bool, true, false, not, ◌&&◌, ◌||◌, Option, none, some, List, [], ◌∷◌, ◌++◌, map, ltb,
  if◌then◌else◌,
}
use ibctl.Base.Text.{Text, codes, text_eq, trim, split}
use ibctl.Base.Decimal.{parse_u32, parse_u64, parse_below}
use ibctl.Base.Words.{Casing}
use ibctl.Config.{Environment}
use ibctl.Config.Data.{
  Config, AuthConfig, TwoFaConfig, TwoFaBackoffConfig, GatewayConfig, SessionConfig,
  CommandServerConfig, LoggingConfig, SiteConfig, TimingConfig,
}
use ibctl.Config.Names.{
  named, trading_mode_names, totp_provider_names, timeout_action_names, gateway_program_names,
  session_action_names, accept_incoming_names, site_role_names, log_level_names, on_timeout_names,
  strategy_names, counter_reset_names, relogin_failure_names,
}

abbrev pub nonempty : Option Text → Option Text
nonempty (some (c ∷ cs)) = some (c ∷ cs)
nonempty _ = none

abbrev is_empty : Text → Bool
is_empty [] = true
is_empty (_ ∷ _) = false

unfoldable pub or_keep {ℓ} : {A : Type ℓ} → Option A → A → A
or_keep none current = current
or_keep (some a) current = a

abbrev and_then {ℓ κ} : {A : Type ℓ} {B : Type κ} → (A → Option B) → Option A → Option B
and_then f none = none
and_then f (some a) = f a

abbrev or_else : Option Text → Option Text → Option Text
or_else none other = other
or_else (some t) other = some t

abbrev below : ℕ → Option ℕ → Option ℕ
below limit none = none
below limit (some n) = if ltb n limit then some n else none

-- The parts that parse; none of them leaves the list as it is.
abbrev parsed_parts : List Text → List ℕ
parsed_parts [] = []
parsed_parts (part ∷ parts) = elim (parse_u32 (trim part)) [
  | none ↦ parsed_parts parts
  | some n ↦ n ∷ parsed_parts parts
]

unfoldable pub or_keep_list : List ℕ → List ℕ → List ℕ
or_keep_list [] current = current
or_keep_list (n ∷ ns) current = n ∷ ns

module _ (casing : Casing) (read_file : Text → Option Text) (env : Environment) where
  -- Of a variable that is set and not empty.
  abbrev pub env_nonempty : Text → Option Text
  env_nonempty var = nonempty (env var)

  -- A secret's file goes first, whatever it holds; one that cannot be read counts as not there.
  unfoldable pub env_or_file : Text → Option Text
  unfolding trim
  env_or_file var = elim (and_then read_file (env (var ++ codes "_FILE"))) [
    | some contents ↦ some (trim contents)
    | none ↦ env_nonempty var
  ]

  abbrev choice {ℓ} : {A : Type ℓ} → List (Text × A) → Option Text → A → A
  choice names v current = or_keep (and_then (λ t. named (casing.to_lowercase t) names) v) current

  abbrev number : (Text → Option ℕ) → Text → ℕ → ℕ
  number parse var current = or_keep (and_then parse (env var)) current

  abbrev is_yes : Text → Bool
  is_yes t =
      let low = casing.to_lowercase t in
      text_eq low (codes "yes") || text_eq low (codes "true") || text_eq low (codes "1")

  abbrev yes_no : Text → Bool → Bool
  yes_no var current = or_keep (and_then (λ t. some (is_yes t)) (env_nonempty var)) current

  unfoldable pub override_auth : AuthConfig → AuthConfig
  unfolding env_or_file text_eq
  override_auth c = record {
    username = or_keep (env_or_file (codes "TWS_USERID")) c.username;
    password = or_keep (env_or_file (codes "TWS_PASSWORD")) c.password;
    trading_mode = choice trading_mode_names (env_or_file (codes "TRADING_MODE")) c.trading_mode;
    paper_auth = record {
      username = or_keep (env_or_file (codes "TWS_USERID_PAPER")) c.paper_auth.username;
      password = or_keep (env_or_file (codes "TWS_PASSWORD_PAPER")) c.paper_auth.password;
    };
  }

  unfoldable pub override_backoff : TwoFaBackoffConfig → TwoFaBackoffConfig
  unfolding env_or_file text_eq parse_u32 parse_u64 split trim
  override_backoff c = record {
    max_immediate_attempts =
        number parse_u32 (codes "IBCTL_TWOFA_MAX_IMMEDIATE_ATTEMPTS") c.max_immediate_attempts;
    on_timeout =
        choice on_timeout_names (env_nonempty (codes "IBCTL_TWOFA_ON_TIMEOUT")) c.on_timeout;
    strategy = choice strategy_names (env_nonempty (codes "IBCTL_TWOFA_STRATEGY")) c.strategy;
    intervals_minutes =
        or_keep_list
          (elim (env_nonempty (codes "IBCTL_TWOFA_INTERVALS_MINUTES")) [
            | none ↦ []
            | some v ↦ parsed_parts (split 44 v)
          ])
          c.intervals_minutes;
    callback_valid_hours =
        number parse_u32 (codes "IBCTL_TWOFA_CALLBACK_VALID_HOURS") c.callback_valid_hours;
    counter_reset =
        choice counter_reset_names (env_nonempty (codes "IBCTL_TWOFA_COUNTER_RESET"))
          c.counter_reset;
    stable_secs = number parse_u64 (codes "IBCTL_TWOFA_STABLE_SECS") c.stable_secs;
    cold_restart_preempts_hitl =
        yes_no (codes "IBCTL_TWOFA_COLD_RESTART_PREEMPTS_HITL") c.cold_restart_preempts_hitl;
    ntfy_send_retries =
        number parse_u32 (codes "IBCTL_TWOFA_NTFY_SEND_RETRIES") c.ntfy_send_retries;
    ntfy_action_signing_key =
        or_keep (env_or_file (codes "IBCTL_NTFY_ACTION_SIGNING_KEY")) c.ntfy_action_signing_key;
  }

  abbrev holds_text : Option Text → Bool
  holds_text none = false
  holds_text (some t) = not (is_empty t)

  unfoldable pub override_twofa : TwoFaConfig → TwoFaConfig
  unfolding override_backoff env_or_file text_eq parse_u64
  override_twofa c = record {
    secret_env = c.secret_env;
    provider = choice totp_provider_names (env_nonempty (codes "TOTP_PROVIDER")) c.provider;
    timeout_action =
        choice timeout_action_names (env_nonempty (codes "TWOFA_TIMEOUT_ACTION")) c.timeout_action;
    timeout_seconds = number parse_u64 (codes "TWOFA_EXIT_INTERVAL") c.timeout_seconds;
    device = or_keep (env_nonempty (codes "TWOFA_DEVICE")) c.device;
    relogin_after_timeout = yes_no (codes "RELOGIN_AFTER_TWOFA_TIMEOUT") c.relogin_after_timeout;
    has_secret = holds_text (env_or_file c.secret_env);
    backoff = override_backoff c.backoff;
  }

  abbrev parse_u16 : Text → Option ℕ
  parse_u16 = parse_below (2 ^ 16)

  abbrev parse_u8 : Text → Option ℕ
  parse_u8 = parse_below (2 ^ 8)

  unfoldable pub override_gateway : GatewayConfig → GatewayConfig
  unfolding text_eq parse_u32 parse_below
  override_gateway c = record {
    tws_path = or_keep (env_nonempty (codes "TWS_PATH")) c.tws_path;
    settings_path = or_keep (env_nonempty (codes "TWS_SETTINGS_PATH")) c.settings_path;
    version = or_keep (env_nonempty (codes "TWS_MAJOR_VRSN")) c.version;
    java_heap_mb = number parse_u32 (codes "JAVA_HEAP_SIZE") c.java_heap_mb;
    program = choice gateway_program_names (env_nonempty (codes "GATEWAY_OR_TWS")) c.program;
    live_api_port = number parse_u16 (codes "IBCTL_LIVE_API_PORT") c.live_api_port;
    paper_api_port = number parse_u16 (codes "IBCTL_PAPER_API_PORT") c.paper_api_port;
    live_socat_port = number parse_u16 (codes "IBCTL_LIVE_SOCAT_PORT") c.live_socat_port;
    paper_socat_port = number parse_u16 (codes "IBCTL_PAPER_SOCAT_PORT") c.paper_socat_port;
  }

  -- A day above 6 is no day of the week.
  unfoldable pub override_session : SessionConfig → SessionConfig
  unfolding text_eq parse_below
  override_session c = record {
    action = choice session_action_names (env_nonempty (codes "IBCTL_SESSION_ACTION")) c.action;
    accept_incoming =
        choice accept_incoming_names
          (or_else (env_nonempty (codes "IBCTL_ACCEPT_INCOMING"))
            (env_nonempty (codes "TWS_ACCEPT_INCOMING")))
          c.accept_incoming;
    cold_restart_time = or_keep (env_nonempty (codes "TWS_COLD_RESTART")) c.cold_restart_time;
    tws_cold_restart_day =
        or_keep (below 7 (and_then parse_u8 (env_nonempty (codes "TWS_COLD_RESTART_DAY"))))
          c.tws_cold_restart_day;
    save_settings_at = or_keep (env_nonempty (codes "SAVE_TWS_SETTINGS_AT")) c.save_settings_at;
  }

  abbrev is_enabled : Text → Bool
  is_enabled v =
      not (text_eq (casing.to_lowercase v) (codes "false"))
      && not (text_eq v (codes "0"))
      && not (text_eq (casing.to_lowercase v) (codes "no"))

  unfoldable pub override_command_server : CommandServerConfig → CommandServerConfig
  unfolding text_eq parse_below split trim
  override_command_server c = record {
    enabled =
        or_keep
          (and_then (λ v. some (is_enabled v))
            (env_nonempty (codes "IBCTL_COMMAND_SERVER_ENABLED")))
          c.enabled;
    port = number parse_u16 (codes "IBCTL_COMMAND_PORT") c.port;
    bind_address = c.bind_address;
    control_from =
        or_keep
          (and_then (λ v. some (map trim (split 44 v))) (env_nonempty (codes "IBCTL_CONTROL_FROM")))
          c.control_from;
  }

  unfoldable pub override_timing : TimingConfig → TimingConfig
  unfolding text_eq parse_u64 parse_u32
  override_timing c = record c {
    login_dialog_timeout_secs =
        number parse_u64 (codes "IBCTL_LOGIN_TIMEOUT") c.login_dialog_timeout_secs;
    restart_delay_secs = number parse_u64 (codes "IBCTL_RESTART_DELAY") c.restart_delay_secs;
    relogin_max_attempts = number parse_u32 (codes "IBCTL_RELOGIN_ATTEMPTS") c.relogin_max_attempts;
    relogin_failure_action =
        choice relogin_failure_names (env_nonempty (codes "IBCTL_RELOGIN_FAILURE_ACTION"))
          c.relogin_failure_action;
    api_port_probe_interval_secs =
        number parse_u64 (codes "IBCTL_API_PORT_PROBE_INTERVAL_SECS")
          c.api_port_probe_interval_secs;
    api_port_probe_fails_before_revoke =
        number parse_u32 (codes "IBCTL_API_PORT_PROBE_FAILS_BEFORE_REVOKE")
          c.api_port_probe_fails_before_revoke;
  }

  unfoldable pub override_logging : LoggingConfig → LoggingConfig
  unfolding text_eq parse_below
  override_logging c = record {
    level = choice log_level_names (env_nonempty (codes "IBCTL_LOG_LEVEL")) c.level;
    log_dir = or_keep (env_nonempty (codes "IBCTL_LOG_DIR")) c.log_dir;
    futures_session_logging =
        yes_no (codes "IBCTL_FUTURES_SESSION_LOGGING") c.futures_session_logging;
    session_reopen_hour =
        or_keep (below 24 (and_then parse_u8 (env_nonempty (codes "IBCTL_SESSION_REOPEN_HOUR"))))
          c.session_reopen_hour;
  }

  unfoldable pub override_site : SiteConfig → SiteConfig
  unfolding text_eq
  override_site c = record {
    role = choice site_role_names (env_nonempty (codes "IBCTL_SITE_ROLE")) c.role;
    auto_launch = yes_no (codes "IBCTL_AUTO_LAUNCH") c.auto_launch;
  }

  unfoldable pub apply_env_overrides : Config → Config
  unfolding override_auth override_twofa override_gateway override_session override_command_server
      override_timing override_logging override_site
  apply_env_overrides c = record c {
    auth = override_auth c.auth;
    twofa = override_twofa c.twofa;
    gateway_config = override_gateway c.gateway_config;
    session = override_session c.session;
    command_server = override_command_server c.command_server;
    timing = override_timing c.timing;
    agent = record {
      socket_path = or_keep (env_nonempty (codes "IBCTL_AGENT_SOCKET")) c.agent.socket_path;
    };
    logging = override_logging c.logging;
    site = override_site c.site;
  }

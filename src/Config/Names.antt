-- ===== src/Config/Names.antt =====
-- The texts of the enumerations of ibctl/src/config.rs: what they print and what the environment may
-- call them.
use ibctl.Base.{Option, none, some, List, [], ◌∷◌, if◌then◌else◌}
use ibctl.Base.Text.{Text, codes, text_eq}
use ibctl.Config.Data.{
  TradingMode, TotpProvider, TwoFaTimeoutAction, GatewayProgram, SessionAction, AcceptIncoming,
  SiteRole, LogLevel, CounterResetScope,
}
use ibctl.Machine.Handlers.{TwoFaOnTimeout, HitlStrategy, ReloginFailureAction}

unfoldable pub show_trading_mode : TradingMode → Text
show_trading_mode TradingMode.live = codes "live"
show_trading_mode TradingMode.paper = codes "paper"
show_trading_mode TradingMode.both = codes "both"

unfoldable pub show_totp_provider : TotpProvider → Text
show_totp_provider TotpProvider.oathtool = codes "oathtool"
show_totp_provider TotpProvider.builtin = codes "builtin"

unfoldable pub show_timeout_action : TwoFaTimeoutAction → Text
show_timeout_action TwoFaTimeoutAction.restart = codes "restart"
show_timeout_action TwoFaTimeoutAction.exit = codes "exit"

unfoldable pub show_gateway_program : GatewayProgram → Text
show_gateway_program GatewayProgram.gateway = codes "gateway"
show_gateway_program GatewayProgram.tws = codes "tws"

unfoldable pub show_session_action : SessionAction → Text
show_session_action SessionAction.primary = codes "primary"
show_session_action SessionAction.secondary = codes "secondary"
show_session_action SessionAction.primary_override = codes "primaryoverride"

unfoldable pub show_accept_incoming : AcceptIncoming → Text
show_accept_incoming AcceptIncoming.accept = codes "accept"
show_accept_incoming AcceptIncoming.reject = codes "reject"
show_accept_incoming AcceptIncoming.manual = codes "manual"

unfoldable pub show_site_role : SiteRole → Text
show_site_role SiteRole.primary = codes "primary"
show_site_role SiteRole.standby = codes "standby"

unfoldable pub show_log_level : LogLevel → Text
show_log_level LogLevel.debug = codes "debug"
show_log_level LogLevel.info = codes "info"
show_log_level LogLevel.warn = codes "warn"
show_log_level LogLevel.error = codes "error"

abbrev pub named {ℓ} : {A : Type ℓ} → Text → List (Text × A) → Option A
named t [] = none
named t ((name, a) ∷ rest) = if text_eq t name then some a else named t rest

abbrev pub trading_mode_names : List (Text × TradingMode)
trading_mode_names =
    (codes "live", TradingMode.live)
    ∷ (codes "paper", TradingMode.paper)
    ∷ (codes "both", TradingMode.both)
    ∷ []

abbrev pub totp_provider_names : List (Text × TotpProvider)
totp_provider_names =
    (codes "oathtool", TotpProvider.oathtool) ∷ (codes "builtin", TotpProvider.builtin) ∷ []

abbrev pub timeout_action_names : List (Text × TwoFaTimeoutAction)
timeout_action_names =
    (codes "restart", TwoFaTimeoutAction.restart) ∷ (codes "exit", TwoFaTimeoutAction.exit) ∷ []

abbrev pub gateway_program_names : List (Text × GatewayProgram)
gateway_program_names =
    (codes "gateway", GatewayProgram.gateway) ∷ (codes "tws", GatewayProgram.tws) ∷ []

abbrev pub session_action_names : List (Text × SessionAction)
session_action_names =
    (codes "primary", SessionAction.primary)
    ∷ (codes "secondary", SessionAction.secondary)
    ∷ (codes "primaryoverride", SessionAction.primary_override)
    ∷ []

abbrev pub accept_incoming_names : List (Text × AcceptIncoming)
accept_incoming_names =
    (codes "accept", AcceptIncoming.accept)
    ∷ (codes "reject", AcceptIncoming.reject)
    ∷ (codes "manual", AcceptIncoming.manual)
    ∷ []

abbrev pub site_role_names : List (Text × SiteRole)
site_role_names = (codes "primary", SiteRole.primary) ∷ (codes "standby", SiteRole.standby) ∷ []

abbrev pub log_level_names : List (Text × LogLevel)
log_level_names =
    (codes "debug", LogLevel.debug)
    ∷ (codes "info", LogLevel.info)
    ∷ (codes "warn", LogLevel.warn)
    ∷ (codes "warning", LogLevel.warn)
    ∷ (codes "error", LogLevel.error)
    ∷ []

abbrev pub on_timeout_names : List (Text × TwoFaOnTimeout)
on_timeout_names =
    (codes "restart_then_hitl", TwoFaOnTimeout.restart_then_hitl)
    ∷ (codes "restart_forever", TwoFaOnTimeout.restart_forever)
    ∷ (codes "hitl_immediately", TwoFaOnTimeout.hitl_immediately)
    ∷ []

abbrev pub strategy_names : List (Text × HitlStrategy)
strategy_names =
    (codes "disabled", HitlStrategy.disabled)
    ∷ (codes "periodic", HitlStrategy.periodic)
    ∷ (codes "ntfy_callback", HitlStrategy.ntfy_callback)
    ∷ (codes "both", HitlStrategy.both)
    ∷ []

abbrev pub counter_reset_names : List (Text × CounterResetScope)
counter_reset_names =
    (codes "any_reach", CounterResetScope.any_reach)
    ∷ (codes "stable", CounterResetScope.stable)
    ∷ []

abbrev pub relogin_failure_names : List (Text × ReloginFailureAction)
relogin_failure_names =
    (codes "reauth", ReloginFailureAction.reauth)
    ∷ (codes "restart", ReloginFailureAction.restart)
    ∷ []

-- ===== src/Dialogs/ApiConfig/Settings.antt =====
-- ibctl/src/handlers/api_config.rs: the settings and what the environment makes them.
use ibctl.Base.{ℕ, ◌^◌, Bool, true, false, ◌||◌, Option, none, some, List, [], ◌∷◌, is_some}
use ibctl.Base.Text.{Text, codes, text_eq}
use ibctl.Base.Decimal.{parse_below}
use ibctl.Base.Words.{Casing}
use ibctl.Config.{Environment}
use ibctl.Machine.Json.{optional}

pub record ApiConfigSettings : Type 0 where
  pub socket_port : Option ℕ
  pub master_client_id : Option Text
  pub read_only_api : Option Bool
  pub bypass_order_precautions : Option Bool
  pub allow_blind_trading : Option Bool
  pub instrument_timezone : Option Text
  pub auto_restart_time : Option Text
  pub auto_logoff_time : Option Text

abbrev nonempty : Option Text → Option Text
nonempty (some (c ∷ cs)) = some (c ∷ cs)
nonempty _ = none

abbrev or_utc : Option Text → Text
or_utc none = codes "UTC format"
or_utc (some t) = t

module _ (casing : Casing) (env : Environment) where
  abbrev is_yes : Text → Bool
  is_yes v =
      let low = casing.to_lowercase v in
      text_eq low (codes "yes") || text_eq low (codes "true") || text_eq low (codes "1")

  unfoldable pub env_bool : Text → Option Bool
  unfolding text_eq
  env_bool var = optional none (λ v. some (is_yes v)) (env var)

  unfoldable pub settings_from_env : ApiConfigSettings
  unfolding env_bool parse_below
  settings_from_env = record {
    socket_port = optional none (parse_below (2 ^ 16)) (env (codes "TWS_SOCKET_PORT"));
    master_client_id = nonempty (env (codes "TWS_MASTER_CLIENT_ID"));
    read_only_api = env_bool (codes "READ_ONLY_API");
    bypass_order_precautions = env_bool (codes "BYPASS_WARNING");
    allow_blind_trading = env_bool (codes "ALLOW_BLIND_TRADING");
    instrument_timezone = some (or_utc (nonempty (env (codes "TWS_API_INSTRUMENT_TIMEZONE"))));
    auto_restart_time = nonempty (env (codes "AUTO_RESTART_TIME"));
    auto_logoff_time = nonempty (env (codes "AUTO_LOGOFF_TIME"));
  }

abbrev pub has_settings : ApiConfigSettings → Bool
has_settings s =
    is_some s.master_client_id
    || is_some s.socket_port
    || is_some s.read_only_api
    || is_some s.bypass_order_precautions
    || is_some s.allow_blind_trading
    || is_some s.instrument_timezone
    || is_some s.auto_restart_time
    || is_some s.auto_logoff_time

abbrev pub precaution_labels : List Text
precaution_labels =
    codes "Bypass Order Precautions for API Orders"
    ∷ codes "Bypass Bond warning for API Orders"
    ∷ codes "Bypass negative yield to worst confirmation for API Orders"
    ∷ codes "Bypass Called Bond warning for API Orders"
    ∷ codes "Bypass \"same action pair trade\" warning for API orders"
    ∷ codes "Bypass price-based volatility risk warning for API Orders"
    ∷ codes "Bypass Redirect Order warning for Stock API Orders"
    ∷ codes "Bypass No Overfill Protection precaution"
    ∷ codes "Bypass Route Marketable to BBO warning for API orders"
    ∷ []

pub record ApiConfigReport : Type 0 where
  pub precaution_labels_not_found : ℕ
  pub read_only_api_label_not_found : ℕ

-- `Result<ApiConfigReport, ApiConfigError>`
pub data ApiConfigResult : Type 0 where
  failed : Text → ApiConfigResult
  applied : ApiConfigReport → ApiConfigResult

abbrev pub is_missing : Option Bool → Bool
is_missing (some false) = true
is_missing _ = false

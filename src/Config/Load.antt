-- ===== src/Config/Load.antt =====
-- `Config::load` of ibctl/src/config.rs. What the file says is parsed by the toml library, a parameter.
use ibctl.Base.{Bool, true, false, Option, none, some, [], ◌∷◌, is_some, if◌then◌else◌}
use ibctl.Base.Text.{Text, codes}
use ibctl.Base.Words.{Casing}
use ibctl.Config.{Environment}
use ibctl.Config.Data.{Config, TradingMode, both}
use ibctl.Config.Defaults.{built_in}
use ibctl.Config.Overrides.{apply_env_overrides}

pub data ConfigError : Type 0 where
  unreadable unparsed : ConfigError
  missing : Text → ConfigError

pub data Loaded : Type 0 where
  valid : Config → Loaded
  invalid : ConfigError → Loaded

abbrev is_empty : Text → Bool
is_empty [] = true
is_empty (_ ∷ _) = false

abbrev pub is_both : TradingMode → Bool
is_both both = true
is_both _ = false

-- The first credential that is missing.
unfoldable pub validate : Config → Option ConfigError
validate c =
    if is_empty c.auth.username
    then some (missing (codes "tws_userid"))
    else if is_empty c.auth.password
    then some (missing (codes "TWS_PASSWORD"))
    else if is_both c.auth.trading_mode
    then if is_empty c.auth.paper_auth.username
      then some (missing (codes "paper tws_userid"))
      else if is_empty c.auth.paper_auth.password
      then some (missing (codes "TWS_PASSWORD_PAPER"))
      else none
    else none

-- Whether a path exists, what is read there, and what the toml library makes of a text.
pub record Files : Type 0 where
  pub exists : Text → Bool
  pub read_to_string : Text → Option Text
  pub from_str : Text → Option Config

abbrev pub judged : Config → Option ConfigError → Loaded
judged c none = valid c
judged c (some e) = invalid e

abbrev pub path_or : Option Text → Option Text → Text
path_or (some path) named = path
path_or none (some path) = path
path_or none none = codes "ibctl.toml"

module _ (casing : Casing) (files : Files) (env : Environment) where
  abbrev pub overridden : Config → Loaded
  overridden base =
      let c = apply_env_overrides casing files.read_to_string env base in judged c (validate c)

  abbrev pub parsed : Option Config → Loaded
  parsed none = invalid unparsed
  parsed (some c) = overridden c

  abbrev pub contents : Option Text → Loaded
  contents none = invalid unreadable
  contents (some text) = parsed (files.from_str text)

  -- A path that is given has to exist; without one, defaults do.
  unfoldable pub load_config : Option Text → Loaded
  unfolding apply_env_overrides validate
  load_config path =
      let config_path = path_or path (env (codes "IBCTL_CONFIG")) in
      if files.exists config_path
      then contents (files.read_to_string config_path)
      else if is_some path
      then invalid unreadable
      else overridden built_in

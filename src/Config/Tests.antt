-- ===== src/Config/Tests.antt =====
-- Settings in concrete environments.
use ibctl.Base.Words.{Casing, ascii_lower, ascii_upper}
use ibctl.Config.Complete.{Outcome, load-Outcome}
use ibctl.Config.Defaults.{built_in}
use ibctl.Config.Load.{Files, valid, load_config}
use ibctl.Config.Overrides.{env_or_file, or_keep, or_keep_list}
use ibctl.Base.{◌≡◌, refl, false, none, some, [], map, if◌then◌else◌}
use ibctl.Base.Text.{Text, codes, text_eq}
use ibctl.Recovery.Decision.{default_config}
use ibctl.Config.{default_timing, Environment, to_runtime}

-- Both defaults are the same.
defaults_agree : to_runtime (λ key. none) default_timing ≡ default_config
unfolding to_runtime
defaults_agree = refl

abbrev only : Text → Text → Environment
only name value key = if text_eq key name then some value else none

-- A number of 0 is taken, a text that is no number is not.
zero_interval :
    (to_runtime
      (only (codes "IBCTL_RECOVERY_BACKOFF_INTERVAL_SECS") (codes "0"))
      default_timing).backoff_interval_secs
    ≡ 0
unfolding to_runtime text_eq
zero_interval = refl

no_number :
    (to_runtime
      (only (codes "IBCTL_RECOVERY_BACKOFF_INTERVAL_SECS") (codes "15m"))
      default_timing).backoff_interval_secs
    ≡ 900
unfolding to_runtime text_eq
no_number = refl

-- An empty text is a false flag, which overrides what the file says.
empty_flag :
    (to_runtime
      (only (codes "IBCTL_RECOVERY_DISABLED") [])
      (record default_timing { enabled = false })).disabled
    ≡ false
unfolding to_runtime text_eq
empty_flag = refl

-- No file, and the credentials in the environment.
abbrev no_files : Files
no_files = record { exists = λ path. false; read_to_string = λ path. none; from_str = λ text. none }

abbrev ascii : Casing
ascii = record { to_uppercase = map ascii_upper; to_lowercase = map ascii_lower }

abbrev credentials : Environment
credentials name =
    if text_eq name (codes "TWS_USERID")
    then some (codes "user")
    else if text_eq name (codes "TWS_PASSWORD")
    then some (codes "secret")
    else none

-- A file at the default path that has a user's name.
abbrev one_file : Files
one_file = record {
  exists = λ path. text_eq path (codes "ibctl.toml");
  read_to_string = λ path. some (codes "[auth]");
  from_str =
      λ text. some (record built_in { auth = record built_in.auth { username = codes "owner" } });
}

load-Outcome_example :
    Outcome ascii one_file credentials none (load_config ascii one_file credentials none)
load-Outcome_example = load-Outcome ascii one_file credentials none

-- It loads with the user's name.
loads :
    load_config ascii no_files credentials none
    ≡ valid (record built_in {
      auth = record built_in.auth { username = codes "user"; password = codes "secret" };
    })
unfolding load_config env_or_file or_keep or_keep_list
loads = refl

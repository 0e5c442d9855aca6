-- ===== src/Dialogs/Tests.antt =====
-- The dialog handlers at concrete inputs.
use ibctl.Base.{
  ◌≡◌, refl, Bool, true, false, Option, none, some, List, [], ◌∷◌, All, map, any, if◌then◌else◌,
}
use ibctl.Base.Text.{Text, codes, text_eq}
use ibctl.Base.Words.{Casing, ascii_lower, ascii_upper}
use ibctl.Config.{Environment}
use ibctl.Machine.Events.{is_twofa_title}
use ibctl.Machine.Json.{Json, object, array, string, member, empty, element, end}
use ibctl.Machine.Handlers.{WindowInfo, handled}
use ibctl.Config.Data.{paper}
use ibctl.Dialogs.{Request, AgentClient, Desk, clicked, dumped, menu_clicked, windows_listed}
use ibctl.Dialogs.ApiConfig.{apply_api_config}
use ibctl.Dialogs.ApiConfig.Settings.{settings_from_env}
use ibctl.Dialogs.ApiConfig.Saved.{Outcome, apply_api_config-Outcome}
use ibctl.Dialogs.Compat.{handle_compat, classify_window, policy_from_env}
use ibctl.Dialogs.Login.{handle_login}
use ibctl.Dialogs.Login.Submits.{Submits, handle_login-Submits}
use ibctl.Dialogs.Manual.{manual_warning-accepted}
use ibctl.Dialogs.Orders.{dispatch-IsPermitted}
use ibctl.Dialogs.Orders.Permits.{IsPermitted}
use ibctl.Config.Data.{Config}
use ibctl.Config.Defaults.{built_in, default_auth}
use ibctl.Dialogs.Commands.{save_tws_settings}
use ibctl.Dialogs.Registry.{Outside, with_defaults, dispatch}

abbrev ascii : Casing
ascii = record { to_uppercase = map ascii_upper; to_lowercase = map ascii_lower }

abbrev bare : Environment
bare name = none

-- Whoever sets the bypass has orders transmitted.
abbrev bypassing : Environment
bypassing name = if text_eq name (codes "BYPASS_WARNING") then some (codes "yes") else none

abbrev outside : Environment → Outside
outside env = record {
  casing = ascii;
  ocr = record { available = false; reads = λ log. none };
  env = env;
  generate = λ secret. none;
}

abbrev config : Config
config = record built_in {
  auth = record default_auth { username = codes "user"; password = codes "secret" };
}

abbrev named : Text → WindowInfo
named title = record { id = 7; title = title; class = codes "dialog"; bounds = none }

abbrev labels : Text → Json
labels text = object (member (codes "labels") (array (element (string text) end)) empty)

-- A screen with some buttons, whose fields take any text.
abbrev answers : List Text → Request → Option Bool
answers buttons (clicked _ label) = some (any (text_eq label) buttons)
answers buttons _ = some true

abbrev screen : List Text → Text → AgentClient
screen buttons text = record {
  agrees = λ log r. answers buttons r;
  lists = λ log. some (named (codes "IB Gateway") ∷ named (codes "Configuration") ∷ []);
  dumps = λ log id. some (labels text);
}

abbrev start : Desk
start = record { log = []; login_submitted = false }

-- With the bypass, a precaution is overridden.
overrides :
    (dispatch ascii
      (screen (codes "Transmit" ∷ []) (codes "a precautionary setting"))
      (named (codes "Order Precaution Warning"))
      (with_defaults (outside bypassing) config)
      start).1.log
    ≡ (clicked 7 (codes "Transmit") ∷ clicked 7 (codes "Override and Transmit") ∷ dumped 7 ∷ [])
unfolding dispatch with_defaults policy_from_env is_twofa_title handle_compat
overrides = refl

dispatch-IsPermitted_example :
    All
      (IsPermitted (policy_from_env bypassing) (codes "order precaution warning"))
      (dispatch ascii
        (screen (codes "Transmit" ∷ []) (codes "a precautionary setting"))
        (named (codes "Order Precaution Warning"))
        (with_defaults (outside bypassing) config)
        start).1.log
dispatch-IsPermitted_example =
    dispatch-IsPermitted (outside bypassing) config
      (screen (codes "Transmit" ∷ []) (codes "a precautionary setting"))
      (named (codes "Order Precaution Warning")) false

-- Blind trading, which nothing allows, is accepted.
manual_warning-accepted_example :
    dispatch ascii
      (screen (codes "OK" ∷ []) (codes "blind trading"))
      (named (codes "Blind Trading Warning"))
      (with_defaults (outside bare) config)
      start
    ≡ (
      handled,
      record start {
        log = clicked 7 (codes "OK") ∷ clicked 7 (codes "I understand and accept") ∷ dumped 7 ∷ [];
      },
    )
unfolding with_defaults classify_window policy_from_env is_twofa_title
manual_warning-accepted_example =
    manual_warning-accepted (outside bare) config (screen (codes "OK" ∷ []) (codes "blind trading"))
      (named (codes "Blind Trading Warning")) start refl refl refl refl refl refl refl refl

apply_api_config-Outcome_example :
    Outcome
      (screen [] [])
      (settings_from_env ascii bypassing)
      (apply_api_config ascii (screen [] []) (settings_from_env ascii bypassing) start)
apply_api_config-Outcome_example =
    apply_api_config-Outcome ascii (screen [] []) (settings_from_env ascii bypassing) false

-- The paper mode falls back on the button of the live one.
abbrev live_screen : AgentClient
live_screen = screen (codes "Log In" ∷ []) []

logs_in_live :
    (handle_login (codes "user") (codes "secret") paper live_screen (named (codes "Login")) start).0
    ≡ handled
unfolding handle_login text_eq
logs_in_live = refl

handle_login-Submits_example :
    Submits
      (codes "user")
      (codes "secret")
      paper
      live_screen
      7
      false
      (handle_login (codes "user") (codes "secret") paper live_screen (named (codes "Login")) start)
handle_login-Submits_example =
    handle_login-Submits (codes "user") (codes "secret") paper live_screen (named (codes "Login"))
      start

-- The settings are saved from Gateway's window, and the dialog that follows is answered.
saves :
    (save_tws_settings ascii
      (record (screen (codes "OK" ∷ []) []) {
        agrees = λ log r. elim r [ menu_clicked _ _ ↦ some true | _ ↦ some false ];
      })
      true
      start).1.log
    ≡ clicked 7 (codes "Yes")
      ∷ clicked 7 (codes "OK")
      ∷ windows_listed
      ∷ menu_clicked 7 (codes "File/Save Settings")
      ∷ windows_listed
      ∷ []
unfolding save_tws_settings
saves = refl

-- ===== src/Dialogs/Commands.antt =====
-- The commands of ibctl/src/state_machine/mod.rs that drive the agent: SAVESETTINGS and SETRESTART.
use ibctl.Base.{Bool, true, false, ◌||◌, Option, none, some, List, [], ◌∷◌, find, if◌then◌else◌}
use ibctl.Base.Text.{Text, codes}
use ibctl.Base.Words.{Casing, contains}
use ibctl.Machine.Handlers.{WindowInfo}
use ibctl.Dialogs.{
  AgentClient, Act, pure, ◌>>=◌, ◌>>◌, ask, list_windows, agreed, clicked, menu_clicked,
}
use ibctl.Dialogs.ApiConfig.{apply_api_config}
use ibctl.Dialogs.ApiConfig.Settings.{ApiConfigResult}
use ibctl.Dialogs.ApiConfig.Screen.{or_no_windows}

-- The first window of a list, where none is the main one.
abbrev first_of : List WindowInfo → Option WindowInfo
first_of [] = none
first_of (w ∷ _) = some w

abbrev or_first : List WindowInfo → Option WindowInfo → Option WindowInfo
or_first ws none = first_of ws
or_first ws (some w) = some w

module _ (casing : Casing) (client : AgentClient) where
  abbrev titled : Text → WindowInfo → Bool
  titled words w = contains (casing.to_lowercase w.title) words

  abbrev is_main : WindowInfo → Bool
  is_main w =
      titled (codes "ibkr gateway") w
      || titled (codes "ib gateway") w
      || titled (codes "trader workstation") w

  -- OK and Yes in every window that is not Gateway's own.
  unfoldable pub answer_dialogs : List WindowInfo → Act (Unit {0})
  unfolding ask contains ◌>>=◌
  answer_dialogs [] = pure tt
  answer_dialogs (w ∷ ws) =
      let rest = answer_dialogs ws in
      let buttons =
        ask client (clicked w.id (codes "OK")) >> ask client (clicked w.id (codes "Yes")) >> rest in
      if titled (codes "gateway") w || titled (codes "trader workstation") w then rest else buttons

  unfoldable pub dismiss_post_save_dialogs : Act (Unit {0})
  unfolding answer_dialogs list_windows ◌>>=◌
  dismiss_post_save_dialogs = list_windows client >>= λ ws. answer_dialogs (or_no_windows ws)

  -- The two spellings of the menu entry, until one was clicked.
  unfoldable pub click_save : WindowInfo → List Text → Act (Unit {0})
  unfolding dismiss_post_save_dialogs ask ◌>>=◌
  click_save w [] = pure tt
  click_save w (path ∷ paths) =
      let rest = click_save w paths in
      ask client (menu_clicked w.id path) >>= λ a.
      if agreed a then dismiss_post_save_dialogs else rest

  abbrev save_in : Option WindowInfo → Act (Unit {0})
  save_in none = pure tt
  save_in (some w) = click_save w (codes "File/Save Settings" ∷ codes "File/Save settings" ∷ [])

  abbrev save_among : Option (List WindowInfo) → Act (Unit {0})
  save_among none = pure tt
  save_among (some ws) = save_in (or_first ws (find is_main ws))

  -- By whether the JVM is running.
  unfoldable pub save_tws_settings : Bool → Act (Unit {0})
  unfolding click_save list_windows contains ◌>>=◌
  save_tws_settings false = pure tt
  save_tws_settings true = list_windows client >>= save_among

  -- `Command::SetRestartTime`: only the time of the restart is set.
  unfoldable pub set_restart_time : Text → Act ApiConfigResult
  unfolding apply_api_config
  set_restart_time time_str = apply_api_config casing client (record {
    socket_port = none;
    master_client_id = none;
    read_only_api = none;
    bypass_order_precautions = none;
    allow_blind_trading = none;
    instrument_timezone = none;
    auto_restart_time = some time_str;
    auto_logoff_time = none;
  })

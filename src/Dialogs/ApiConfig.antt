-- ===== src/Dialogs/ApiConfig.antt =====
-- ibctl/src/handlers/api_config.rs: the options of the API are set in the Gateway's dialog.
pub mod Settings
pub mod Screen
pub mod Pages
pub mod Marks
pub mod Counts
pub mod Asked
pub mod Quiet
pub mod Saved
use ibctl.Base.{
  ℕ, zero, suc, ◌+◌, ◌-◌, ◌/◌, ◌^◌, Bool, true, false, not, ◌&&◌, ◌||◌, Option, none, some, List,
  [], ◌∷◌, find, is_some, leb, length, ◌==◌, if◌then◌else◌,
}
use ibctl.Base.Int.{ℤ, pos, negsuc}
use ibctl.Base.Text.{Text, codes, text_eq}
use ibctl.Base.Decimal.{decimal, parse_below}
use ibctl.Base.Words.{Casing, contains, contains_any, split_whitespace}
use ibctl.Config.{Environment}
use ibctl.Machine.Events.{EventBounds}
use ibctl.Machine.Json.{optional}
use ibctl.Machine.Handlers.{WindowInfo}
use ibctl.Dialogs.{
  AgentClient, Act, clicked, menu_clicked, node_selected, typed, typed_by_label, chosen, checked,
  clicked_at, pure, ◌>>=◌, ◌>>◌, ask, agreed, list_windows,
}
use ibctl.Dialogs.ApiConfig.Settings.{
  ApiConfigReport, ApiConfigResult, ApiConfigSettings, env_bool, has_settings, is_missing,
  precaution_labels, settings_from_env, applied, failed,
}
use ibctl.Dialogs.ApiConfig.Screen.{
  click_center, click_each, click_first_window, dismiss_popups, found_or, half_or, is_configuration,
  is_gateway, open_config, open_menu, or_no_windows, poll, save_and_close, sweep, sweep_rest,
}
use ibctl.Dialogs.ApiConfig.Pages.{
  apply_precaution_labels, parse_time_with_ampm, set_client_id, set_port, set_precautions,
  set_read_only, set_times, set_timezone,
}

abbrev pub or_failed : Text → Option Bool → Act ApiConfigResult → Act ApiConfigResult
or_failed message none next = pure (failed message)
or_failed message (some _) next = next

unfoldable pub change_settings : AgentClient → ApiConfigSettings → ℕ → Act ApiConfigReport
unfolding set_port set_client_id set_read_only set_timezone set_precautions set_times ◌>>=◌
change_settings client s cid = do
  set_port client cid s.socket_port
  set_client_id client cid s.master_client_id
  read_only ← set_read_only client cid s.read_only_api
  set_timezone client cid s.instrument_timezone
  missing ← set_precautions client cid s.bypass_order_precautions
  set_times client cid s.auto_restart_time s.auto_logoff_time
  pure (record { precaution_labels_not_found = missing; read_only_api_label_not_found = read_only })

unfoldable pub set_and_close : AgentClient → ApiConfigSettings → ℕ → Act ApiConfigResult
unfolding change_settings save_and_close ◌>>=◌
set_and_close client s cid = do
  report ← change_settings client s cid
  save_and_close client cid
  pure (applied report)

-- The `?` on the nodes of the tree; the text of the agent's error is left out.
unfoldable pub in_api : AgentClient → ApiConfigSettings → ℕ → Act ApiConfigResult
unfolding set_and_close ask ◌>>=◌
in_api client s cid = do
  node ← ask client (node_selected cid (codes "Settings"))
  or_failed (codes "Failed to navigate to API/Settings") node (set_and_close client s cid)

unfoldable pub configure : AgentClient → ApiConfigSettings → ℕ → Act ApiConfigResult
unfolding in_api ask ◌>>=◌
configure client s cid = do
  api ← ask client (node_selected cid (codes "API"))
  or_failed (codes "Failed to select API") api (in_api client s cid)

abbrev pub in_dialog : AgentClient → ApiConfigSettings → Option WindowInfo → Act ApiConfigResult
in_dialog client s none = pure (failed (codes "Configuration dialog not found after 3 attempts"))
in_dialog client s (some w) = configure client s w.id

module _ (casing : Casing) (client : AgentClient) (s : ApiConfigSettings) where
  abbrev pub in_gateway : Option WindowInfo → Act ApiConfigResult
  in_gateway none = pure (failed (codes "Main Gateway window not found — cannot apply API config"))
  in_gateway (some main) = open_config casing client main 3 >>= in_dialog client s

  abbrev pub in_windows : Option (List WindowInfo) → Act ApiConfigResult
  in_windows none = pure (failed (codes "Failed to list windows"))
  in_windows (some ws) = in_gateway (find (is_gateway casing) ws)

  unfoldable pub apply_api_config : Act ApiConfigResult
  unfolding open_config configure list_windows ◌>>=◌
  apply_api_config =
      if has_settings s
      then (list_windows client >>= in_windows)
      else pure
          (applied (record { precaution_labels_not_found = 0; read_only_api_label_not_found = 0 }))

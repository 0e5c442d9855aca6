-- ===== src/Dialogs/ApiConfig/Quiet.antt =====
-- ibctl/src/handlers/api_config.rs: the dialog is opened and closed by requests that set no option.
use ibctl.Base.{
  ℕ, zero, suc, ◌≡◌, refl, false, Option, none, some, List, [], ◌∷◌, length, leb, find,
}
use ibctl.Base.Text.{Text, codes}
use ibctl.Base.Words.{Casing}
use ibctl.Machine.Handlers.{WindowInfo}
use ibctl.Dialogs.{Request, AgentClient, Act, clicked, windows_listed, ask, list_windows}
use ibctl.Dialogs.Keeps.{
  Keeps, Grows, Keeps-pure, Keeps-bind, Keeps-if, Keeps-ask, Keeps-list_windows,
}
use ibctl.Dialogs.ApiConfig.Marks.{sets}
use ibctl.Dialogs.ApiConfig.Screen.{
  click_center, found_or, open_menu, poll, open_config, click_each, sweep_rest, click_first_window,
  or_no_windows, is_configuration,
}

module _ {I : List Request → Type 0} (quiet : (r : Request) → sets r ≡ false → Grows I r) where
  pub ask_quiet : (client : AgentClient) (r : Request) → sets r ≡ false → Keeps I (ask client r)
  ask_quiet client r e = Keeps-ask client r (quiet r e)

  pub list_quiet : (client : AgentClient) → Keeps I (list_windows client)
  list_quiet client = Keeps-list_windows client (quiet windows_listed refl)

  ruleset quiet_rules = (Keeps-pure, Keeps-bind, Keeps-if, ask_quiet, list_quiet)

  Keeps-click_center : (client : AgentClient) (w : WindowInfo) → Keeps I (click_center client w)
  unfolding click_center
  Keeps-click_center client w = search quiet_rules

  Keeps-found_or :
      (rest : Act (Option WindowInfo)) (w : Option WindowInfo)
      → Keeps I rest
      → Keeps I (found_or rest w)
  Keeps-found_or rest none k = k
  Keeps-found_or rest (some w) k = Keeps-pure _

  Keeps-poll : (casing : Casing) (client : AgentClient) (n : ℕ) → Keeps I (poll casing client n)
  unfolding poll
  Keeps-poll casing client zero = search quiet_rules
  Keeps-poll casing client (suc n) = Keeps-bind (list_windows client) _ (list_quiet client) (λ ws.
      Keeps-found_or _ (find (is_configuration casing) (or_no_windows ws))
        (Keeps-poll casing client n))

  Keeps-open_menu : (client : AgentClient) (id : ℕ) → Keeps I (open_menu client id)
  unfolding open_menu
  Keeps-open_menu client id = search quiet_rules

  pub Keeps-open_config :
      (casing : Casing) (client : AgentClient) (main : WindowInfo) (n : ℕ)
      → Keeps I (open_config casing client main n)
  unfolding open_config
  Keeps-open_config casing client main zero = search quiet_rules
  Keeps-open_config casing client main (suc n) =
      Keeps-bind _ _
        (Keeps-bind _ _ (Keeps-open_menu client main.id) (λ _. Keeps-poll casing client 20))
        (λ w. Keeps-found_or _ w (
          Keeps-bind _ _ (Keeps-click_center client main)
            (λ _. Keeps-open_config casing client main n)))

  Keeps-click_each :
      (client : AgentClient) (label : Text) (ws : List WindowInfo)
      → Keeps I (click_each client label ws)
  unfolding click_each
  Keeps-click_each client label [] = search quiet_rules
  Keeps-click_each client label (w ∷ ws) =
      Keeps-bind _ _ (ask_quiet client (clicked w.id label) refl)
        (λ _. Keeps-click_each client label ws)

  pub Keeps-sweep_rest : (client : AgentClient) (n : ℕ) → Keeps I (sweep_rest client n)
  unfolding sweep_rest
  Keeps-sweep_rest client zero = search quiet_rules
  Keeps-sweep_rest client (suc n) = Keeps-bind (list_windows client) _ (list_quiet client) (λ ws.
      Keeps-if (leb (length (or_no_windows ws)) 1) _ _ (Keeps-pure tt) (
        Keeps-bind _ _ (Keeps-click_each client (codes "OK") (or_no_windows ws))
          (λ _. Keeps-sweep_rest client n)))

  pub Keeps-click_first_window :
      (client : AgentClient) (ws : List WindowInfo) → Keeps I (click_first_window client ws)
  Keeps-click_first_window client [] = Keeps-pure tt
  Keeps-click_first_window client (w ∷ ws) =
      Keeps-bind _ _ (Keeps-click_center client w) (λ _. Keeps-pure tt)

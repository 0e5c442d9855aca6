-- ===== src/Machine/Handlers/Popups.antt =====
-- `do_handle_session_conflict`, `do_dismiss_popups`, `do_wait_for_api_ready` and `do_configure_api`
-- of ibctl/src/state_machine/mod.rs.
use ibctl.Base.{
  ℕ, ◌+◌, ◌-◌, Bool, true, false, not, Option, none, some, List, [], ◌∷◌, ◌++◌, ltb, leb,
  if◌then◌else◌,
}
use ibctl.Base.Text.{codes}
use ibctl.Base.Words.{Casing, contains}
use ibctl.Machine.State.{
  State, state_eq, waiting_for_login, dismissing_popups, waiting_for2fa, handling_session_conflict,
  restarting, reconnecting_session, waiting_for_api_ready, configuring_api, connected, error,
}
use ibctl.Machine.Lifecycle.{StateMachine}
use ibctl.Machine.Events.{
  Effect, reset_handlers, clicked, dispatched, has_relogin_dialog, has_session_conflict,
  has_2fa_dialog, has_login_form,
}
use ibctl.Machine.Json.{
  Json, components_have_login_form, components_indicate_connected, components_indicate_disconnected,
}
use ibctl.Machine.Handlers.{
  WindowInfo, Agent, Settings, Tick, Dispatched, unmatched, failed, goes, fails, doing, secs,
  entered_over, check_blocking_dialog, is_gateway_title, conflict_window, gateway_window,
}

abbrev max_config_retries : ℕ
max_config_retries = 3

-- What a registry that is asked for the window does: `Some(Ok(_))` is an answer.
abbrev is_answer : Dispatched → Bool
is_answer unmatched = false
is_answer failed = false
is_answer _ = true

-- The windows in turn, whether one was answered.
abbrev some_answered : (ℕ → Dispatched) → List WindowInfo → Bool
some_answered dispatch [] = false
some_answered dispatch (w ∷ ws) =
    let rest = some_answered dispatch ws in if is_answer (dispatch w.id) then true else rest

abbrev found_popup : Agent → Option (List WindowInfo) → Bool
found_popup agent none = false
found_popup agent (some windows) = some_answered agent.dispatch windows

abbrev since : ℕ → Option ℕ → ℕ
since entered none = entered
since entered (some t) = t

-- What the Gateway windows show of the API server, in turn.
pub data ApiStatus : Type 0 where
  ready : ApiStatus
  not_ready : Bool → ApiStatus  -- whether the last row read is an explicit disconnection

module _ (casing : Casing) where
  -- `dismiss_menus`
  abbrev escape : Option (List WindowInfo) → List Effect
  escape none = []
  escape (some windows) = elim (gateway_window casing windows) [
    | none ↦ []
    | some win ↦ clicked win.id (codes "escape") ∷ []
  ]

  unfoldable pub inspect : (ℕ → Option Json) → Bool → List WindowInfo → ApiStatus
  unfolding contains components_have_login_form components_indicate_connected
      components_indicate_disconnected
  inspect dump disconnected [] = not_ready disconnected
  inspect dump disconnected (w ∷ ws) =
      let kept = inspect dump disconnected ws in
      if not (is_gateway_title casing w.title) then kept else elim (dump w.id) [
        | none ↦ kept
        | some components ↦
            if components_have_login_form components
            then not_ready disconnected
            else if components_indicate_connected casing components
            then ready
            else inspect dump (components_indicate_disconnected casing components) ws
      ]

  unfoldable pub api_status : Agent → Option (List WindowInfo) → ApiStatus
  unfolding inspect
  api_status agent none = not_ready false
  api_status agent (some windows) = inspect (agent.dump_components 0) false windows

abbrev asked : Option WindowInfo → List Effect
asked none = []
asked (some win) = dispatched [] win.id ∷ []

module _ (casing : Casing) {Zoned : Type 0} where
  unfoldable pub do_handle_session_conflict : Agent → StateMachine Zoned → Tick Zoned
  unfolding contains
  do_handle_session_conflict agent m = elim (agent.list_windows 0) [
    | none ↦ fails m
    | some windows ↦ doing (asked (conflict_window casing windows)) (goes m dismissing_popups)
  ]

  -- The dialogs that the observation or an unsynced poll shows, and whether the handlers are reset.
  unfoldable pub popup_dialog : Agent → StateMachine Zoned → Option (State × Bool)
  unfolding has_2fa_dialog has_relogin_dialog has_session_conflict check_blocking_dialog state_eq
  popup_dialog agent m =
      if has_2fa_dialog casing m.observation
      then some (waiting_for2fa, false)
      else if has_relogin_dialog casing m.observation
      then some (reconnecting_session, true)
      else if has_session_conflict casing m.observation
      then some (handling_session_conflict, true)
      else if m.observation.synced
      then none
      else elim (check_blocking_dialog casing (agent.list_windows 0)) [
        | none ↦ none
        | some next_state ↦ some (next_state, not (state_eq next_state waiting_for2fa))
      ]

  -- One pass over the windows, and the quiet time of five seconds, thirty at most.
  unfoldable pub dismiss : Agent → ℕ → StateMachine Zoned → Tick Zoned
  dismiss agent now m =
      if found_popup agent (agent.list_windows 1)
      then (let m' = record m { popup_last_dismissed = some now } in
          if entered_over now 30 m
          then goes m' waiting_for_api_ready
          else goes m' dismissing_popups)
      else if ltb (secs 5) (now - since m.state_entered_at m.popup_last_dismissed)
      then goes m waiting_for_api_ready
      else if entered_over now 30 m
      then goes m waiting_for_api_ready
      else goes m dismissing_popups

  unfoldable pub do_dismiss_popups : Agent → ℕ → StateMachine Zoned → Tick Zoned
  unfolding popup_dialog dismiss
  do_dismiss_popups agent now m =
      if not agent.is_running
      then goes m (error (codes "JVM exited during popup dismissal"))
      else elim (popup_dialog agent m) [
        | some (next_state, resets) ↦
            doing (if resets then reset_handlers ∷ [] else []) (goes m next_state)
        | none ↦ dismiss agent now m
      ]

  -- Not ready within the time: a restart. A session that says it is disconnected gets longer.
  unfoldable pub still_waiting : Settings → ℕ → Bool → StateMachine Zoned → Tick Zoned
  still_waiting config now disconnected m =
      if entered_over now (if disconnected then config.api_disconnected_grace_secs else 120) m
      then goes (record m { session = record m.session { client_id_task = false } }) restarting
      else goes m waiting_for_api_ready

  unfoldable pub do_wait_for_api_ready : Agent → Settings → ℕ → StateMachine Zoned → Tick Zoned
  unfolding has_2fa_dialog has_relogin_dialog has_session_conflict has_login_form
      check_blocking_dialog api_status still_waiting
  do_wait_for_api_ready agent config now m =
      if not agent.is_running
      then goes m restarting
      else if has_2fa_dialog casing m.observation
      then goes m waiting_for2fa
      else if has_relogin_dialog casing m.observation
      then goes m reconnecting_session
      else if has_session_conflict casing m.observation
      then goes m handling_session_conflict
      else if has_login_form casing m.observation
      then goes m waiting_for_login
      else elim (check_blocking_dialog casing (agent.list_windows 0)) [
        | some next_state ↦ goes m next_state
        | none ↦ elim (api_status casing agent (agent.list_windows 1)) [
          | ready ↦ goes m configuring_api
          | not_ready disconnected ↦ still_waiting config now disconnected m
        ]
      ]

  -- The dialog is driven, three times at most; the menus are closed before it and after a failure.
  unfoldable pub do_configure_api : Agent → StateMachine Zoned → Tick Zoned
  unfolding check_blocking_dialog contains
  do_configure_api agent m =
      let first = escape casing (agent.list_windows 0) in
      elim (check_blocking_dialog casing (agent.list_windows 1)) [
        | some next_state ↦ doing first (goes (record m { config_retries = 0 }) next_state)
        | none ↦
            if not agent.is_running
            then doing first (goes (record m { config_retries = 0 }) restarting)
            else if agent.apply_api_config
            then doing first (goes (record m { config_retries = 0 }) connected)
            else if leb max_config_retries (m.config_retries + 1)
            then doing (first ++ escape casing (agent.list_windows 2)) (
                goes
                  (record m {
                    config_retries = 0;
                    session = record m.session { client_id_task = false };
                  })
                  restarting)
            else doing (first ++ escape casing (agent.list_windows 2))
                (goes (record m { config_retries = m.config_retries + 1 }) configuring_api)
      ]

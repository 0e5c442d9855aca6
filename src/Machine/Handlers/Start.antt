-- ===== src/Machine/Handlers/Start.antt =====
-- `do_waiting_for_launch`, `do_init`, `do_launch`, `do_wait_for_agent` and `do_wait_for_login` of
-- ibctl/src/state_machine/mod.rs.
use ibctl.Base.{
  ℕ, ◌+◌, Bool, true, false, not, ◌&&◌, Option, none, some, List, [], ◌∷◌, ◌++◌, ltb, any, is_some,
  if◌then◌else◌,
}
use ibctl.Base.Int.{ℤ, pos, negsuc}
use ibctl.Base.Text.{codes}
use ibctl.Base.Words.{Casing, contains}
use ibctl.Machine.State.{
  State, waiting_for_launch, launching, waiting_for_agent, waiting_for_login, dismissing_popups,
  authenticating, handling_session_conflict, waiting_for2fa, reconnecting_session, error,
}
use ibctl.Machine.Lifecycle.{StateMachine, AgentObservation, ObservedWindow}
use ibctl.Machine.Events.{
  launched, EventBounds, main_gateway_window, has_session_conflict, has_2fa_dialog,
  has_relogin_dialog,
}
use ibctl.Machine.Json.{Json, components_have_login_form}
use ibctl.Machine.Handlers.{
  WindowInfo, Agent, Settings, Tick, goes, fails, doing, entered_over, is_gateway_title,
  check_blocking_dialog, gateway_window, conflict_window,
}

abbrev is_healthy : Option Bool → Bool
is_healthy none = false
is_healthy (some healthy) = healthy

module _ {Zoned : Type 0} where
  unfoldable pub do_waiting_for_launch : StateMachine Zoned → Tick Zoned
  do_waiting_for_launch m = goes m waiting_for_launch

  unfoldable pub do_init : Settings → StateMachine Zoned → Tick Zoned
  do_init config m =
      if not config.tws_path_exists
      then goes m (error (codes "TWS path does not exist: " ++ config.tws_path))
      else goes m launching

  -- Warm with the captured hash, if there is one.
  unfoldable pub do_launch : Agent → StateMachine Zoned → Tick Zoned
  do_launch agent m =
      if agent.launch m.warm_restart_pending
      then doing (launched m.warm_restart_pending ∷ []) (goes m waiting_for_agent)
      else fails m

  unfoldable pub do_wait_for_agent : Agent → ℕ → StateMachine Zoned → Tick Zoned
  do_wait_for_agent agent now m =
      if not agent.is_running
      then goes m (error (codes "JVM process exited before agent became ready"))
      else if is_healthy agent.health
      then goes m waiting_for_login
      else if entered_over now 60 m
      then goes m (error (codes "Timed out waiting for agent health check"))
      else goes m waiting_for_agent

abbrev wider : ℤ → ℕ → Bool
wider (pos n) m = ltb m n
wider (negsuc n) m = false

abbrev is_wide : Option EventBounds → Bool
is_wide none = false
is_wide (some b) = wider b.width 400

abbrev or_no_windows : Option (List WindowInfo) → List WindowInfo
or_no_windows none = []
or_no_windows (some windows) = windows

module _ (casing : Casing) where
  -- The main trading window of a Gateway that has logged itself in.
  abbrev pub is_trading_window : WindowInfo → Bool
  is_trading_window w =
      is_gateway_title casing w.title
      && not (contains (casing.to_lowercase w.title) (codes "login"))
      && not (contains (casing.to_lowercase w.title) (codes "configuration"))
      && is_wide w.bounds

  abbrev main_state : ObservedWindow → State
  main_state main = if main.has_login_button then authenticating else dismissing_popups

  -- What the observation says, if it is synced.
  unfoldable pub observed_login : AgentObservation → Option State
  unfolding has_session_conflict has_2fa_dialog has_relogin_dialog main_gateway_window
  observed_login o =
      if not o.synced
      then none
      else if has_session_conflict casing o
      then some handling_session_conflict
      else if has_2fa_dialog casing o
      then some waiting_for2fa
      else if has_relogin_dialog casing o
      then some reconnecting_session
      else elim (main_gateway_window casing o) [ none ↦ none | some main ↦ some (main_state main) ]

  -- A dump that fails counts as a login form here.
  abbrev shows_login : Option Json → Bool
  shows_login none = true
  shows_login (some components) = components_have_login_form components

  abbrev gateway_login : Agent → Option WindowInfo → Option State
  gateway_login agent none = none
  gateway_login agent (some main) =
      some (
        if shows_login (agent.dump_components 0 main.id) then authenticating else dismissing_popups)

  abbrev listed_login : Agent → Option (List WindowInfo) → Option State
  listed_login agent none = none
  listed_login agent (some windows) =
      if is_some (conflict_window casing windows)
      then some handling_session_conflict
      else gateway_login agent (gateway_window casing windows)

  -- What the agent's lists say, if the observation is not synced.
  unfoldable pub polled_login : Agent → ℕ → AgentObservation → Option State
  unfolding check_blocking_dialog components_have_login_form contains
  polled_login agent call o =
      if o.synced then none else elim (check_blocking_dialog casing (agent.list_windows call)) [
        | some next_state ↦ some next_state
        | none ↦ listed_login agent (agent.list_windows (call + 1))
      ]

  module _ {Zoned : Type 0} where
    -- The cold path, with the calls of `list_windows` so far.
    unfoldable pub cold_login : Agent → Settings → ℕ → ℕ → StateMachine Zoned → Tick Zoned
    unfolding observed_login polled_login
    cold_login agent config now call m =
        if not agent.is_running
        then goes m (error (codes "JVM process exited while waiting for login window"))
        else elim (observed_login m.observation) [
          | some next_state ↦ goes m next_state
          | none ↦ elim (polled_login agent call m.observation) [
            | some next_state ↦ goes m next_state
            | none ↦
                if ltb 0 config.login_dialog_timeout_secs
                  && entered_over now config.login_dialog_timeout_secs m
                then goes m (error (codes "Timed out waiting for login window"))
                else goes m waiting_for_login
          ]
        ]

    abbrev cold : StateMachine Zoned → StateMachine Zoned
    cold m = record m { warm_restart_pending = none }

    -- The warm path: the login window is left alone, for two minutes.
    unfoldable pub do_wait_for_login : Agent → Settings → ℕ → StateMachine Zoned → Tick Zoned
    unfolding cold_login contains
    do_wait_for_login agent config now m =
        if not (is_some m.warm_restart_pending)
        then cold_login agent config now 0 m
        else if not agent.is_running
        then goes (cold m) (error (codes "JVM exited during warm restart login"))
        else if any is_trading_window (or_no_windows (agent.list_windows 0))
        then goes (cold m) dismissing_popups
        else if entered_over now 120 m
        then cold_login agent config now 1
            (record m { warm_restart_pending = none; state_entered_at = now })
        else goes m waiting_for_login

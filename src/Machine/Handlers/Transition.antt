-- ===== src/Machine/Handlers/Transition.antt =====
-- `transition` of ibctl/src/state_machine/mod.rs, one turn of its loop, and the gates of IB's system
-- status and of the start.
use ibctl.Base.{ℕ, ◌-◌, Bool, true, false, not, ◌&&◌, ◌||◌, none, some, [], ltb, if◌then◌else◌}
use ibctl.Base.Text.{codes}
use ibctl.Base.Words.{Casing}
use ibctl.Machine.State.{
  State, state_eq, waiting_for_launch, init, launching, waiting_for_agent, waiting_for_login,
  authenticating, waiting_for2fa, handling_session_conflict, dismissing_popups,
  waiting_for_api_ready, configuring_api, connected, reconnecting_session, restarting,
  waiting_for_ib, waiting_for_hitl2fa, shutdown, error,
}
use ibctl.Machine.Lifecycle.{StateMachine, Env, record_transition, apply_transition}
use ibctl.Machine.Handlers.{Agent, Settings, Tick, goes, secs}
use ibctl.Machine.Handlers.Start.{
  do_waiting_for_launch, do_init, do_launch, do_wait_for_agent, do_wait_for_login,
}
use ibctl.Machine.Handlers.Login.{do_authenticate}
use ibctl.Machine.Handlers.TwoFactor.{do_wait_for_2fa}
use ibctl.Machine.Handlers.Popups.{
  do_handle_session_conflict, do_dismiss_popups, do_wait_for_api_ready, do_configure_api,
}
use ibctl.Machine.Handlers.Connected.{do_connected}
use ibctl.Machine.Handlers.Recover.{do_reconnecting_session, do_restart, do_waiting_for_ib}
use ibctl.Machine.Handlers.Hitl.{do_waiting_for_hitl_2fa}

abbrev stays : State → Bool
stays waiting_for_ib = true
stays shutdown = true
stays waiting_for_launch = true
stays _ = false

abbrev is_post_auth : State → Bool
is_post_auth connected = true
is_post_auth dismissing_popups = true
is_post_auth waiting_for_api_ready = true
is_post_auth configuring_api = true
is_post_auth _ = false

module _ (casing : Casing) {Zoned : Type 0} where
  unfoldable pub transition_from : State → Agent → Settings → ℕ → StateMachine Zoned → Tick Zoned
  unfolding do_waiting_for_launch do_init do_launch do_wait_for_agent do_wait_for_login
      do_authenticate do_wait_for_2fa do_handle_session_conflict do_dismiss_popups
      do_wait_for_api_ready do_configure_api do_connected do_reconnecting_session do_restart
      do_waiting_for_ib do_waiting_for_hitl_2fa
  transition_from waiting_for_launch agent config now m = do_waiting_for_launch m
  transition_from init agent config now m = do_init config m
  transition_from launching agent config now m = do_launch agent m
  transition_from waiting_for_agent agent config now m = do_wait_for_agent agent now m
  transition_from waiting_for_login agent config now m = do_wait_for_login casing agent config now m
  transition_from authenticating agent config now m = do_authenticate casing agent now m
  transition_from waiting_for2fa agent config now m = do_wait_for_2fa casing agent config now m
  transition_from handling_session_conflict agent config now m =
      do_handle_session_conflict casing agent m
  transition_from dismissing_popups agent config now m = do_dismiss_popups casing agent now m
  transition_from waiting_for_api_ready agent config now m =
      do_wait_for_api_ready casing agent config now m
  transition_from configuring_api agent config now m = do_configure_api casing agent m
  transition_from connected agent config now m = do_connected casing agent config now m
  transition_from reconnecting_session agent config now m =
      do_reconnecting_session casing agent config now m
  transition_from restarting agent config now m = do_restart config now m
  transition_from waiting_for_ib agent config now m = do_waiting_for_ib m
  transition_from waiting_for_hitl2fa agent config now m =
      do_waiting_for_hitl_2fa casing agent config now m
  transition_from shutdown agent config now m = goes m shutdown
  transition_from (error msg) agent config now m = goes m (error msg)

  unfoldable pub transition : Agent → Settings → ℕ → StateMachine Zoned → Tick Zoned
  unfolding transition_from
  transition agent config now m = transition_from m.state agent config now m

module _ {Zoned : Type 0} where
  -- A state other than the present one is entered.
  unfoldable pub enter : Env → State → StateMachine Zoned → StateMachine Zoned
  unfolding apply_transition state_eq
  enter env next m = if state_eq next m.state then m else apply_transition env next m

  -- An unavailability of more than ten minutes that no one has confirmed ends.
  unfoldable pub check_ib_status_ttl : ℕ → StateMachine Zoned → StateMachine Zoned
  check_ib_status_ttl now m = elim m.ib_status.last_updated [
    | none ↦ m
    | some last ↦
        if ltb (secs 600) (now - last) && not m.ib_status.available
        then record m {
          ib_status = record m.ib_status {
            available = true;
            status = codes "available";
            reason = [];
          };
        }
        else m
  ]

  unfoldable pub check_ib_system_availability : Env → Bool → StateMachine Zoned → StateMachine Zoned
  unfolding record_transition
  check_ib_system_availability env kick_active_session m =
      if m.ib_status.available || stays m.state || (is_post_auth m.state && not kick_active_session)
      then m
      else record m {
        ib_status = record m.ib_status { return_state = some m.state };
        state = waiting_for_ib;
        transition_history =
            record_transition env.chrono_timestamp m.state waiting_for_ib m.transition_history;
      }

  -- The gates before the loop: no automatic launch, and a recovery that waits for a resume.
  unfoldable pub start_gates : Env → Bool → Bool → StateMachine Zoned → StateMachine Zoned
  unfolding record_transition state_eq
  start_gates env auto_launch blocked_awaiting_resume m =
      let m' =
        if not auto_launch && state_eq m.state init
        then record m { state = waiting_for_launch }
        else m in
      if blocked_awaiting_resume && not (state_eq m'.state waiting_for_launch)
      then record m' {
        state = waiting_for_launch;
        transition_history =
            record_transition env.chrono_timestamp m'.state waiting_for_launch
              m'.transition_history;
      }
      else m'

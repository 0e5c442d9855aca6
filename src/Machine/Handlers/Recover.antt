-- ===== src/Machine/Handlers/Recover.antt =====
-- `do_reconnecting_session`, `do_restart`, `do_waiting_for_ib` and `do_waiting_for_hitl_2fa` of
-- ibctl/src/state_machine/mod.rs, and its checks of IB's system status.
use ibctl.Base.{
  ℕ, ◌+◌, ◌-◌, ◌*◌, ◌^◌, Bool, false, not, ◌&&◌, ◌||◌, Option, none, some, List, [], ◌∷◌, ◌++◌, ltb,
  leb, min, any, find, is_some, if◌then◌else◌,
}
use ibctl.Base.Text.{codes}
use ibctl.Base.Words.{Casing, contains, contains_any}
use ibctl.Machine.State.{
  State, init, launching, waiting_for_login, waiting_for2fa, restarting, reconnecting_session,
  connected, waiting_for_ib, shutdown,
}
use ibctl.Machine.Lifecycle.{StateMachine}
use ibctl.Machine.Events.{
  Effect, reset_handlers, clicked, killed, has_2fa_dialog, has_login_form, is_twofa_title,
}
use ibctl.Machine.Json.{Json, components_have_login_form, components_confirm_authenticated}
use ibctl.Machine.Handlers.{
  WindowInfo, Agent, Settings, Tick, restart, reauth, goes, doing, secs, gateway_window,
}
use ibctl.Machine.Handlers.TwoFactor.{some_gateway, shows_form}

abbrev pub confirms : Casing → Option Json → Bool
confirms casing none = false
confirms casing (some components) = components_confirm_authenticated casing components

abbrev pub or_no_windows : Option (List WindowInfo) → List WindowInfo
or_no_windows none = []
or_no_windows (some windows) = windows

module _ (casing : Casing) where
  -- The titles that this handler takes for the dialog: "relogin" is not among them.
  abbrev pub is_relogin_dialog : WindowInfo → Bool
  is_relogin_dialog w =
      contains_any (casing.to_lowercase w.title) (codes "re-login" ∷ codes "login is required" ∷ [])

  abbrev cancels : List WindowInfo → List Effect
  cancels [] = []
  cancels (w ∷ ws) =
      let rest = cancels ws in
      if is_relogin_dialog w then clicked w.id (codes "Cancel") ∷ rest else rest

module _ (casing : Casing) {Zoned : Type 0} where
  abbrev no_attempts : StateMachine Zoned → StateMachine Zoned
  no_attempts m = record m { relogin_attempts = 0 }

  abbrev given_up : StateMachine Zoned → StateMachine Zoned
  given_up m = record m {
    relogin_attempts = 0;
    session = record m.session { client_id_task = false };
  }

  -- Where a re-login that failed too often goes.
  unfoldable pub fallback : Agent → Settings → StateMachine Zoned → State
  unfolding has_login_form contains
  fallback agent config m = elim config.relogin_failure_action [
    | restart ↦ restarting
    | reauth ↦
        if has_login_form casing m.observation
        then waiting_for_login
        else if is_some (gateway_window casing (or_no_windows (agent.list_windows 1)))
        then waiting_for_login
        else restarting
  ]

  -- The dialog is gone: the Gateway windows decide.
  unfoldable pub verify_relogin : Agent → StateMachine Zoned → Tick Zoned
  unfolding has_2fa_dialog is_twofa_title some_gateway components_confirm_authenticated
      components_have_login_form
  verify_relogin agent m =
      let windows = or_no_windows (agent.list_windows 1) in
      if has_2fa_dialog casing m.observation || any (λ w. is_twofa_title casing w.title) windows
      then doing (reset_handlers ∷ []) (goes (no_attempts m) waiting_for2fa)
      else if some_gateway casing shows_form (agent.dump_components 0) windows
      then doing (reset_handlers ∷ []) (goes (no_attempts m) waiting_for_login)
      else if some_gateway casing (confirms casing) (agent.dump_components 0) windows
      then goes (no_attempts m) connected
      else goes m reconnecting_session

  unfoldable pub relogin : Agent → StateMachine Zoned → Option (List WindowInfo) → Tick Zoned
  unfolding verify_relogin contains
  relogin agent m none = goes m reconnecting_session
  relogin agent m (some windows) = elim (find (is_relogin_dialog casing) windows) [
    | none ↦ verify_relogin agent m
    | some d ↦
        doing (clicked d.id (codes "Re-login") ∷ reset_handlers ∷ []) (goes m waiting_for_login)
  ]

  unfoldable pub do_reconnecting_session : Agent → Settings → ℕ → StateMachine Zoned → Tick Zoned
  unfolding fallback relogin contains
  do_reconnecting_session agent config now m =
      if not agent.is_running
      then doing (reset_handlers ∷ []) (goes (given_up m) restarting)
      else if ltb config.relogin_max_attempts m.relogin_attempts
      then doing (cancels casing (or_no_windows (agent.list_windows 0)) ++ (reset_handlers ∷ []))
          (goes (given_up m) (fallback agent config m))
      else if ltb (now - m.state_entered_at) (secs 30)
      then goes m reconnecting_session
      else relogin agent m (agent.list_windows 0)

module _ {Zoned : Type 0} where
  -- The delay before a restart: doubled for each restart in a row, four times at most.
  unfoldable pub restart_delay : Settings → StateMachine Zoned → ℕ
  restart_delay config m =
      if is_some m.warm_restart_pending
      then 0
      else min (min (config.restart_delay_secs * 2 ^ min m.consecutive_jvm_restarts 4) (2 ^ 64 - 1))
          900

  abbrev pub restarts_after : StateMachine Zoned → ℕ
  restarts_after m =
      if is_some m.warm_restart_pending
      then m.consecutive_jvm_restarts
      else min (m.consecutive_jvm_restarts + 1) (2 ^ 32 - 1)

  -- The whole seconds since the state was entered are below the delay.
  unfoldable pub do_restart : Settings → ℕ → StateMachine Zoned → Tick Zoned
  unfolding restart_delay
  do_restart config now m =
      if ltb (now - m.state_entered_at) (secs (restart_delay config m))
      then goes m restarting
      else if not (is_some m.warm_restart_pending)
          && ltb 0 config.exit_threshold
          && leb config.exit_threshold (restarts_after m)
      then goes (record m { consecutive_jvm_restarts = restarts_after m }) shutdown
      else doing (killed ∷ reset_handlers ∷ []) (
          goes
            (record m {
              consecutive_jvm_restarts = restarts_after m;
              session = record m.session { client_id_task = false; socat_process = false };
            })
            launching)

  unfoldable pub do_waiting_for_ib : StateMachine Zoned → Tick Zoned
  do_waiting_for_ib m =
      if not m.ib_status.available then goes m waiting_for_ib else elim m.ib_status.return_state [
        | some return_state ↦
            goes (record m { ib_status = record m.ib_status { return_state = none } }) return_state
        | none ↦ goes m init
      ]

-- ===== src/Machine/Handlers/TwoFactor.antt =====
-- `do_wait_for_2fa` of ibctl/src/state_machine/mod.rs.
pub mod Laws
use ibctl.Base.{
  ℕ, ◌+◌, ◌-◌, Bool, true, false, not, ◌&&◌, ◌||◌, Option, none, some, List, [], ◌∷◌, ◌++◌, map,
  min, ◌^◌, ltb, leb, find, is_some, if◌then◌else◌,
}
use ibctl.Base.Int.{ℤ, pos, negsuc}
use ibctl.Base.Text.{Text, codes}
use ibctl.Base.Words.{Casing, contains, ascii_lower}
use ibctl.Machine.State.{
  State, state_eq, waiting_for_login, dismissing_popups, waiting_for2fa, handling_session_conflict,
  restarting, waiting_for_hitl2fa, shutdown, error,
}
use ibctl.Machine.Lifecycle.{StateMachine}
use ibctl.Machine.Events.{
  Effect, reset_handlers, dispatched, clicked, EventBounds, is_twofa_title, has_relogin_dialog,
  has_session_conflict,
}
use ibctl.Machine.Json.{Json, components_have_login_form, looks_like_twofa_components}
use ibctl.Machine.Handlers.{
  WindowInfo, Agent, Settings, Tick, Dispatched, handled, TwoFaOnTimeout, restart_forever,
  hitl_immediately, restart_then_hitl, goes, fails, doing, secs, entered_over,
  check_blocking_dialog, is_gateway_title, conflict_window,
}
use ibctl.Machine.Handlers.Login.{wait_for_observed_twofa_retry, backs_off}

abbrev at_least : ℤ → ℕ → Bool
at_least (pos n) m = leb m n
at_least (negsuc n) m = false

abbrev is_large : Option EventBounds → Bool
is_large none = false
is_large (some b) = at_least b.width 650 && at_least b.height 400

abbrev is_large_gateway : WindowInfo → Bool
is_large_gateway w = is_large w.bounds && contains (map ascii_lower w.title) (codes "gateway")

abbrev is_semantic : Option Json → Bool
is_semantic none = false
is_semantic (some components) = looks_like_twofa_components components

-- The first window, but for a large Gateway, whose components ask for a code.
unfoldable pub semantic_twofa : (ℕ → Option Json) → List WindowInfo → Option WindowInfo
unfolding looks_like_twofa_components contains
semantic_twofa dump [] = none
semantic_twofa dump (w ∷ ws) =
    let later = semantic_twofa dump ws in
    if not (is_large_gateway w) && is_semantic (dump w.id) then some w else later

-- What the Gateway windows' dumps show: a form, and a window without one.
abbrev pub shows_form : Option Json → Bool
shows_form none = false
shows_form (some components) = components_have_login_form components

abbrev pub shows_no_form : Option Json → Bool
shows_no_form none = false
shows_no_form (some components) = not (components_have_login_form components)

module _ (casing : Casing) where
  unfoldable pub twofa_window : (ℕ → Option Json) → List WindowInfo → Option WindowInfo
  unfolding is_twofa_title semantic_twofa
  twofa_window dump windows = elim (find (λ w. is_twofa_title casing w.title) windows) [
    | some w ↦ some w
    | none ↦ semantic_twofa dump windows
  ]

  unfoldable pub some_gateway : (Option Json → Bool) → (ℕ → Option Json) → List WindowInfo → Bool
  unfolding contains
  some_gateway test dump [] = false
  some_gateway test dump (w ∷ ws) =
      (is_gateway_title casing w.title && test (dump w.id)) || some_gateway test dump ws

abbrev pub after_timeout : TwoFaOnTimeout → ℕ → ℕ → State
after_timeout restart_forever limit timeouts = restarting
after_timeout hitl_immediately limit timeouts = waiting_for_hitl2fa
after_timeout restart_then_hitl limit timeouts =
    if leb limit timeouts then waiting_for_hitl2fa else restarting

-- The state after the timeout, with the count of timeouts that it makes.
unfoldable pub timeout_state : Settings → ℕ → State
timeout_state config timeouts =
    after_timeout config.on_timeout config.max_immediate_attempts timeouts

abbrev is_selected : Option Bool → Bool
is_selected none = false
is_selected (some selected) = selected

abbrev is_empty : Text → Bool
is_empty [] = true
is_empty (_ ∷ _) = false

abbrev pub is_handled : Dispatched → Bool
is_handled handled = true
is_handled _ = false

module _ {Zoned : Type 0} where
  abbrev pub timeouts_after : StateMachine Zoned → ℕ
  timeouts_after m = min (m.consecutive_2fa_timeouts + 1) (2 ^ 32 - 1)

  -- The end of a step that decided nothing.
  unfoldable pub check_timeout : Settings → ℕ → List Effect → StateMachine Zoned → Tick Zoned
  unfolding timeout_state
  check_timeout config now effects m = doing effects (
      if not (entered_over now config.timeout_seconds m)
      then goes m waiting_for2fa
      else if not config.relogin_after_timeout && config.exits_on_timeout
      then goes m shutdown
      else goes (record m { consecutive_2fa_timeouts = timeouts_after m })
          (timeout_state config (timeouts_after m)))

  abbrev seen : StateMachine Zoned → StateMachine Zoned
  seen m = record m { twofa_gone_at = none; twofa_seen = true }

  -- The code, if there is a secret.
  unfoldable pub submit_code : Agent → Settings → ℕ → WindowInfo → StateMachine Zoned → Tick Zoned
  unfolding check_timeout
  submit_code agent config now win m =
      if not config.has_secret
      then check_timeout config now [] m
      else if is_handled (agent.dispatch_named (codes "TotpEntryHandler") win.id)
      then doing (dispatched (codes "TotpEntryHandler") win.id ∷ []) (goes m dismissing_popups)
      else check_timeout config now (dispatched (codes "TotpEntryHandler") win.id ∷ []) m

  -- The dialog is there: its device is chosen once, then the code is entered.
  unfoldable pub dialog_present :
      Agent → Settings → ℕ → WindowInfo → StateMachine Zoned → Tick Zoned
  unfolding submit_code
  dialog_present agent config now win m =
      if not m.twofa_device_selected
        && not (is_empty config.device)
        && is_selected (agent.select_list_item win.id config.device)
      then doing (clicked win.id (codes "OK") ∷ []) (
          goes (record m { twofa_gone_at = none; twofa_seen = true; twofa_device_selected = true })
            waiting_for2fa)
      else submit_code agent config now win
          (record m { twofa_gone_at = none; twofa_seen = true; twofa_device_selected = true })

abbrev pub gone_since : ℕ → Option ℕ → ℕ
gone_since now none = now
gone_since now (some t) = t

abbrev leaves_for_login : Option State → Bool
leaves_for_login none = false
leaves_for_login (some next_state) = state_eq next_state waiting_for_login

module _ (casing : Casing) {Zoned : Type 0} where
  -- The dialog was there and is gone: after five seconds the Gateway windows decide.
  unfoldable pub dialog_gone :
      Agent → Settings → ℕ → List WindowInfo → StateMachine Zoned → Tick Zoned
  unfolding some_gateway check_timeout components_have_login_form
  dialog_gone agent config now windows m =
      let m' = record m { twofa_gone_at = some (gone_since now m.twofa_gone_at) } in
      if ltb (now - gone_since now m.twofa_gone_at) (secs 5)
      then check_timeout config now [] m'
      else if some_gateway casing shows_form (agent.dump_components 1) windows
      then doing (reset_handlers ∷ []) (goes m' waiting_for_login)
      else if some_gateway casing shows_no_form (agent.dump_components 1) windows
      then goes m' dismissing_popups
      else check_timeout config now [] m'

  unfoldable pub windows_listed :
      Agent → Settings → ℕ → List WindowInfo → StateMachine Zoned → Tick Zoned
  unfolding twofa_window dialog_present dialog_gone check_timeout contains
  windows_listed agent config now windows m =
      if is_some (conflict_window casing windows)
      then goes m handling_session_conflict
      else elim (twofa_window casing (agent.dump_components 0) windows) [
        | some win ↦ dialog_present agent config now win m
        | none ↦
            if m.twofa_seen
            then dialog_gone agent config now windows m
            else if entered_over now 10 m
            then goes m dismissing_popups
            else check_timeout config now [] m
      ]

  -- One failed listing more; the tenth is an error.
  unfoldable pub listing_failed : Settings → ℕ → StateMachine Zoned → Tick Zoned
  unfolding check_timeout
  listing_failed config now m =
      let m' = record m { consecutive_agent_failures = m.consecutive_agent_failures + 1 } in
      if leb 10 m'.consecutive_agent_failures
      then goes m' (error (codes "Agent unreachable during 2FA wait"))
      else check_timeout config now [] m'

  -- The step, once no login delay is running.
  unfoldable pub watch_2fa : Agent → Settings → ℕ → StateMachine Zoned → Tick Zoned
  unfolding windows_listed listing_failed has_relogin_dialog has_session_conflict
      check_blocking_dialog state_eq
  watch_2fa agent config now m =
      if not agent.is_running
      then goes m (error (codes "JVM exited during 2FA wait"))
      else if has_relogin_dialog casing m.observation
      then goes m waiting_for_login
      else if has_session_conflict casing m.observation
      then goes m handling_session_conflict
      else if leaves_for_login (check_blocking_dialog casing (agent.list_windows 0))
      then goes m waiting_for_login
      else elim (agent.list_windows 1) [
        | some windows ↦
            windows_listed agent config now windows (record m { consecutive_agent_failures = 0 })
        | none ↦ listing_failed config now m
      ]

  unfoldable pub do_wait_for_2fa : Agent → Settings → ℕ → StateMachine Zoned → Tick Zoned
  unfolding wait_for_observed_twofa_retry watch_2fa
  do_wait_for_2fa agent config now m = elim (wait_for_observed_twofa_retry agent now m) [
    | none ↦ fails m
    | some (m', true) ↦ goes m' waiting_for2fa
    | some (m', false) ↦
        if backs_off now m'.twofa_retry_not_before
        then goes m' waiting_for2fa
        else watch_2fa agent config now (record m' { twofa_retry_not_before = none })
  ]

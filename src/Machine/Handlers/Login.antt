-- ===== src/Machine/Handlers/Login.antt =====
-- `wait_for_observed_twofa_retry` and `do_authenticate` of ibctl/src/state_machine/mod.rs.
use ibctl.Base.{
  ℕ, ◌+◌, Bool, true, false, not, Option, none, some, List, [], ◌∷◌, ◌++◌, map, ltb, if◌then◌else◌,
}
use ibctl.Base.Text.{Text, codes}
use ibctl.Base.Words.{Casing, contains, join}
use ibctl.TimeSync.{parse_retry_seconds}
use ibctl.Machine.State.{waiting_for_login, dismissing_popups, authenticating, waiting_for2fa}
use ibctl.Machine.Lifecycle.{StateMachine, clear_login_buttons}
use ibctl.Machine.Events.{reset_handlers, dispatched, reject}
use ibctl.Machine.Json.{Json, collect_strings, components_have_login_form}
use ibctl.Machine.Handlers.{
  WindowInfo, Agent, Tick, Dispatched, unmatched, failed, handled, not_applicable, reported, goes,
  fails, doing, check_blocking_dialog, gateway_window,
}

-- The delay that the server asked for is still running.
abbrev pub backs_off : ℕ → Option ℕ → Bool
backs_off now none = false
backs_off now (some deadline) = ltb now deadline

-- A dump that fails counts as no login form here.
abbrev pub has_login_fields : Option Json → Bool
has_login_fields none = false
has_login_fields (some components) = components_have_login_form components

abbrev dumped_strings : Option Json → List Text
dumped_strings none = []
dumped_strings (some components) = collect_strings components

abbrev all_strings : (ℕ → Option Json) → List WindowInfo → List Text
all_strings dump [] = []
all_strings dump (w ∷ ws) = dumped_strings (dump w.id) ++ all_strings dump ws

-- All that is on the screen.
unfoldable pub visible_text : (ℕ → Option Json) → List WindowInfo → Text
unfolding collect_strings
visible_text dump windows =
    join (codes " ") (map (λ w. w.title) windows ++ all_strings dump windows)

module _ {Zoned : Type 0} where
  abbrev watched : ℕ → Option ℕ → StateMachine Zoned → StateMachine Zoned
  watched now none m = m
  watched now (some server_wait) m = reject now (some server_wait) m

  -- The machine after it, and whether the login waits; none if the windows cannot be listed.
  unfoldable pub wait_for_observed_twofa_retry :
      Agent → ℕ → StateMachine Zoned → Option (StateMachine Zoned × Bool)
  unfolding visible_text parse_retry_seconds reject
  wait_for_observed_twofa_retry agent now m =
      if not m.twofa_retry_waiting_for_screen
      then some (m, false)
      else elim (agent.list_windows 0) [
        | none ↦ none
        | some windows ↦ some (
          watched now (parse_retry_seconds (visible_text (agent.dump_components 0) windows)) m,
          true,
        )
      ]

module _ (casing : Casing) {Zoned : Type 0} where
  -- What the login handler answered for the form.
  abbrev pub after_submit : ℕ → StateMachine Zoned → Dispatched → Tick Zoned
  after_submit id m handled =
      doing (dispatched (codes "LoginHandler") id ∷ [])
        (goes (record m { observation = clear_login_buttons m.observation }) waiting_for2fa)
  after_submit id m (reported _) =
      doing (dispatched (codes "LoginHandler") id ∷ reset_handlers ∷ []) (goes m waiting_for_login)
  after_submit id m not_applicable =
      doing (dispatched (codes "LoginHandler") id ∷ []) (goes m waiting_for_login)
  after_submit id m failed =
      doing (dispatched (codes "LoginHandler") id ∷ reset_handlers ∷ []) (goes m waiting_for_login)
  after_submit id m unmatched = goes m waiting_for_login

  unfoldable pub submit : Agent → StateMachine Zoned → Option WindowInfo → Tick Zoned
  unfolding components_have_login_form clear_login_buttons
  submit agent m none = goes m waiting_for_login
  submit agent m (some win) =
      if has_login_fields (agent.dump_components 1 win.id)
      then after_submit win.id m (agent.dispatch_named (codes "LoginHandler") win.id)
      else goes m dismissing_popups

  -- The login itself, with the calls of `list_windows` from the one given.
  unfoldable pub log_in : Agent → ℕ → StateMachine Zoned → Tick Zoned
  unfolding check_blocking_dialog submit contains
  log_in agent call m = elim (check_blocking_dialog casing (agent.list_windows call)) [
    | some next_state ↦ goes m next_state
    | none ↦ elim (agent.list_windows (call + 1)) [
      | none ↦ fails m
      | some windows ↦ submit agent m (gateway_window casing windows)
    ]
  ]

  unfoldable pub do_authenticate : Agent → ℕ → StateMachine Zoned → Tick Zoned
  unfolding wait_for_observed_twofa_retry log_in
  do_authenticate agent now m = elim (wait_for_observed_twofa_retry agent now m) [
    | none ↦ fails m
    | some (m', true) ↦ goes m' authenticating
    | some (m', false) ↦
        if backs_off now m'.twofa_retry_not_before
        then goes m' authenticating
        else log_in agent 0 (record m' { twofa_retry_not_before = none })
  ]

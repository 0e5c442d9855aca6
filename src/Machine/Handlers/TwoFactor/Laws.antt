-- ===== src/Machine/Handlers/TwoFactor/Laws.antt =====
-- When the handlers of ibctl/src/state_machine/mod.rs take a second factor for passed.
use ibctl.Base.{
  ℕ, ◌+◌, ◌-◌, ◌≡◌, ◌≢◌, ◌≤◌, ◌<◌, ◌⊎◌, inl, inr, true, false, none, some, List, [], ◌∷◌, arith,
  Option-cases,
}
use ibctl.Base.Text.{codes}
use ibctl.Base.Words.{Casing}
use ibctl.Machine.State.{dismissing_popups}
use ibctl.Machine.Lifecycle.{StateMachine}
use ibctl.Machine.Events.{Effect, dispatched}
use ibctl.Machine.Handlers.{
  Agent, Settings, WindowInfo, secs, TwoFaOnTimeout, restart_forever, hitl_immediately,
  restart_then_hitl,
}
use ibctl.Machine.Handlers.Login.{wait_for_observed_twofa_retry, backs_off}
use ibctl.Machine.Handlers.TwoFactor.{
  do_wait_for_2fa, watch_2fa, windows_listed, listing_failed, dialog_present, dialog_gone,
  submit_code, check_timeout, timeout_state, after_timeout, timeouts_after, twofa_window,
  some_gateway, shows_form, shows_no_form, gone_since, is_handled,
}

after_ne :
    (t : TwoFaOnTimeout) (limit n : ℕ) → some (after_timeout t limit n) ≢ some dismissing_popups
after_ne restart_forever limit n = λ e. ground arith
after_ne hitl_immediately limit n = λ e. ground arith
after_ne restart_then_hitl limit n = λ e. ground arith

module _ {Zoned : Type 0} where
  timeout_ne :
      (config : Settings) (now : ℕ) (effects : List Effect) (m : StateMachine Zoned)
      → (check_timeout config now effects m).next ≢ some dismissing_popups
  unfolding check_timeout timeout_state
  timeout_ne config now effects m = λ e.
      ground (arith, after_ne config.on_timeout config.max_immediate_attempts (timeouts_after m))

-- How a second factor is passed: a code was entered with the secret; the dialog was there and is gone
-- for five seconds, and of the Gateway windows one has no form and none has one; or there was no
-- dialog for ten seconds.
abbrev pub Passed :
    {Zoned : Type 0} → Casing → Agent → Settings → ℕ → StateMachine Zoned → List WindowInfo → Type 0
Passed casing agent config now m windows =
    ((win : WindowInfo) × (twofa_window casing (agent.dump_components 0) windows ≡ some win)
      × (config.has_secret ≡ true)
      × (is_handled (agent.dispatch_named (codes "TotpEntryHandler") win.id) ≡ true))
    ⊎ (((twofa_window casing (agent.dump_components 0) windows ≡ none)
          × (m.twofa_seen ≡ true)
          × (secs 5 ≤ now - gone_since now m.twofa_gone_at)
          × (some_gateway casing shows_form (agent.dump_components 1) windows ≡ false)
          × (some_gateway casing shows_no_form (agent.dump_components 1) windows ≡ true))
        ⊎ ((twofa_window casing (agent.dump_components 0) windows ≡ none)
            × (m.twofa_seen ≡ false)
            × (secs 10 < now - m.state_entered_at)))

module _ {Zoned : Type 0} (agent : Agent) (config : Settings) (now : ℕ) where
  submit_lem :
      (win : WindowInfo) (m : StateMachine Zoned)
      → (submit_code agent config now win m).next ≡ some dismissing_popups
      → (config.has_secret ≡ true)
        × (is_handled (agent.dispatch_named (codes "TotpEntryHandler") win.id) ≡ true)
  unfolding submit_code
  submit_lem win m h = ground (
    arith,
    h,
    timeout_ne config now [] m,
    timeout_ne config now (dispatched (codes "TotpEntryHandler") win.id ∷ []) m,
  )

  present_lem :
      (win : WindowInfo) (m : StateMachine Zoned)
      → (dialog_present agent config now win m).next ≡ some dismissing_popups
      → (config.has_secret ≡ true)
        × (is_handled (agent.dispatch_named (codes "TotpEntryHandler") win.id) ≡ true)
  unfolding dialog_present
  present_lem win m h = ground (
    arith,
    h,
    submit_lem win
        (record m { twofa_gone_at = none; twofa_seen = true; twofa_device_selected = true }),
  )

module _ (casing : Casing) {Zoned : Type 0} (agent : Agent) (config : Settings) (now : ℕ) where
  gone_lem :
      (windows : List WindowInfo) (m : StateMachine Zoned)
      → (dialog_gone casing agent config now windows m).next ≡ some dismissing_popups
      → (secs 5 ≤ now - gone_since now m.twofa_gone_at)
        × (some_gateway casing shows_form (agent.dump_components 1) windows ≡ false)
        × (some_gateway casing shows_no_form (agent.dump_components 1) windows ≡ true)
  unfolding dialog_gone
  gone_lem windows m h = ground (
    arith,
    h,
    timeout_ne config now [] (record m { twofa_gone_at = some (gone_since now m.twofa_gone_at) }),
  )

  listed_lem :
      (windows : List WindowInfo) (m : StateMachine Zoned)
      → (windows_listed casing agent config now windows m).next ≡ some dismissing_popups
      → Passed casing agent config now m windows
  unfolding windows_listed
  listed_lem windows m h =
      elim (Option-cases (twofa_window casing (agent.dump_components 0) windows)) [
        | inl e ↦ ground (arith, e, h, gone_lem windows m, timeout_ne config now [] m)
        | inr (win, e) ↦
            let (secret, submitted) = present_lem agent config now win m (ground (arith, e, h)) in
            inl (win, e, secret, submitted)
      ]

  failed_lem :
      (m : StateMachine Zoned) → (listing_failed casing config now m).next ≢ some dismissing_popups
  unfolding listing_failed
  failed_lem m = λ e. ground (
    arith,
    timeout_ne config now []
        (record m { consecutive_agent_failures = m.consecutive_agent_failures + 1 }),
  )

  watch_lem :
      (m : StateMachine Zoned)
      → (watch_2fa casing agent config now m).next ≡ some dismissing_popups
      → (windows : List WindowInfo) × (agent.list_windows 1 ≡ some windows)
        × Passed casing agent config now m windows
  unfolding watch_2fa
  watch_lem m h = elim (Option-cases (agent.list_windows 1)) [
    | inl e ↦ ground (arith, e, h, failed_lem m)
    | inr (windows, e) ↦ (
      windows,
      e,
      listed_lem windows (record m { consecutive_agent_failures = 0 }) (ground (arith, e, h)),
    )
  ]

  watch_after :
      (m : StateMachine Zoned)
      → (do_wait_for_2fa casing agent config now m).next ≡ some dismissing_popups
      → (m.twofa_retry_waiting_for_screen ≡ false)
        × (backs_off now m.twofa_retry_not_before ≡ false)
        × ((watch_2fa casing agent config now (record m { twofa_retry_not_before = none })).next
            ≡ some dismissing_popups)
  unfolding do_wait_for_2fa wait_for_observed_twofa_retry
  watch_after m h = ground (arith, h)

  -- The handler goes on from the second factor only if no login delay is running or looked for, the
  -- windows can be listed, and the factor is passed by a submitted code, by a dialog that has gone
  -- with a Gateway window that shows no form, or by no dialog in ten seconds.
  pub do_wait_for_2fa-Passed :
      (m : StateMachine Zoned)
      → (do_wait_for_2fa casing agent config now m).next ≡ some dismissing_popups
      → (m.twofa_retry_waiting_for_screen ≡ false)
        × (backs_off now m.twofa_retry_not_before ≡ false)
        × ((windows : List WindowInfo) × (agent.list_windows 1 ≡ some windows)
            × Passed casing agent config now m windows)
  do_wait_for_2fa-Passed m h =
      let (quiet, over, watched) = watch_after m h in
      (quiet, over, watch_lem (record m { twofa_retry_not_before = none }) watched)

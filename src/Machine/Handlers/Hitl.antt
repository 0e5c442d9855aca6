-- ===== src/Machine/Handlers/Hitl.antt =====
-- `do_waiting_for_hitl_2fa` and `compute_next_hitl_deadline` of ibctl/src/state_machine/mod.rs. Its
-- own call of `process_queries` answers queries and is left out.
use ibctl.Base.{
  ℕ, ◌+◌, ◌-◌, ◌*◌, ◌^◌, Bool, true, false, not, ◌&&◌, Option, none, some, List, ltb, leb, min,
  length, get_elem?, if◌then◌else◌,
}
use ibctl.Base.Words.{Casing}
use ibctl.Machine.State.{waiting_for_login, restarting, waiting_for_api_ready, waiting_for_hitl2fa}
use ibctl.Machine.Lifecycle.{StateMachine, Hitl}
use ibctl.Machine.Events.{has_2fa_dialog, has_login_form, main_gateway_window}
use ibctl.Machine.Json.{Json, components_indicate_connected}
use ibctl.Machine.Handlers.{Agent, Settings, Tick, HitlStrategy, periodic, both, goes, secs}

abbrev has_timer : HitlStrategy → Bool
has_timer periodic = true
has_timer both = true
has_timer _ = false

abbrev minutes_from : ℕ → Option ℕ → Option ℕ
minutes_from now none = none
minutes_from now (some minutes) = some (now + secs (minutes * 60))

-- The interval of the index, or the last one.
unfoldable pub compute_next_hitl_deadline : ℕ → HitlStrategy → List ℕ → ℕ → Option ℕ
compute_next_hitl_deadline now strategy intervals index =
    if not (has_timer strategy)
    then none
    else if ltb index (length intervals)
    then minutes_from now (get_elem? intervals index)
    else minutes_from now (get_elem? intervals (length intervals - 1))

abbrev tick_threshold : ℕ
tick_threshold = 3

abbrev saturating_suc : ℕ → ℕ
saturating_suc n = min (n + 1) (2 ^ 8 - 1)

abbrev says_connected : Casing → Option Json → Bool
says_connected casing none = false
says_connected casing (some components) = components_indicate_connected casing components

module _ {Zoned : Type 0} where
  abbrev with_hitl : StateMachine Zoned → Hitl → StateMachine Zoned
  with_hitl m h = record m { hitl = h }

  -- The first step of a stay.
  unfoldable pub enter_hitl : Settings → ℕ → StateMachine Zoned → StateMachine Zoned
  unfolding compute_next_hitl_deadline
  enter_hitl config now m = elim m.hitl.entered_at [
    | some _ ↦ m
    | none ↦ with_hitl m (record {
      entered_at = some now;
      next_retry_at = compute_next_hitl_deadline now config.strategy config.intervals_minutes 0;
      intervals_index = 0;
      ntfy_attempts = 0;
      ntfy_sent = false;
      login_form_observation_ticks = 0;
      connected_observation_ticks = 0;
    })
  ]

  -- The deadline of the automatic retry.
  unfoldable pub retry_hitl : Settings → ℕ → StateMachine Zoned → Tick Zoned
  unfolding compute_next_hitl_deadline
  retry_hitl config now m = elim m.hitl.next_retry_at [
    | none ↦ goes m waiting_for_hitl2fa
    | some deadline ↦
        if ltb now deadline
        then goes m waiting_for_hitl2fa
        else goes
            (with_hitl m (record m.hitl {
              intervals_index = m.hitl.intervals_index + 1;
              next_retry_at =
                  compute_next_hitl_deadline now config.strategy config.intervals_minutes
                    (m.hitl.intervals_index + 1);
            }))
            restarting
  ]

module _ (casing : Casing) {Zoned : Type 0} where
  -- The main window's panel, if neither a code nor a login is asked for.
  unfoldable pub probes_connected : Agent → StateMachine Zoned → Bool
  unfolding has_2fa_dialog has_login_form main_gateway_window components_indicate_connected
  probes_connected agent m =
      if not (has_2fa_dialog casing m.observation) && not (has_login_form casing m.observation)
      then elim (main_gateway_window casing m.observation) [
        | none ↦ false
        | some w ↦ says_connected casing (agent.dump_components 0 w.id)
      ]
      else false

  unfoldable pub probe_hitl : Agent → Settings → ℕ → StateMachine Zoned → Tick Zoned
  unfolding probes_connected retry_hitl
  probe_hitl agent config now m =
      let ticks = saturating_suc m.hitl.connected_observation_ticks in
      if not (probes_connected agent m)
      then retry_hitl config now (with_hitl m (record m.hitl { connected_observation_ticks = 0 }))
      else if leb tick_threshold ticks
      then goes (with_hitl m (record m.hitl { connected_observation_ticks = ticks }))
          waiting_for_api_ready
      else retry_hitl config now
          (with_hitl m (record m.hitl { connected_observation_ticks = ticks }))

  unfoldable pub observe_hitl : Agent → Settings → ℕ → StateMachine Zoned → Tick Zoned
  unfolding has_2fa_dialog has_login_form probe_hitl
  observe_hitl agent config now m =
      let ticks = saturating_suc m.hitl.login_form_observation_ticks in
      if not (has_login_form casing m.observation && not (has_2fa_dialog casing m.observation))
      then probe_hitl agent config now
          (with_hitl m (record m.hitl { login_form_observation_ticks = 0 }))
      else if leb tick_threshold ticks
      then goes (with_hitl m (record m.hitl { login_form_observation_ticks = ticks }))
          waiting_for_login
      else probe_hitl agent config now
          (with_hitl m (record m.hitl { login_form_observation_ticks = ticks }))

  unfoldable pub do_waiting_for_hitl_2fa : Agent → Settings → ℕ → StateMachine Zoned → Tick Zoned
  unfolding enter_hitl observe_hitl
  do_waiting_for_hitl_2fa agent config now m =
      if config.cold_restart_preempts_hitl && agent.cold_restart_signal
      then goes (enter_hitl config now m) restarting
      else observe_hitl agent config now (enter_hitl config now m)

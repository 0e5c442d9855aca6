-- ===== src/Machine/Lifecycle/Commands/Laws.antt =====
-- Commands, cold restarts and transitions together, after ibctl/src/state_machine/mod.rs.
use ibctl.Base.{
  ◌≡◌, ◌≢◌, ◌≤◌, refl, ap, ◌∙◌, true, false, some, List, [], ◌∷◌, ◌==◌, length, arith, Option-cases,
  inl, inr, is_some,
}
use ibctl.Base.Text.{Text}
use ibctl.ColdRestart.{ColdRestartSignal, fire, skipped}
use ibctl.Machine.State.{State, restarting, waiting_for_launch, init, variant, from_name}
use ibctl.Machine.State.Names.{from_name_iff}
use ibctl.Machine.Lifecycle.{StateMachine, Env, apply_transition}
use ibctl.Machine.Lifecycle.Tidy.{record_transition-length, history_lem, arrive-no_error}
use ibctl.Machine.Command.{
  Command, stop, start, restart, exit, pause, resume, hitl_resume, pause_at, set_state,
  restart_socat, ib_status, reconnect_data, reconnect_account, enable_api, save_settings,
  set_restart_time, resume_reconnect,
}
use ibctl.Machine.Lifecycle.Commands.{
  is_dormant, dispatch_command, handle_command, handle_signal, handle_cold_restart, assign_recorded,
}

-- One thing that changes the machine.
pub data Step (Zoned : Type 0) : Type 0 where
  transitions : State → Step Zoned
  commanded : Command → Step Zoned
  terminated : Step Zoned
  cold_restarted : Zoned → ColdRestartSignal Zoned → Step Zoned

named_lem : (name : Text) (s : State) → from_name name ≡ some s → (variant s == 17) ≡ false
named_lem name s e = ((from_name_iff name s).0 e).1

module _ {Zoned : Type 0} where
  unfoldable pub step : Env → Step Zoned → StateMachine Zoned → StateMachine Zoned
  unfolding apply_transition dispatch_command handle_signal handle_cold_restart
  step env (transitions next) m = apply_transition env next m
  step env (commanded c) m = dispatch_command env c m
  step env terminated m = handle_signal m
  step env (cold_restarted now signal) m = handle_cold_restart now signal m

  unfoldable pub steps : List (Env × Step Zoned) → StateMachine Zoned → StateMachine Zoned
  unfolding step
  steps [] m = m
  steps ((env, s) ∷ rest) m = steps rest (step env s m)

  -- No error state, and at most 100 entries of history.
  abbrev pub IsBounded : StateMachine Zoned → Type 0
  IsBounded m = ((variant m.state == 17) ≡ false) × (length m.transition_history ≤ 100)

  assign_lem :
      (env : Env) (next : State) (m : StateMachine Zoned)
      → (variant next == 17) ≡ false
      → IsBounded m
      → IsBounded (assign_recorded env next m)
  unfolding assign_recorded
  assign_lem env next m n (_, bounded) =
      (n, record_transition-length env.chrono_timestamp m.state next m.transition_history bounded)

  transition_lem :
      (env : Env) (next : State) (m : StateMachine Zoned)
      → IsBounded m
      → IsBounded (apply_transition env next m)
  unfolding apply_transition
  transition_lem env next m (_, bounded) = (arrive-no_error next, history_lem env next m bounded)

  command_lem :
      (env : Env) (c : Command) (m : StateMachine Zoned)
      → IsBounded m
      → IsBounded (dispatch_command env c m)
  unfolding dispatch_command handle_command assign_recorded
  command_lem env stop m b = ground (
    arith,
    b,
    record_transition-length env.chrono_timestamp m.state waiting_for_launch m.transition_history
        b.1,
  )
  command_lem env start m b = ground (arith, b, assign_lem env init m refl b)
  command_lem env restart m b = ground (arith, b)
  command_lem env exit m b = ground (arith, b)
  command_lem env pause m b = b
  command_lem env resume m b = b
  command_lem env reconnect_data m b = b
  command_lem env reconnect_account m b = b
  command_lem env enable_api m b = b
  command_lem env save_settings m b = b
  command_lem env (set_restart_time _) m b = b
  command_lem env (resume_reconnect _) m b = b
  command_lem env (ib_status _ _) m b = b
  command_lem env restart_socat m b = b
  command_lem env hitl_resume m b = ground (arith, b, assign_lem env restarting m refl b)
  command_lem env (pause_at name) m b = elim (Option-cases (from_name name)) [
    | inl e ↦ ground (arith, e, b)
    | inr (s, e) ↦ ground (arith, e, b)
  ]
  command_lem env (set_state name) m b = elim (Option-cases (from_name name)) [
    | inl e ↦ ground (arith, e, b)
    | inr (s, e) ↦ ground (arith, e, assign_lem env s m (named_lem name s e) b)
  ]

  cold_lem :
      (now : Zoned) (signal : ColdRestartSignal Zoned) (m : StateMachine Zoned)
      → IsBounded m
      → IsBounded (handle_cold_restart now signal m)
  unfolding handle_cold_restart
  cold_lem now fire m b = ground (arith, b)
  cold_lem now (skipped why) m b = b

  -- From a state that is no error and a history of at most 100 entries, no sequence of transitions,
  -- commands, termination signals and cold restarts leads to an error state or to a longer history.
  pub steps-IsBounded :
      (todo : List (Env × Step Zoned)) (m : StateMachine Zoned)
      → IsBounded m
      → IsBounded (steps todo m)
  unfolding steps step handle_signal handle_cold_restart
  steps-IsBounded [] m b = b
  steps-IsBounded ((env, transitions next) ∷ rest) m b =
      steps-IsBounded rest (apply_transition env next m) (transition_lem env next m b)
  steps-IsBounded ((env, commanded c) ∷ rest) m b =
      steps-IsBounded rest (dispatch_command env c m) (command_lem env c m b)
  steps-IsBounded ((env, terminated) ∷ rest) m b =
      steps-IsBounded rest (handle_signal m) (refl, b.1)
  steps-IsBounded ((env, cold_restarted now signal) ∷ rest) m b =
      steps-IsBounded rest (handle_cold_restart now signal m) (cold_lem now signal m b)

  -- The signals in their order.
  unfoldable pub cold_restarts :
      List (Zoned × ColdRestartSignal Zoned) → StateMachine Zoned → StateMachine Zoned
  unfolding handle_cold_restart
  cold_restarts [] m = m
  cold_restarts ((now, signal) ∷ rest) m = cold_restarts rest (handle_cold_restart now signal m)

  dormant_lem :
      (now : Zoned) (signal : ColdRestartSignal Zoned) (m : StateMachine Zoned)
      → is_dormant m.state ≡ true
      → ((handle_cold_restart now signal m).state ≡ m.state)
        × ((handle_cold_restart now signal m).session ≡ m.session)
        × (is_some (handle_cold_restart now signal m).last_cold_restart_skip ≡ true)
  unfolding handle_cold_restart
  dormant_lem now fire m d = ground (arith, d)
  dormant_lem now (skipped why) m d = (refl, refl, refl)

  record_stays :
      (signals : List (Zoned × ColdRestartSignal Zoned)) (m : StateMachine Zoned)
      → is_dormant m.state ≡ true
      → is_some m.last_cold_restart_skip ≡ true
      → is_some (cold_restarts signals m).last_cold_restart_skip ≡ true
  unfolding cold_restarts
  record_stays [] m d r = r
  record_stays ((now, signal) ∷ rest) m d r =
      let (same, _, recorded) = dormant_lem now signal m d in
      record_stays rest (handle_cold_restart now signal m) (ap is_dormant same ∙ d) recorded

  -- While the machine is dormant, any number of cold restart signals leaves its state and its
  -- session as they are; if there were any, a skip is on record.
  cold_restarts-is_dormant :
      (signals : List (Zoned × ColdRestartSignal Zoned)) (m : StateMachine Zoned)
      → is_dormant m.state ≡ true
      → ((cold_restarts signals m).state ≡ m.state)
        × ((cold_restarts signals m).session ≡ m.session)
        × (signals ≢ [] → is_some (cold_restarts signals m).last_cold_restart_skip ≡ true)
  unfolding cold_restarts handle_cold_restart
  cold_restarts-is_dormant [] m d = (refl, refl, λ n. absurd (n refl))
  cold_restarts-is_dormant ((now, signal) ∷ rest) m d =
      let (same, over, recorded) = dormant_lem now signal m d in
      let m' = handle_cold_restart now signal m in
      let d' = ap is_dormant same ∙ d in
      let (same', over', _) = cold_restarts-is_dormant rest m' d' in
      (same' ∙ same, over' ∙ over, λ _. record_stays rest m' d' recorded)

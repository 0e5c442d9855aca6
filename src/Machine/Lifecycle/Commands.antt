-- ===== src/Machine/Lifecycle/Commands.antt =====
-- `dispatch_command`, the state-changing commands of `handle_command`, and the signals and cold
-- restarts of `handle_interrupt`, ibctl/src/state_machine/mod.rs. The JVM and the agent's keystrokes
-- and menus are left out; the resume token is in Machine/Park.
pub mod Laws
pub mod Restart
use ibctl.Base.{ℕ, Bool, true, false, Option, none, some, List, [], ◌∷◌, if◌then◌else◌}
use ibctl.Base.Text.{Text, codes, text_eq}
use ibctl.Machine.Command.{
  Command, stop, start, restart, exit, pause, resume, hitl_resume, pause_at, set_state,
  restart_socat, ib_status,
}
use ibctl.ColdRestart.{ColdRestartSignal, fire, skipped, dormant_site}
use ibctl.Machine.State.{
  State, error, shutdown, restarting, waiting_for_launch, waiting_for_hitl2fa, init, state_eq,
  from_name,
}
use ibctl.Machine.Lifecycle.{StateMachine, Env, record_transition}

unfoldable pub is_dormant : State → Bool
is_dormant waiting_for_launch = true
is_dormant shutdown = true
is_dormant (error _) = true
is_dormant waiting_for_hitl2fa = true
is_dormant _ = false

module _ {Zoned : Type 0} where
  abbrev without_client_ids : StateMachine Zoned → StateMachine Zoned
  without_client_ids m = record m { session = record m.session { client_id_task = false } }

  -- An assignment to `state` with its entry in the history.
  unfoldable pub assign_recorded : Env → State → StateMachine Zoned → StateMachine Zoned
  unfolding record_transition
  assign_recorded env next m = record m {
    state = next;
    transition_history = record_transition env.chrono_timestamp m.state next m.transition_history;
  }

  abbrev set_ceiling : State → StateMachine Zoned → StateMachine Zoned
  set_ceiling target m =
      if state_eq target m.state
      then record m { pause = record { paused = true; ceiling_state = none } }
      else record m { pause = record m.pause { ceiling_state = some target } }

  unfoldable pub handle_command : Env → Command → StateMachine Zoned → StateMachine Zoned
  unfolding assign_recorded from_name state_eq
  handle_command env pause m = record m { pause = record { paused = true; ceiling_state = none } }
  handle_command env resume m = record m { pause = record { paused = false; ceiling_state = none } }
  handle_command env (pause_at name) m = elim (from_name name) [
    | none ↦ m
    | some target ↦ set_ceiling target m
  ]
  handle_command env (set_state name) m = elim (from_name name) [
    | none ↦ m
    | some new_state ↦ assign_recorded env new_state m
  ]
  handle_command env hitl_resume m =
      if state_eq m.state waiting_for_hitl2fa then assign_recorded env restarting m else m
  handle_command env restart_socat m = record m {
    session = record m.session { socat_process = env.socat_spawns };
  }
  handle_command env (ib_status status reason) m = record m {
    ib_status = record m.ib_status {
      available = text_eq status (codes "available");
      status = status;
      reason = reason;
      last_updated = some env.now;
    };
  }
  handle_command env _ m = m

  unfoldable pub dispatch_command : Env → Command → StateMachine Zoned → StateMachine Zoned
  unfolding handle_command assign_recorded state_eq
  dispatch_command env stop m =
      if state_eq m.state waiting_for_launch
      then m
      else assign_recorded env waiting_for_launch (record m {
        session = record m.session { client_id_task = false; socat_process = false };
      })
  dispatch_command env exit m = record (without_client_ids m) { state = shutdown }
  dispatch_command env start m =
      if state_eq m.state waiting_for_launch then assign_recorded env init m else m
  dispatch_command env restart m = record (without_client_ids m) { state = restarting }
  dispatch_command env c m = handle_command env c m

  -- `Interrupt::Signal(Terminate | Interrupt)`
  unfoldable pub handle_signal : StateMachine Zoned → StateMachine Zoned
  handle_signal m = record (without_client_ids m) { state = shutdown }

  -- `Interrupt::ColdRestart`; `now` is `Zoned::now()`.
  unfoldable pub handle_cold_restart :
      Zoned → ColdRestartSignal Zoned → StateMachine Zoned → StateMachine Zoned
  unfolding is_dormant
  handle_cold_restart now fire m =
      if is_dormant m.state
      then record m {
        last_cold_restart_skip = some (record { recorded_at = now; reason = dormant_site });
      }
      else record (without_client_ids m) { last_cold_restart_skip = none; state = restarting }
  handle_cold_restart now (skipped why) m = record m {
    last_cold_restart_skip = some (record { recorded_at = now; reason = why });
  }

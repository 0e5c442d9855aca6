-- ===== src/Machine/Lifecycle.antt =====
-- `apply_transition` of ibctl/src/state_machine/mod.rs, with `record_transition` of types.rs, over
-- the fields of `StateMachine` that they change. A background task, the socat process and the guard
-- of the dwell timer are Booleans (there or not). An `Instant` is a number. Logging and the
-- published snapshot are left out, and `do_shutdown` is kept for what it does to socat and the state.
pub mod Marker
pub mod Tidy
pub mod Commands
use ibctl.Base.{
  ℕ, ◌+◌, Bool, true, false, not, ◌&&◌, ◌||◌, Option, none, some, List, [], ◌∷◌, ◌++◌, map, leb,
  ltb, length, if◌then◌else◌,
}
use ibctl.Base.Text.{Text}
use ibctl.ColdRestart.{ColdRestartSkipReason}
use ibctl.Machine.State.{
  State, error, shutdown, restarting, launching, connected, waiting_for2fa, waiting_for_hitl2fa,
  waiting_for_api_ready, dismissing_popups, configuring_api, waiting_for_login, waiting_for_launch,
  reconnecting_session, state_eq, is_credential_gathering, display,
}
use ibctl.Machine.Revocation.{Tracker, clear_all}

pub record Transition : Type 0 where
  pub timestamp : Text
  pub from : Text
  pub to : Text

pub record ObservedWindow : Type 0 where
  pub id : ℕ
  pub title : Text
  pub class : Text
  pub has_login_button : Bool

pub record AgentObservation : Type 0 where
  pub windows : List ObservedWindow
  pub last_updated : ℕ
  pub last_event_seq : ℕ
  pub synced : Bool

pub record PauseControl : Type 0 where
  pub paused : Bool
  pub ceiling_state : Option State

-- `hitl_` fields
pub record Hitl : Type 0 where
  pub entered_at : Option ℕ
  pub next_retry_at : Option ℕ
  pub intervals_index : ℕ
  pub ntfy_attempts : ℕ
  pub ntfy_sent : Bool
  pub login_form_observation_ticks : ℕ
  pub connected_observation_ticks : ℕ

-- What belongs to one stay in Connected.
pub record Session : Type 0 where
  pub connected_since : Option ℕ
  pub connected_continuously_since : Option ℕ
  pub settings_good_marked : Bool
  pub api_port_probe_task : Bool
  pub api_port_probe_failed : Bool
  pub revocation : Tracker
  pub connection_event_disconnected : Bool
  pub client_id_task : Bool
  pub connected_window_class : Option Text
  pub socat_process : Bool

pub record IbSystemStatus : Type 0 where
  pub available : Bool
  pub status : Text
  pub reason : Text
  pub last_updated : Option ℕ
  pub return_state : Option State

pub record ColdRestartSkipRecord (Zoned : Type 0) : Type 0 where
  pub recorded_at : Zoned
  pub reason : ColdRestartSkipReason Zoned

pub record StateMachine (Zoned : Type 0) : Type 0 where
  pub state : State
  pub pause : PauseControl
  pub ib_status : IbSystemStatus
  pub transition_history : List Transition
  pub state_entered_at : ℕ
  pub consecutive_agent_failures : ℕ
  pub twofa_seen : Bool
  pub twofa_device_selected : Bool
  pub twofa_gone_at : Option ℕ
  pub twofa_retry_not_before : Option ℕ
  pub twofa_retry_waiting_for_screen : Bool
  pub consecutive_2fa_timeouts : ℕ
  pub relogin_attempts : ℕ
  pub config_retries : ℕ
  pub consecutive_jvm_restarts : ℕ
  pub popup_last_dismissed : Option ℕ
  pub warm_restart_pending : Option Text
  pub cold_restart_equivalent_pending : Bool
  pub marker_writes : ℕ  -- how often the cold-restart-equivalent marker was written
  pub dwell_guard : Bool
  pub session : Session
  pub hitl : Hitl
  pub observation : AgentObservation
  pub last_cold_restart_skip : Option (ColdRestartSkipRecord Zoned)

-- What a transition reads besides: the configuration, `Instant::now()` and the timestamp's text.
pub record Env : Type 0 where
  pub counter_reset_any_reach : Bool
  pub api_port_probe_interval_secs : ℕ
  pub now : ℕ
  pub chrono_timestamp : Text
  pub socat_spawns : Bool  -- whether a new socat process can be started

abbrev without_login_button : ObservedWindow → ObservedWindow
without_login_button w = record w { has_login_button = false }

unfoldable pub clear_login_buttons : AgentObservation → AgentObservation
clear_login_buttons o = record o { windows = map without_login_button o.windows }

abbrev pop_front : List Transition → List Transition
pop_front [] = []
pop_front (x ∷ xs) = xs

-- The history of at most 100 entries, the latest last.
unfoldable pub record_transition : Text → State → State → List Transition → List Transition
unfolding display
record_transition timestamp from to history =
    if state_eq from to
    then history
    else (if leb 100 (length history) then pop_front history else history)
      ++ (record { timestamp = timestamp; from = display from; to = display to } ∷ [])

-- A challenge was answered, as seen from the transition.
unfoldable pub answers_2fa : State → Bool → State → Bool
unfolding state_eq
answers_2fa state twofa_seen next =
    ((state_eq state waiting_for2fa && twofa_seen)
      && (state_eq next dismissing_popups
          || state_eq next waiting_for_api_ready
          || state_eq next configuring_api
          || state_eq next connected))
    || (state_eq state waiting_for_hitl2fa && state_eq next waiting_for_api_ready)

-- The end of `apply_transition`: an error is a restart.
abbrev pub arrive : State → State
arrive (error _) = restarting
arrive s = s

abbrev pub enter_session : Env → Session → Session
enter_session env s = record s {
  connection_event_disconnected = false;
  connected_since = some env.now;
  connected_continuously_since = some env.now;
  api_port_probe_task = ltb 0 env.api_port_probe_interval_secs;
  api_port_probe_failed = false;
}

abbrev pub leave_session : Session → Session
leave_session s = record {
  connected_since = none;
  connected_continuously_since = none;
  settings_good_marked = false;
  api_port_probe_task = false;
  api_port_probe_failed = false;
  revocation = clear_all s.revocation;
  connection_event_disconnected = false;
  client_id_task = false;
  connected_window_class = none;
  socat_process = false;
}

abbrev pub no_hitl : Hitl
no_hitl = record {
  entered_at = none;
  next_retry_at = none;
  intervals_index = 0;
  ntfy_attempts = 0;
  ntfy_sent = false;
  login_form_observation_ticks = 0;
  connected_observation_ticks = 0;
}

module _ {Zoned : Type 0} where
  -- The ceiling, the history, and the tracking of the state.
  unfoldable pub begin_transition : Env → State → StateMachine Zoned → StateMachine Zoned
  unfolding record_transition state_eq
  begin_transition env next m = record m {
    pause = elim m.pause.ceiling_state [
      | none ↦ m.pause
      | some ceiling ↦
          if state_eq next ceiling then record { paused = true; ceiling_state = none } else m.pause
    ];
    transition_history = record_transition env.chrono_timestamp m.state next m.transition_history;
    state_entered_at = env.now;
    consecutive_agent_failures = 0;
    cold_restart_equivalent_pending =
        m.cold_restart_equivalent_pending || answers_2fa m.state m.twofa_seen next;
  }

  -- Entering and leaving Connected.
  unfoldable pub cross_connected : Env → State → StateMachine Zoned → StateMachine Zoned
  unfolding state_eq is_credential_gathering
  cross_connected env next m =
      if state_eq next connected && not (state_eq m.state connected)
      then record m {
        dwell_guard = true;
        marker_writes =
            if is_credential_gathering m.state && m.cold_restart_equivalent_pending
            then m.marker_writes + 1
            else m.marker_writes;
        cold_restart_equivalent_pending = false;
        twofa_retry_not_before = none;
        twofa_retry_waiting_for_screen = false;
        relogin_attempts = 0;
        consecutive_2fa_timeouts =
            if env.counter_reset_any_reach then 0 else m.consecutive_2fa_timeouts;
        session = enter_session env m.session;
      }
      else if state_eq m.state connected && not (state_eq next connected)
      then record m { dwell_guard = false; session = leave_session m.session }
      else if not (state_eq next connected)
      then record m {
        session = record m.session { connected_since = none; connected_continuously_since = none };
      }
      else m

  -- What is reset for the next state.
  unfoldable pub prepare_next : Env → State → StateMachine Zoned → StateMachine Zoned
  unfolding state_eq clear_login_buttons
  prepare_next env next m = record m {
    hitl =
        if state_eq m.state waiting_for_hitl2fa && not (state_eq next waiting_for_hitl2fa)
        then no_hitl
        else m.hitl;
    twofa_device_selected =
        if state_eq next waiting_for_login
          || state_eq next waiting_for2fa
          || state_eq next launching
          || state_eq next restarting
        then false
        else m.twofa_device_selected;
    warm_restart_pending =
        if state_eq next shutdown || state_eq next waiting_for_launch
        then none
        else m.warm_restart_pending;
    twofa_seen = if state_eq next waiting_for2fa then false else m.twofa_seen;
    twofa_gone_at = if state_eq next waiting_for2fa then none else m.twofa_gone_at;
    popup_last_dismissed = if state_eq next dismissing_popups then none else m.popup_last_dismissed;
    relogin_attempts =
        if state_eq next reconnecting_session then m.relogin_attempts + 1 else m.relogin_attempts;
    cold_restart_equivalent_pending =
        if state_eq next launching then false else m.cold_restart_equivalent_pending;
    observation =
        if state_eq next restarting || state_eq next launching
        then record { windows = []; last_updated = env.now; last_event_seq = 0; synced = false }
        else if state_eq next dismissing_popups
            || state_eq next waiting_for2fa
            || state_eq next waiting_for_api_ready
            || state_eq next configuring_api
            || state_eq next connected
        then clear_login_buttons m.observation
        else m.observation;
  }

  unfoldable pub apply_transition : Env → State → StateMachine Zoned → StateMachine Zoned
  unfolding begin_transition cross_connected prepare_next state_eq
  apply_transition env next m =
      let m' = prepare_next env next (cross_connected env next (begin_transition env next m)) in
      record m' {
        state = arrive next;
        session = record m'.session {
          client_id_task = m'.session.client_id_task && not (state_eq next shutdown);
          socat_process = m'.session.socat_process && not (state_eq next shutdown);
        };
      }

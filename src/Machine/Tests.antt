-- ===== src/Machine/Tests.antt =====
-- The state machine at concrete inputs.
mod Handlers
use ibctl.Base.{
  ℕ, Bool, max, ◌≡◌, ◌≢◌, refl, true, false, ◌||◌, none, some, List, [], ◌∷◌, is_some, arith,
}
use ibctl.Base.Text.{codes, text_eq}
use ibctl.ColdRestart.{fire, skipped, fresh_auth_today, ColdRestartSignal}
use ibctl.Machine.State.{
  connected, restarting, launching, waiting_for_login, waiting_for_launch, dismissing_popups,
  waiting_for2fa, error, state_eq, client_advisory, is_credential_gathering, waiting_for_agent,
}
use ibctl.Machine.Revocation.{login_form_visible, tag}
use ibctl.Machine.Lifecycle.{
  StateMachine, Env, apply_transition, no_hitl, answers_2fa, begin_transition, cross_connected,
  prepare_next,
}
use ibctl.Machine.Probe.{
  probe_rounds, has_failing, start_api_port_probe, probe_rounds-start_api_port_probe,
}
use ibctl.Config.Data.{paper}
use ibctl.Config.Defaults.{default_gateway}
use ibctl.Machine.Lifecycle.Marker.{Move, moves, move, moves-NoAnswer}
use ibctl.Machine.Lifecycle.Tidy.{IsTidy, apply_transition-IsTidy}
use ibctl.Machine.Command.{stop, set_state}
use ibctl.Machine.Lifecycle.Commands.{is_dormant}
use ibctl.Machine.Lifecycle.Commands.Laws.{
  Step, steps, transitions, commanded, terminated, cold_restarted, IsBounded, steps-IsBounded,
  cold_restarts,
}
use ibctl.Machine.Lifecycle.Commands.Restart.{restarted, kept, restarted-kept}

abbrev pub env : Env
env = record {
  counter_reset_any_reach = true;
  api_port_probe_interval_secs = 30;
  now = 5000;
  chrono_timestamp = codes "1700000000";
  socat_spawns = true;
}

-- In Connected, with the login form seen a moment ago.
abbrev pub online : StateMachine ℕ
online = record {
  state = connected;
  pause = record { paused = false; ceiling_state = none };
  ib_status = record {
    available = true;
    status = codes "available";
    reason = [];
    last_updated = none;
    return_state = none;
  };
  transition_history = [];
  state_entered_at = 1000;
  consecutive_agent_failures = 0;
  twofa_seen = true;
  twofa_device_selected = true;
  twofa_gone_at = some 900;
  twofa_retry_not_before = none;
  twofa_retry_waiting_for_screen = false;
  consecutive_2fa_timeouts = 0;
  relogin_attempts = 0;
  config_retries = 0;
  consecutive_jvm_restarts = 0;
  popup_last_dismissed = none;
  warm_restart_pending = none;
  cold_restart_equivalent_pending = false;
  marker_writes = 1;
  dwell_guard = true;
  session = record {
    connected_since = some 1000;
    connected_continuously_since = some 1000;
    settings_good_marked = true;
    api_port_probe_task = true;
    api_port_probe_failed = false;
    revocation = (tag login_form_visible, (4900, login_form_visible)) ∷ [];
    connection_event_disconnected = false;
    client_id_task = true;
    connected_window_class = some (codes "ibgateway.ay");
    socat_process = true;
  };
  hitl = no_hitl;
  observation = record { windows = []; last_updated = 1000; last_event_seq = 7; synced = true };
  last_cold_restart_skip = none;
}

online-IsTidy : IsTidy online
unfolding state_eq text_eq
online-IsTidy = record {
  no_error = refl;
  history_bounded = ground arith;
  session_over = λ n. ground arith;
  no_dwell = λ n. ground arith;
}

apply_transition-IsTidy_example : IsTidy (apply_transition env restarting online)
apply_transition-IsTidy_example = apply_transition-IsTidy env restarting online online-IsTidy

-- A warm restart: through the login to Connected, without a challenge.
abbrev warm : List Move
warm =
    record { env = env; seen = false; assigned = none; next = restarting }
    ∷ record { env = env; seen = false; assigned = none; next = launching }
    ∷ record { env = env; seen = false; assigned = none; next = waiting_for_agent }
    ∷ record { env = env; seen = false; assigned = none; next = waiting_for_login }
    ∷ record { env = env; seen = false; assigned = none; next = connected }
    ∷ []

moves-NoAnswer_example : (moves warm online).marker_writes ≡ 1
unfolding answers_2fa state_eq move apply_transition
moves-NoAnswer_example = moves-NoAnswer warm online refl (refl, (refl, (refl, (refl, (refl, tt)))))

-- With an answered challenge the marker is written.
answered_test :
    (moves
      (record { env = env; seen = true; assigned = some waiting_for2fa; next = dismissing_popups }
        ∷ record { env = env; seen = true; assigned = none; next = connected }
        ∷ [])
      online).marker_writes
    ≡ 2
unfolding moves move apply_transition begin_transition cross_connected prepare_next answers_2fa
    state_eq text_eq is_credential_gathering
answered_test = refl

abbrev pub standby : StateMachine ℕ
standby = record online { state = waiting_for_launch }

abbrev two_signals : List (ℕ × ColdRestartSignal ℕ)
two_signals = (7, fire) ∷ (8, skipped (fresh_auth_today 6)) ∷ []

restarted-kept_example :
    kept (restarted env ((env, waiting_for_agent) ∷ (env, launching) ∷ []) online).session
    ≡ kept online.session
unfolding state_eq
restarted-kept_example =
    restarted-kept env ((env, waiting_for_agent) ∷ (env, launching) ∷ []) online (refl, (refl, tt))

-- With a threshold of 3, the third failure in a row raises the flag.
abbrev handshakes : List Bool
handshakes = false ∷ false ∷ true ∷ false ∷ false ∷ false ∷ true ∷ []

probe_rounds-start_api_port_probe_example :
    (probe_rounds 3 handshakes
      (record { consecutive_failures = 0; failed_flag = false })).failed_flag
    ≡ has_failing (max 1 3) handshakes
unfolding start_api_port_probe
probe_rounds-start_api_port_probe_example =
    probe_rounds-start_api_port_probe 30 3 paper default_gateway 4002 _ handshakes (omega arith)
      refl

raised_test : has_failing (max 1 3) handshakes ≡ true
raised_test = refl

-- ===== src/Machine/Tests/Handlers.antt =====
-- The state handlers at concrete inputs.
use ibctl.Base.{
  ℕ, ◌+◌, ◌≡◌, ◌<◌, ◌≤◌, ◌^◌, refl, true, false, none, some, List, [], ◌∷◌, map, inl, arith,
}
use ibctl.Base.Text.{codes}
use ibctl.Base.Words.{Casing, ascii_lower, ascii_upper}
use ibctl.Machine.State.{waiting_for2fa, restarting}
use ibctl.Machine.Lifecycle.{StateMachine}
use ibctl.Machine.Events.{AgentEvent, opened, closed, overflow}
use ibctl.Machine.Events.Cache.{view, updates, handle_agent_events, handle_agent_events-view}
use ibctl.Machine.Json.{Json, object, array, string, member, empty, element, end}
use ibctl.Machine.Handlers.{
  Agent, Settings, WindowInfo, unmatched, handled, restart_then_hitl, periodic, restart, secs,
}
use ibctl.Machine.Handlers.Confirmed.{Confirms, session_ready-Confirms}
use ibctl.Machine.Handlers.Login.{backs_off}
use ibctl.Machine.Handlers.Popups.{do_wait_for_api_ready}
use ibctl.Machine.Handlers.Recover.{do_restart}
use ibctl.Machine.Handlers.Restarts.{restarts_end}
use ibctl.Machine.Handlers.Connected.{do_connected}
use ibctl.Machine.Handlers.Steady.{Turn, step, Sees, SeenSince, login_form-SeenSince}
use ibctl.Machine.Handlers.TwoFactor.{do_wait_for_2fa}
use ibctl.Machine.Handlers.TwoFactor.Laws.{Passed, do_wait_for_2fa-Passed}
use ibctl.Machine.Tests.{online}

abbrev ascii : Casing
ascii = record { to_uppercase = map ascii_upper; to_lowercase = map ascii_lower }

-- One Gateway window, whose API server is connected.
abbrev gateway : WindowInfo
gateway = record { id = 7; title = codes "IB Gateway"; class = codes "ibgateway.ay"; bounds = none }

abbrev connected_dump : Json
connected_dump = object (
    member (codes "labels")
      (array (element (string (codes "API Server")) (element (string (codes "connected")) end)))
      empty)

abbrev agent : Agent
agent = record {
  is_running = true;
  health = some true;
  list_windows = λ n. some (gateway ∷ []);
  dump_components = λ n id. some connected_dump;
  dispatch_named = λ name id. handled;
  dispatch = λ id. unmatched;
  select_list_item = λ id item. none;
  launch = λ hash. true;
  apply_api_config = true;
  cold_restart_signal = false;
  find_autorestart_path = none;
  socat_exited = false;
  socat_spawns = true;
}

abbrev config : Settings
config = record {
  tws_path_exists = true;
  tws_path = codes "/root/Jts";
  login_dialog_timeout_secs = 60;
  device = [];
  has_secret = true;
  timeout_seconds = 180;
  relogin_after_timeout = true;
  exits_on_timeout = false;
  on_timeout = restart_then_hitl;
  max_immediate_attempts = 3;
  api_disconnected_grace_secs = 600;
  relogin_max_attempts = 3;
  relogin_failure_action = restart;
  restart_delay_secs = 90;
  exit_threshold = 8;
  strategy = periodic;
  intervals_minutes = 5 ∷ 15 ∷ 30 ∷ [];
  cold_restart_preempts_hitl = true;
  resets_when_stable = false;
  stable_secs = 300;
  min_success_dwell_secs = 300;
}

-- The dialog was there and has been gone for a minute.
abbrev answered : StateMachine ℕ
answered = record online { state = waiting_for2fa; twofa_gone_at = some (secs 10) }

do_wait_for_2fa-Passed_example :
    (answered.twofa_retry_waiting_for_screen ≡ false)
    × (backs_off (secs 70) answered.twofa_retry_not_before ≡ false)
    × ((windows : List WindowInfo) × (agent.list_windows 1 ≡ some windows)
        × Passed ascii agent config (secs 70) answered windows)
unfolding do_wait_for_2fa
do_wait_for_2fa-Passed_example = do_wait_for_2fa-Passed ascii agent config (secs 70) answered refl

session_ready-Confirms_example : Confirms ascii agent
unfolding do_wait_for_api_ready
session_ready-Confirms_example =
    session_ready-Confirms ascii agent config (secs 70) online (inl refl)

-- The third restart in a row.
abbrev restarted : StateMachine ℕ
restarted = record online { state = restarting; consecutive_jvm_restarts = 2 }

abbrev restarted_again : StateMachine ℕ
restarted_again = record restarted { consecutive_jvm_restarts = 3 }

restarts_end_example : 2 + 2 < 8
unfolding do_restart
restarts_end_example = restarts_end config 2 restarted (omega arith) (omega arith) (omega arith) (
  secs 400,
  refl,
  refl,
  (
    restarted_again,
    refl,
    (secs 2000, refl, refl, (record restarted { consecutive_jvm_restarts = 4 }, refl, tt)),
  ),
)

abbrev events : List (ℕ × AgentEvent)
events =
    (1, opened 1 7 (codes "IB Gateway") (codes "a") true)
    ∷ (2, opened 2 8 (codes "Tip of the day") (codes "b") false)
    ∷ (3, closed 3 7 (codes "IB Gateway"))
    ∷ (4, overflow)
    ∷ []

handle_agent_events-view_example :
    view (handle_agent_events events online).observation.windows 7
    ≡ updates events (view online.observation.windows) 7
handle_agent_events-view_example = handle_agent_events-view events online 7

-- A login form on the main window, at the tenth second and at the twelfth.
abbrev first_turn : Turn ℕ
first_turn = record {
  agent = agent;
  config = config;
  now = secs 10;
  machine = record online {
    session = record online.session { revocation = [] };
    observation = record online.observation {
      windows =
          record {
            id = 7;
            title = codes "IB Gateway";
            class = codes "ibgateway.ay";
            has_login_button = true;
          }
          ∷ [];
    };
  };
}

abbrev second_turn : Turn ℕ
second_turn = record first_turn { now = secs 12; machine = (step ascii first_turn).machine }

login_form-SeenSince_example :
    Sees ascii second_turn
    × ((first : ℕ) × (first + 10 ^ 9 ≤ secs 12) × SeenSince ascii first (first_turn ∷ []))
unfolding do_connected
login_form-SeenSince_example =
    login_form-SeenSince ascii second_turn (first_turn ∷ []) (refl, refl, refl) refl

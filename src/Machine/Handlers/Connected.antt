-- ===== src/Machine/Handlers/Connected.antt =====
-- `do_connected` of ibctl/src/state_machine/mod.rs. The client ids that its task reports are no part
-- of the machine here, nor is the file that marks good settings. The second look at socat finds what
-- the first one left.
use ibctl.Base.{
  ℕ, ◌-◌, ◌/◌, ◌%◌, Bool, true, false, not, ◌&&◌, ◌||◌, Option, none, some, List, [], map, ◌==◌,
  ltb, leb, any, is_some, if◌then◌else◌, ◌^◌,
}
use ibctl.Base.Text.{Text, codes, text_eq}
use ibctl.Base.Words.{Casing, contains}
use ibctl.Machine.State.{State, connected, waiting_for2fa}
use ibctl.Machine.Revocation.{
  RevocationSource, RevocationTag, Tracker, observe, clear, next_state, any_pending,
}
use ibctl.Machine.Lifecycle.{StateMachine, ObservedWindow}
use ibctl.Machine.Events.{
  Effect, dispatched, main_gateway_window, has_relogin_dialog, has_session_conflict, is_twofa_title,
}
use ibctl.Machine.Json.{Json, components_have_login_form, components_indicate_disconnected}
use ibctl.Machine.Handlers.{
  WindowInfo, Agent, Settings, Tick, goes, doing, secs, is_gateway_title, gateway_window,
}
use ibctl.Machine.Handlers.TwoFactor.{some_gateway, shows_form}

-- A step goes on with the machine, or it has found the next state.
pub data Course (Zoned : Type 0) : Type 0 where
  onward : StateMachine Zoned → Course Zoned
  leaves : StateMachine Zoned → State → Course Zoned

module _ {Zoned : Type 0} where
  infixl 5 ◌then◌
  abbrev pub ◌then◌ : Course Zoned → (StateMachine Zoned → Course Zoned) → Course Zoned
  (onward m) then f = f m
  (leaves m s) then f = leaves m s

  abbrev pub with_tracker : StateMachine Zoned → Tracker → StateMachine Zoned
  with_tracker m tracker = record m { session = record m.session { revocation = tracker } }

  abbrev pub observed :
      StateMachine Zoned → RevocationSource → Tracker × Option RevocationSource → Course Zoned
  observed m source (tracker, none) = onward (with_tracker m tracker)
  observed m source (tracker, some fired) = leaves (with_tracker m tracker) (next_state fired)

  -- A source that is seen or not: it is recorded and may fire, or its debounce is dropped.
  unfoldable pub contradict :
      ℕ → Bool → RevocationSource → RevocationTag → StateMachine Zoned → Course Zoned
  unfolding observe clear next_state
  contradict now seen source tag m =
      if seen
      then observed m source (observe m.session.revocation source now)
      else onward (with_tracker m (clear m.session.revocation tag))

  abbrev pub listener : StateMachine Zoned → Tracker × Option RevocationSource → Course Zoned
  listener m (tracker, none) = onward (with_tracker m tracker)
  listener m (tracker, some fired) =
      leaves
        (record m {
          session = record m.session { revocation = tracker; api_port_probe_failed = false };
        })
        (next_state fired)

  -- The listener of the API port: nothing is dropped while it is there.
  unfoldable pub check_api_port : ℕ → StateMachine Zoned → Course Zoned
  unfolding observe next_state
  check_api_port now m =
      if not m.session.api_port_probe_failed
      then onward m
      else listener m (observe m.session.revocation RevocationSource.api_port_listener_lost now)

abbrev class_of : Option ObservedWindow → Option WindowInfo → Option Text
class_of (some main) polled = some main.class
class_of none (some w) = some w.class
class_of none none = none

abbrev find_gateway : Casing → Option (List WindowInfo) → Option WindowInfo
find_gateway casing none = none
find_gateway casing (some windows) = gateway_window casing windows

abbrev pub has_button : Option ObservedWindow → Bool
has_button none = false
has_button (some main) = main.has_login_button

abbrev is_main_id : Option ObservedWindow → ℕ → Bool
is_main_id none id = false
is_main_id (some main) id = main.id == id

-- A class that changed without a login form is the window's new class.
abbrev morphed : Option Text → Option ObservedWindow → Option Text
morphed (some expected) (some main) =
    if not (text_eq main.class expected) && not main.has_login_button
    then some main.class
    else some expected
morphed class _ = class

abbrev shows_disconnected : Casing → Option Json → Bool
shows_disconnected casing none = false
shows_disconnected casing (some components) = components_indicate_disconnected casing components

abbrev dispatches : List WindowInfo → List Effect
dispatches windows = map (λ w. dispatched [] w.id) windows

abbrev pub dispatched_to : Option (List WindowInfo) → List Effect
dispatched_to none = []
dispatched_to (some windows) = dispatches windows

-- What the probe of one step found.
pub record Probe : Type 0 where
  pub login_form : Bool
  pub disconnected_label : Bool
  pub twofa : Bool

abbrev no_probe : Probe
no_probe = record { login_form = false; disconnected_label = false; twofa = false }

module _ (casing : Casing) where
  unfoldable pub probe : (ℕ → Option Json) → Option (List WindowInfo) → Bool → Probe
  unfolding some_gateway is_twofa_title components_have_login_form components_indicate_disconnected
  probe dump none needed = no_probe
  probe dump (some windows) needed = if not needed then no_probe else record {
    login_form = some_gateway casing shows_form dump windows;
    disconnected_label = some_gateway casing (shows_disconnected casing) dump windows;
    twofa = any (λ w. is_twofa_title casing w.title) windows;
  }

  abbrev is_second_gateway : Option ObservedWindow → ObservedWindow → Bool
  is_second_gateway main w =
      is_gateway_title casing w.title
      && not (contains (casing.to_lowercase w.title) (codes "configuration"))
      && not (is_main_id main w.id)

module _ (casing : Casing) {Zoned : Type 0} where
  -- Pending sources, what the observation shows, or three seconds of every thirty.
  unfoldable pub probe_needed : ℕ → StateMachine Zoned → Bool
  unfolding main_gateway_window contains
  probe_needed now m =
      let main = main_gateway_window casing m.observation in
      any_pending m.session.revocation
      || has_button main
      || any (is_second_gateway casing main) m.observation.windows
      || ltb ((now - m.state_entered_at) / 10 ^ 9 % 30) 3

  -- The class of the window, socat and the task of the client ids, at the start of a step.
  unfoldable pub prepare : Agent → StateMachine Zoned → StateMachine Zoned
  unfolding main_gateway_window contains
  prepare agent m = record m {
    session = record m.session {
      connected_window_class =
          if is_some m.session.connected_window_class
          then m.session.connected_window_class
          else class_of (main_gateway_window casing m.observation)
              (find_gateway casing (agent.list_windows 0));
      socat_process =
          if m.session.socat_process && not agent.socat_exited then true else agent.socat_spawns;
      client_id_task = true;
    };
  }

  unfoldable pub check_jvm : Agent → ℕ → StateMachine Zoned → Course Zoned
  unfolding observe next_state
  check_jvm agent now m =
      if agent.is_running
      then onward m
      else leaves
          (record m {
            warm_restart_pending = agent.find_autorestart_path;
            session = record m.session {
              revocation = (observe m.session.revocation RevocationSource.jvm_died now).0;
            };
          })
          (next_state RevocationSource.jvm_died)

  abbrev pub morph : StateMachine Zoned → StateMachine Zoned
  morph m = record m {
    session = record m.session {
      revocation = clear m.session.revocation RevocationTag.error_dialog;
      connected_window_class =
          morphed m.session.connected_window_class (main_gateway_window casing m.observation);
    };
  }

  -- The contradictions in the order of the code, up to the probe.
  unfoldable pub contradictions : Agent → ℕ → StateMachine Zoned → Course Zoned
  unfolding check_jvm contradict check_api_port has_relogin_dialog has_session_conflict
  contradictions agent now m =
      check_jvm agent now m
      then (λ m.
          contradict now m.session.connection_event_disconnected
            RevocationSource.connection_status_event RevocationTag.connection_status_event m)
      then check_api_port now
      then (λ m.
          contradict now (has_relogin_dialog casing m.observation) RevocationSource.relogin_dialog
            RevocationTag.relogin_dialog m)
      then (λ m.
          contradict now (has_session_conflict casing m.observation)
            RevocationSource.session_conflict RevocationTag.session_conflict m)

  unfoldable pub check_probe : ℕ → Probe → StateMachine Zoned → Course Zoned
  unfolding contradict main_gateway_window
  check_probe now p m =
      if p.twofa
      then leaves m waiting_for2fa
      else contradict now (has_button (main_gateway_window casing m.observation) || p.login_form)
          RevocationSource.login_form_visible RevocationTag.login_form_visible m
        then contradict now p.disconnected_label RevocationSource.disconnected_label_stable
            RevocationTag.disconnected_label_stable

abbrev held : ℕ → Option ℕ → ℕ → Bool
held now none n = false
held now (some t) n = leb (secs n) (now - t)

module _ {Zoned : Type 0} where
  -- The counters that a session that holds resets.
  unfoldable pub settle : Settings → ℕ → StateMachine Zoned → StateMachine Zoned
  settle config now m =
      let since = m.session.connected_continuously_since in
      let stable = held now since config.min_success_dwell_secs in
      record m {
        consecutive_2fa_timeouts =
            if config.resets_when_stable && held now since config.stable_secs
            then 0
            else m.consecutive_2fa_timeouts;
        consecutive_jvm_restarts = if stable then 0 else m.consecutive_jvm_restarts;
        session = record m.session {
          settings_good_marked = m.session.settings_good_marked || stable;
        };
      }

  abbrev pub finish : Settings → ℕ → List Effect → Course Zoned → Tick Zoned
  finish config now effects (leaves m s) = doing effects (goes m s)
  finish config now effects (onward m) = doing effects (goes (settle config now m) connected)

module _ (casing : Casing) {Zoned : Type 0} where
  -- The windows are listed once, probed if needed, and every one is offered to the handlers.
  unfoldable pub probed : Agent → Settings → ℕ → StateMachine Zoned → Tick Zoned
  unfolding probe probe_needed check_probe settle clear
  probed agent config now m =
      let windows = agent.list_windows 1 in
      finish config now (dispatched_to windows) (
        check_probe casing now
          (probe casing (agent.dump_components 0) windows
            (probe_needed casing now (morph casing m)))
          (morph casing m))

  abbrev pub after : Agent → Settings → ℕ → Course Zoned → Tick Zoned
  after agent config now (leaves m s) = goes m s
  after agent config now (onward m) = probed agent config now m

  unfoldable pub do_connected : Agent → Settings → ℕ → StateMachine Zoned → Tick Zoned
  unfolding prepare contradictions probed
  do_connected agent config now m =
      after agent config now (contradictions casing agent now (prepare casing agent m))

-- ===== src/Machine/Events.antt =====
-- ibctl/src/agent_events.rs: the cache of the agent's windows, what it says of the screen, and
-- `handle_agent_event` of ibctl/src/state_machine/mod.rs. Case is the parameter `Casing`.
pub mod Cache
use ibctl.Base.{
  ℕ, ◌+◌, ◌*◌, ◌^◌, ◌-◌, Bool, true, false, not, ◌&&◌, ◌||◌, Option, none, some, List, [], ◌∷◌,
  ◌++◌, map, ◌==◌, leb, min, filter_by, find, any, is_some, if◌then◌else◌,
}
use ibctl.Base.Int.{ℤ}
use ibctl.Base.Text.{Text, codes, text_eq}
use ibctl.Base.Words.{Casing, contains, contains_any, ascii_lower, join}
use ibctl.TimeSync.{saturating_add, is_twofa_failure, parse_retry_seconds}
use ibctl.Machine.State.{connected, state_eq}
use ibctl.Machine.Revocation.{RevocationSource, RevocationTag, observe, clear}
use ibctl.Machine.Lifecycle.{AgentObservation, ObservedWindow, StateMachine}

pub record EventBounds : Type 0 where
  pub x : ℤ
  pub y : ℤ
  pub width : ℤ
  pub height : ℤ

pub record SnapshotWindow : Type 0 where
  pub window_id : ℕ
  pub window_title : Text
  pub window_class : Text
  pub has_login_button : Bool
  pub bounds : Option EventBounds

pub data AgentEvent : Type 0 where
  hello : ℕ → AgentEvent
  snapshot : ℕ → List SnapshotWindow → AgentEvent
  opened : ℕ → ℕ → Text → Text → Bool → AgentEvent
  closed : ℕ → ℕ → Text → AgentEvent
  overflow keepalive : AgentEvent
  login_form_ready : ℕ → ℕ → Option Text → Option Text → AgentEvent
  twofa_prompt : Text → List Text → AgentEvent
  error_dialog : Text → Option Text → List Text → AgentEvent
  connection_status_changed : Text → Text → AgentEvent

abbrev observed : SnapshotWindow → ObservedWindow
observed w = record {
  id = w.window_id;
  title = w.window_title;
  class = w.window_class;
  has_login_button = w.has_login_button;
}

unfoldable pub apply_snapshot : ℕ → List SnapshotWindow → ℕ → AgentObservation → AgentObservation
apply_snapshot now windows seq o = record {
  windows = map observed windows;
  last_updated = now;
  last_event_seq = seq;
  synced = true;
}

abbrev other_id : ℕ → ObservedWindow → Bool
other_id id w = not (w.id == id)

-- `retain`, then `push`
unfoldable pub window_opened : ℕ → ObservedWindow → ℕ → AgentObservation → AgentObservation
window_opened now w seq o = record o {
  windows = filter_by (other_id w.id) o.windows ++ (w ∷ []);
  last_event_seq = seq;
  last_updated = now;
}

unfoldable pub window_closed : ℕ → ℕ → ℕ → AgentObservation → AgentObservation
window_closed now id seq o = record o {
  windows = filter_by (other_id id) o.windows;
  last_event_seq = seq;
  last_updated = now;
}

unfoldable pub mark_desync : AgentObservation → AgentObservation
mark_desync o = record o { synced = false }

module _ (casing : Casing) where
  abbrev is_gateway : ObservedWindow → Bool
  is_gateway w =
      contains_any (casing.to_lowercase w.title)
        (codes "ib gateway" ∷ codes "ibkr gateway" ∷ codes "interactive brokers gateway" ∷ [])

  abbrev is_main : ObservedWindow → Bool
  is_main w = is_gateway w && not (contains (casing.to_lowercase w.title) (codes "configuration"))

  unfoldable pub main_gateway_window : AgentObservation → Option ObservedWindow
  unfolding contains
  main_gateway_window o = find is_main o.windows

  unfoldable pub has_login_form : AgentObservation → Bool
  unfolding contains
  has_login_form o = any (λ w. is_gateway w && w.has_login_button) o.windows

  unfoldable pub is_twofa_title : Text → Bool
  unfolding contains
  is_twofa_title title = contains_any (casing.to_lowercase title) (
      codes "second factor"
      ∷ codes "two-factor"
      ∷ codes "2fa"
      ∷ codes "security code"
      ∷ codes "ib key authenticat"
      ∷ codes "ibkr mobile authenticat"
      ∷ codes "mobile authenticator"
      ∷ codes "verification code"
      ∷ codes "one-time password"
      ∷ codes "one time password"
      ∷ codes "passcode"
      ∷ codes "authentication challenge"
      ∷ [])

  unfoldable pub has_2fa_dialog : AgentObservation → Bool
  unfolding is_twofa_title
  has_2fa_dialog o = any (λ w. is_twofa_title w.title) o.windows

  abbrev pub is_conflict_title : Text → Bool
  is_conflict_title title = contains (casing.to_lowercase title) (codes "existing session")

  unfoldable pub has_session_conflict : AgentObservation → Bool
  unfolding contains
  has_session_conflict o = any (λ w. is_conflict_title w.title) o.windows

  unfoldable pub has_relogin_dialog : AgentObservation → Bool
  unfolding contains
  has_relogin_dialog o =
      any
        (λ w.
          contains_any (casing.to_lowercase w.title)
            (codes "re-login is required" ∷ codes "re-login" ∷ codes "relogin" ∷ []))
        o.windows

-- What a step asks of the rest of the program.
pub data Effect : Type 0 where
  reset_handlers verify_time : Effect
  launched : Option Text → Effect
  clicked : ℕ → Text → Effect
  dispatched : Text → ℕ → Effect
  killed : Effect

abbrev eq_ignore_ascii_case : Text → Text → Bool
eq_ignore_ascii_case s t = text_eq (map ascii_lower s) (map ascii_lower t)

abbrev pub or_empty : Option Text → Text
or_empty none = []
or_empty (some t) = t

-- A rejected code: the delay that the text gives is waited out, two seconds more; without one the
-- screen is watched.
module _ {Zoned : Type 0} where
  unfoldable pub reject : ℕ → Option ℕ → StateMachine Zoned → StateMachine Zoned
  reject now (some server_wait) m = record m {
    twofa_retry_not_before = some (now + saturating_add server_wait 2 * 10 ^ 9);
    twofa_retry_waiting_for_screen = false;
  }
  reject now none m = record m {
    twofa_retry_not_before = none;
    twofa_retry_waiting_for_screen = true;
  }

  unfoldable pub status_changed : ℕ → Text → StateMachine Zoned → StateMachine Zoned
  unfolding state_eq observe clear
  status_changed now to m =
      if not (state_eq m.state connected)
      then m
      else if eq_ignore_ascii_case to (codes "disconnected")
      then record m {
        session = record m.session {
          connection_event_disconnected = true;
          revocation =
              (observe m.session.revocation RevocationSource.connection_status_event now).0;
        };
      }
      else if eq_ignore_ascii_case to (codes "connected")
      then record m {
        session = record m.session {
          connection_event_disconnected = false;
          revocation = clear m.session.revocation RevocationTag.connection_status_event;
        };
      }
      else m

  unfoldable pub error_text : ℕ → Text → StateMachine Zoned → StateMachine Zoned × List Effect
  unfolding reject is_twofa_failure parse_retry_seconds
  error_text now combined m =
      if is_twofa_failure combined
      then (reject now (parse_retry_seconds combined) m, reset_handlers ∷ verify_time ∷ [])
      else (m, [])

  unfoldable pub handle_agent_event :
      ℕ → AgentEvent → StateMachine Zoned → StateMachine Zoned × List Effect
  unfolding apply_snapshot window_opened window_closed mark_desync error_text status_changed
  handle_agent_event now (hello _) m = (m, [])
  handle_agent_event now (snapshot seq windows) m =
      (record m { observation = apply_snapshot now windows seq m.observation }, [])
  handle_agent_event now (opened seq id title class button) m =
      let w : ObservedWindow = record {
        id = id;
        title = title;
        class = class;
        has_login_button = button;
      } in
      (record m { observation = window_opened now w seq m.observation }, [])
  handle_agent_event now (closed seq id title) m =
      (record m { observation = window_closed now id seq m.observation }, [])
  handle_agent_event now overflow m = (record m { observation = mark_desync m.observation }, [])
  handle_agent_event now keepalive m = (m, [])
  handle_agent_event now (login_form_ready _ _ _ _) m = (m, [])
  handle_agent_event now (twofa_prompt _ _) m = (m, [])
  handle_agent_event now (error_dialog title text buttons) m =
      let combined = join (codes " ") (title ∷ or_empty text ∷ join (codes " ") buttons ∷ []) in
      error_text now combined m
  handle_agent_event now (connection_status_changed from to) m = (status_changed now to m, [])

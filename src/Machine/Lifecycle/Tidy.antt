-- ===== src/Machine/Lifecycle/Tidy.antt =====
-- What `apply_transition` of ibctl/src/state_machine/mod.rs keeps tidy: outside of Connected nothing
-- of the last session is left, the history is bounded, and no error state is ever stored.
use ibctl.Base.{
  ◌≡◌, ◌≤◌, sym, ◌∙◌, false, none, List, [], ◌∷◌, length, length-append, arith, ◌==◌, Bool-cases,
  inl, inr,
}
use ibctl.Base.Text.{Text}
use ibctl.Machine.State.{State, connected, variant, state_eq, display}
use ibctl.Machine.Lifecycle.{
  StateMachine, Session, Env, Transition, begin_transition, cross_connected, prepare_next,
  apply_transition, arrive, record_transition,
}

-- Nothing runs or is remembered of a session.
abbrev pub IsOver : Session → Type 0
IsOver s =
    (s.connected_since ≡ none)
    × (s.connected_continuously_since ≡ none)
    × (s.settings_good_marked ≡ false)
    × (s.api_port_probe_task ≡ false)
    × (s.revocation ≡ [])
    × (s.client_id_task ≡ false)
    × (s.connected_window_class ≡ none)
    × (s.socat_process ≡ false)

pub record IsTidy {Zoned : Type 0} (m : StateMachine Zoned) : Type 0 where
  pub no_error : (variant m.state == 17) ≡ false
  pub history_bounded : length m.transition_history ≤ 100
  pub session_over : state_eq m.state connected ≡ false → IsOver m.session
  pub no_dwell : state_eq m.state connected ≡ false → m.dwell_guard ≡ false

pub record_transition-length :
    (timestamp : Text) (s t : State) (history : List Transition)
    → length history ≤ 100
    → length (record_transition timestamp s t history) ≤ 100
unfolding record_transition
record_transition-length timestamp s t [] h = elim (Bool-cases (state_eq s t)) [
  | inl e ↦ ground (arith, e)
  | inr e ↦ ground (arith, e)
]
record_transition-length timestamp s t (x ∷ history) h =
    let new : Transition = record { timestamp = timestamp; from = display s; to = display t } in
    ground (arith, length-append history (new ∷ []), length-append (x ∷ history) (new ∷ []))

pub arrive-no_error : (s : State) → (variant (arrive s) == 17) ≡ false
arrive-no_error s = ground arith

pub arrive-connected : (s : State) → state_eq (arrive s) connected ≡ state_eq s connected
unfolding state_eq
arrive-connected s = ground arith

module _ {Zoned : Type 0} where
  session_lem :
      (env : Env) (next : State) (m : StateMachine Zoned)
      → IsTidy m
      → state_eq next connected ≡ false
      → IsOver (apply_transition env next m).session
        × ((apply_transition env next m).dwell_guard ≡ false)
  unfolding apply_transition begin_transition cross_connected prepare_next
  session_lem env next m tidy n = elim (Bool-cases (state_eq m.state connected)) [
    | inl c ↦ ground (arith, n, c)
    | inr c ↦ ground (arith, n, c, tidy.session_over c, tidy.no_dwell c)
  ]

  pub history_lem :
      (env : Env) (next : State) (m : StateMachine Zoned)
      → length m.transition_history ≤ 100
      → length (apply_transition env next m).transition_history ≤ 100
  unfolding apply_transition begin_transition cross_connected prepare_next
  history_lem env next m bounded = ground (
    arith,
    record_transition-length env.chrono_timestamp m.state next m.transition_history bounded,
  )

  -- From a tidy machine every transition leads to a tidy one: it is in no error state, has at most
  -- 100 entries of history, and outside of Connected no dwell timer, port probe, socat, client id
  -- task, debounce or time of connection is left.
  pub apply_transition-IsTidy :
      (env : Env) (next : State) (m : StateMachine Zoned)
      → IsTidy m
      → IsTidy (apply_transition env next m)
  unfolding apply_transition begin_transition
  apply_transition-IsTidy env next m tidy = record {
    no_error = arrive-no_error next;
    history_bounded = history_lem env next m tidy.history_bounded;
    session_over = λ n. (session_lem env next m tidy (sym (arrive-connected next) ∙ n)).0;
    no_dwell = λ n. (session_lem env next m tidy (sym (arrive-connected next) ∙ n)).1;
  }

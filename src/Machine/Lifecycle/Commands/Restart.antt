-- ===== src/Machine/Lifecycle/Commands/Restart.antt =====
-- What a restart command leaves behind of a session, ibctl/src/state_machine/mod.rs.
use ibctl.Base.{◌≡◌, refl, ◌∙◌, Bool, false, Option, List, [], ◌∷◌, arith, All}
use ibctl.Base.Text.{Text}
use ibctl.Machine.State.{State, connected, state_eq}
use ibctl.Machine.Revocation.{Tracker}
use ibctl.Machine.Lifecycle.{
  StateMachine, Env, Session, begin_transition, cross_connected, prepare_next, apply_transition,
}
use ibctl.Machine.Lifecycle.Tidy.{arrive-connected}
use ibctl.Machine.Command.{restart}
use ibctl.Machine.Lifecycle.Commands.{dispatch_command}

abbrev pub NotConnected : Env × State → Type 0
NotConnected (env, next) = state_eq next connected ≡ false

-- What only leaving Connected by a transition clears.
abbrev pub kept : Session → Tracker × Bool × Bool × Option Text
kept s = (s.revocation, s.settings_good_marked, s.api_port_probe_task, s.connected_window_class)

module _ {Zoned : Type 0} where
  -- A restart command, and transitions.
  unfoldable pub restarted : Env → List (Env × State) → StateMachine Zoned → StateMachine Zoned
  unfolding apply_transition dispatch_command
  restarted env [] m = dispatch_command env restart m
  restarted env ((env', next) ∷ earlier) m = apply_transition env' next (restarted env earlier m)

  kept_lem :
      (env : Env) (next : State) (m : StateMachine Zoned)
      → state_eq m.state connected ≡ false
      → state_eq next connected ≡ false
      → kept (apply_transition env next m).session ≡ kept m.session
  unfolding apply_transition begin_transition cross_connected prepare_next
  kept_lem env next m away n = ground (arith, away, n)

  restarted_lem :
      (env : Env) (ts : List (Env × State)) (m : StateMachine Zoned)
      → All NotConnected ts
      → (state_eq (restarted env ts m).state connected ≡ false)
        × (kept (restarted env ts m).session ≡ kept m.session)
  unfolding restarted dispatch_command state_eq
  restarted_lem env [] m n = (refl, refl)
  restarted_lem env ((env', next) ∷ ts) m (n, ns) =
      let (away, same) = restarted_lem env ts m ns in
      (arrive-connected next ∙ n, kept_lem env' next (restarted env ts m) away n ∙ same)

  -- A restart command leaves the debounces, the mark of good settings, the port probe and the window
  -- class of the session, and the transitions that follow do too until Connected is reached again.
  pub restarted-kept :
      (env : Env) (ts : List (Env × State)) (m : StateMachine Zoned)
      → All NotConnected ts
      → kept (restarted env ts m).session ≡ kept m.session
  restarted-kept env ts m n = (restarted_lem env ts m n).1

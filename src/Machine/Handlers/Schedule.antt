-- ===== src/Machine/Handlers/Schedule.antt =====
-- The schedule of the automatic retries in ibctl/src/state_machine/mod.rs.
use ibctl.Base.{ℕ, ◌≡◌, refl, ap, ◌∙◌, true, false, arith}
use ibctl.Machine.State.{State, waiting_for_hitl2fa, state_eq}
use ibctl.Machine.Lifecycle.{
  StateMachine, Env, no_hitl, apply_transition, begin_transition, cross_connected, prepare_next,
}
use ibctl.Machine.Handlers.{Settings}
use ibctl.Machine.Handlers.Hitl.{enter_hitl, compute_next_hitl_deadline}

module _ {Zoned : Type 0} where
  cross_lem :
      (env : Env) (next : State) (m : StateMachine Zoned)
      → (cross_connected env next m).state ≡ m.state
  unfolding cross_connected
  cross_lem env next m = ground arith

  begin_lem :
      (env : Env) (next : State) (m : StateMachine Zoned)
      → (begin_transition env next m).state ≡ m.state
  unfolding begin_transition
  begin_lem env next m = refl

  prepare_lem :
      (env : Env) (next : State) (m : StateMachine Zoned)
      → state_eq m.state waiting_for_hitl2fa ≡ true
      → state_eq next waiting_for_hitl2fa ≡ false
      → (prepare_next env next m).hitl ≡ no_hitl
  unfolding prepare_next
  prepare_lem env next m here there = ground (arith, here, there)

  left_lem :
      (env : Env) (next : State) (m : StateMachine Zoned)
      → state_eq m.state waiting_for_hitl2fa ≡ true
      → state_eq next waiting_for_hitl2fa ≡ false
      → (apply_transition env next m).hitl ≡ no_hitl
  unfolding apply_transition
  left_lem env next m here there =
      prepare_lem env next (cross_connected env next (begin_transition env next m))
        (ap (λ s. state_eq s waiting_for_hitl2fa)
            (cross_lem env next (begin_transition env next m) ∙ begin_lem env next m)
          ∙ here)
        there

  -- However many automatic retries came before: when the state is left, the schedule is forgotten, and
  -- the next stay begins with the first interval again.
  hitl_schedule_restarts :
      (env : Env) (next : State) (config : Settings) (now : ℕ) (m m' : StateMachine Zoned)
      → state_eq m.state waiting_for_hitl2fa ≡ true
      → state_eq next waiting_for_hitl2fa ≡ false
      → m'.hitl ≡ (apply_transition env next m).hitl
      → ((enter_hitl config now m').hitl.intervals_index ≡ 0)
        × ((enter_hitl config now m').hitl.next_retry_at
            ≡ compute_next_hitl_deadline now config.strategy config.intervals_minutes 0)
  unfolding enter_hitl
  hitl_schedule_restarts env next config now m m' here there same =
      ground (arith, same ∙ left_lem env next m here there)

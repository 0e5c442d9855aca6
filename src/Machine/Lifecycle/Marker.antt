-- ===== src/Machine/Lifecycle/Marker.antt =====
-- When the cold-restart-equivalent marker is written, after `apply_transition` of
-- ibctl/src/state_machine/mod.rs.
use ibctl.Base.{
  ◌+◌, ◌≡◌, refl, ◌∙◌, Bool, false, not, ◌&&◌, ◌||◌, Option, none, some, List, [], ◌∷◌,
  if◌then◌else◌, arith,
}
use ibctl.Machine.State.{State, connected, launching, state_eq, is_credential_gathering}
use ibctl.Machine.Lifecycle.{
  StateMachine, Env, answers_2fa, begin_transition, cross_connected, prepare_next, apply_transition,
}

-- One round of the machine: what a handler saw of 2FA, a state that a command assigned, and the
-- transition that follows.
pub record Move : Type 0 where
  pub env : Env
  pub seen : Bool
  pub assigned : Option State
  pub next : State

abbrev assigned_or : State → Option State → State
assigned_or s none = s
assigned_or s (some t) = t

module _ {Zoned : Type 0} where
  marker_lem :
      (env : Env) (next : State) (m : StateMachine Zoned)
      → (apply_transition env next m).marker_writes ≡ (
          if (state_eq next connected && not (state_eq m.state connected))
            && (is_credential_gathering m.state
                && (m.cold_restart_equivalent_pending || answers_2fa m.state m.twofa_seen next))
          then m.marker_writes + 1
          else m.marker_writes)
  unfolding apply_transition begin_transition cross_connected prepare_next
  marker_lem env next m = ground arith

  pending_lem :
      (env : Env) (next : State) (m : StateMachine Zoned)
      → (apply_transition env next m).cold_restart_equivalent_pending ≡ (
          (m.cold_restart_equivalent_pending || answers_2fa m.state m.twofa_seen next)
          && not (state_eq next launching)
          && not (state_eq next connected && not (state_eq m.state connected)))
  unfolding apply_transition begin_transition cross_connected prepare_next
  pending_lem env next m = ground arith

  unfoldable pub move : Move → StateMachine Zoned → StateMachine Zoned
  unfolding apply_transition
  move v m =
      apply_transition v.env v.next
        (record m { state = assigned_or m.state v.assigned; twofa_seen = v.seen })

  unfoldable pub moves : List Move → StateMachine Zoned → StateMachine Zoned
  unfolding move
  moves [] m = m
  moves (v ∷ vs) m = moves vs (move v m)

  -- No move answers a challenge.
  abbrev pub NoAnswer : List Move → StateMachine Zoned → Type 0
  NoAnswer [] m = Unit
  NoAnswer (v ∷ vs) m =
      (answers_2fa (assigned_or m.state v.assigned) v.seen v.next ≡ false) × NoAnswer vs (move v m)

  -- While no 2FA challenge is answered, no sequence of transitions writes the
  -- cold-restart-equivalent marker, if none was pending.
  pub moves-NoAnswer :
      (vs : List Move) (m : StateMachine Zoned)
      → m.cold_restart_equivalent_pending ≡ false
      → NoAnswer vs m
      → (moves vs m).marker_writes ≡ m.marker_writes
  unfolding moves move
  moves-NoAnswer [] m p n = refl
  moves-NoAnswer (v ∷ vs) m p (n, ns) =
      let m' = record m { state = assigned_or m.state v.assigned; twofa_seen = v.seen } in
      moves-NoAnswer vs (move v m) (ground (arith, pending_lem v.env v.next m')) ns
      ∙ ground (arith, marker_lem v.env v.next m')

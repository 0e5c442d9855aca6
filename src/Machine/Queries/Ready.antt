-- ===== src/Machine/Queries/Ready.antt =====
-- ibctl/src/state_machine/queries.rs: what a status says at two places agrees.
use ibctl.Base.{◌≡◌, refl, ◌↔◌, Bool, false, ◌&&◌, some, ◌>>=◌, ◌∙◌, ap, sym, Bool-cases, inl, inr}
use ibctl.Base.Text.{codes, text_eq}
use ibctl.Config.Data.{Config}
use ibctl.Machine.Json.{get, null, boolean}
use ibctl.Machine.Lifecycle.{StateMachine}
use ibctl.Machine.State.{connected, waiting_for_hitl2fa, state_eq, client_advisory}
use ibctl.Machine.State.Advisory.{client_advisory_iff}
use ibctl.Machine.Queries.Recovery.{Dates, Figures}
use ibctl.Machine.Queries.{status_json, hitl_json, socat_running}
use ibctl.Recovery.Coordinator.{RecoveryCoordinator}

module _ {Zoned Timestamp : Type 0} (dates : Dates Zoned Timestamp) (f : Figures Zoned)
    (cfg : Config) (recovery : RecoveryCoordinator Zoned Timestamp) (m : StateMachine Zoned) where
  members_of-status_json :
      (get (codes "ready") (status_json dates f cfg recovery m)
        ≡ some (boolean (state_eq m.state connected && socat_running f m)))
      × (get (codes "hitl") (status_json dates f cfg recovery m) ≡ some (hitl_json f m))
      × ((get (codes "client_advisory") (status_json dates f cfg recovery m)
            >>= get (codes "should_connect"))
          ≡ some (boolean ((client_advisory m.state).0 && socat_running f m)))
  unfolding status_json get text_eq
  members_of-status_json = (refl, refl, refl)

  hitl_json-null : (hitl_json f m ≡ null) ↔ (state_eq m.state waiting_for_hitl2fa ≡ false)
  unfolding hitl_json
  hitl_json-null = elim (Bool-cases (state_eq m.state waiting_for_hitl2fa)) [
    | inl e ↦ rw e ((λ h. cc), (λ h. cc))
    | inr e ↦ rw e ((λ h. refl), (λ h. refl))
  ]

some_injective : {A : Type 0} {a b : A} → some a ≡ some b → a ≡ b
some_injective h = cc

-- A status advises clients to connect exactly when it says that the session is ready, which is in
-- Connected while socat runs; and it tells of a wait for the operator's second factor exactly in that
-- state.
pub status_json-Agrees :
    {Zoned Timestamp : Type 0} (dates : Dates Zoned Timestamp) (f : Figures Zoned) (cfg : Config)
    (recovery : RecoveryCoordinator Zoned Timestamp) (m : StateMachine Zoned)
    → let status = status_json dates f cfg recovery m in
      ((get (codes "client_advisory") status >>= get (codes "should_connect"))
        ≡ get (codes "ready") status)
      × (get (codes "ready") status
          ≡ some (boolean (state_eq m.state connected && socat_running f m)))
      × ((get (codes "hitl") status ≡ some null) ↔ (state_eq m.state waiting_for_hitl2fa ≡ false))
status_json-Agrees dates f cfg recovery m =
    let (ready, hitl, advised) = members_of-status_json dates f cfg recovery m in
    let same : (client_advisory m.state).0 ≡ state_eq m.state connected =
      (client_advisory_iff m.state).0 in
    let null_iff = hitl_json-null dates f cfg recovery m in
    (
      advised ∙ ap (λ (c : Bool). some (boolean (c && socat_running f m))) same ∙ sym ready,
      ready,
      ((λ h. null_iff.0 (some_injective (sym hitl ∙ h))), (λ h. hitl ∙ ap some (null_iff.1 h))),
    )

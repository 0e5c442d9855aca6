-- ===== src/Machine/Park/Laws.antt =====
-- The park after a give-up, ibctl/src/state_machine/mod.rs.
use ibctl.Base.{ℕ, ◌≡◌, refl, ◌∙◌, Option, none, some, List, [], ◌∷◌, arith}
use ibctl.Base.Text.{Text, text_eq}
use ibctl.Recovery.Coordinator.{Platform}
use ibctl.Machine.State.{waiting_for_launch, state_eq}
use ibctl.Machine.Lifecycle.{Env}
use ibctl.Machine.Park.{
  Driven, active_recovery, drain, drive, tick_recovery, resume_reconnect, drop_stale_guard,
}

pub data ParkedEvent (Zoned Timestamp : Type 0) : Type 0 where
  ticks : Env → Zoned → ℕ → List (Zoned × ℕ) → ParkedEvent Zoned Timestamp
  taps : Timestamp → Text → ParkedEvent Zoned Timestamp

module _ {Zoned Timestamp : Type 0} (sys : Platform Zoned Timestamp) where
  -- Ticks, and RESUME_RECONNECT commands; `none` after a panic.
  unfoldable pub events :
      List (ParkedEvent Zoned Timestamp) → Driven Zoned Timestamp → Option (Driven Zoned Timestamp)
  unfolding tick_recovery resume_reconnect
  events [] d = some d
  events (ticks env wall mono dwells ∷ rest) d = elim (tick_recovery sys env wall mono dwells d) [
    | none ↦ none
    | some d' ↦ events rest d'
  ]
  events (taps now token ∷ rest) d = events rest (resume_reconnect sys now token d)

  parked_drain :
      (dwells : List (Zoned × ℕ)) (d : Driven Zoned Timestamp)
      → d.machine.state ≡ waiting_for_launch
      → drain sys dwells d ≡ some d
  unfolding drain state_eq text_eq
  parked_drain [] d p = refl
  parked_drain ((w, m) ∷ dwells) d p = ground (arith, p, parked_drain dwells d p)

  parked_tick :
      (env : Env) (wall : Zoned) (mono : ℕ) (dwells : List (Zoned × ℕ)) (d : Driven Zoned Timestamp)
      → d.machine.state ≡ waiting_for_launch
      → tick_recovery sys env wall mono dwells d
        ≡ some (record d { machine = drop_stale_guard sys d.machine })
  unfolding tick_recovery drive active_recovery
  parked_tick env wall mono dwells d p =
      ground
        (arith, p, parked_drain dwells (record d { machine = drop_stale_guard sys d.machine }) p)

  tap_lem :
      (now : Timestamp) (token : Text) (d : Driven Zoned Timestamp)
      → let after = resume_reconnect sys now token d in
        (after.machine.state ≡ d.machine.state) × (after.recovery ≡ d.recovery) × (after.fs ≡ d.fs)
  unfolding resume_reconnect
  tap_lem now token d = ground arith

  -- While the machine is in WaitingForLaunch, where a give-up parks it, any number of recovery ticks
  -- and RESUME_RECONNECT commands, in any order, ends without a panic, in WaitingForLaunch and with
  -- the coordinator and the files as they were.
  pub events-parked :
      (es : List (ParkedEvent Zoned Timestamp))
      → (d : Driven Zoned Timestamp) → d.machine.state ≡ waiting_for_launch
      → (d' : Driven Zoned Timestamp) × (events es d ≡ some d')
        × (d'.machine.state ≡ waiting_for_launch)
        × (d'.recovery ≡ d.recovery)
        × (d'.fs ≡ d.fs)
  unfolding events resume_reconnect
  events-parked [] d p = (d, refl, p, refl, refl)
  events-parked (ticks env wall mono dwells ∷ es) d p =
      let after : Driven Zoned Timestamp = record d { machine = drop_stale_guard sys d.machine } in
      let (d', e, q, same, files) = events-parked es after p in
      (d', rw (parked_tick env wall mono dwells d p, events) e, q, same, files)
  events-parked (taps now token ∷ es) d p =
      let (kept, same_recovery, same_fs) = tap_lem now token d in
      let (d', e, q, same, files) =
        events-parked es (resume_reconnect sys now token d) (kept ∙ p) in
      (d', e, q, same ∙ same_recovery, files ∙ same_fs)

-- ===== src/Recovery/Coordinator/GiveUp.antt =====
-- A give-up whose marker cannot be written: `apply` of ibctl/src/state_machine/recovery.rs.
use ibctl.Base.{
  ℕ, ◌≡◌, ◌≢◌, ◌⊎◌, inl, inr, refl, true, false, none, some, arith, List, [], ◌∷◌, ◌++◌,
}
use ibctl.Recovery.Decision.{given_up, fire_giveup_alert}
use ibctl.Recovery.Disk.{Fs, Fault}
use ibctl.Recovery.Coordinator.{
  Platform, RecoveryCoordinator, GaveUp, apply, tick, err, marker_write, give_up,
}
use ibctl.Recovery.Coordinator.Ticks.{
  TickInput, NoToken, run_ticks, given_up-tick, given_up-run_ticks,
}

module _ {Zoned Timestamp : Type 0} (sys : Platform Zoned Timestamp) where
  -- The signals of tick after tick, until a panic.
  unfoldable pub sent_by :
      List (TickInput Zoned Timestamp)
      → RecoveryCoordinator Zoned Timestamp
      → List Fault
      → Fs
      → List (GaveUp Zoned)
  sent_by [] c faults fs = []
  sent_by (i ∷ is) c faults fs = elim (tick sys c i.wall i.mono i.cold i.token i.streak faults fs) [
    | none ↦ []
    | some (after, fs', rest) ↦ after.sent ++ sent_by is after.coord rest fs'
  ]

  given_up-sent_by :
      (is : List (TickInput Zoned Timestamp)) (c : RecoveryCoordinator Zoned Timestamp)
      (faults : List Fault) (fs : Fs)
      → c.phase ≡ given_up
      → (c.config.autonomous ≡ false) ⊎ (c.config.disabled ≡ true)
      → NoToken is
      → sent_by is c faults fs ≡ []
  unfolding sent_by
  given_up-sent_by [] c faults fs p a n = refl
  given_up-sent_by (i ∷ is) c faults fs p a n =
      let ih = given_up-sent_by is c faults fs p a n.1 in
      elim (given_up-tick sys c i faults fs p a n.0) [
        | inl e ↦ rw (e, sent_by) ih
        | inr e ↦ rw (e, sent_by) ih
      ]

  failed_lem :
      (c : RecoveryCoordinator Zoned Timestamp) (wall : Zoned) (mono : ℕ) (faults : List Fault)
      (fs : Fs)
      → c.phase ≢ given_up
      → let a = (apply sys c fire_giveup_alert wall mono none faults fs).0 in
        (a.result ≡ err marker_write → a.sent ≡ [])
        × (a.coord.phase ≡ given_up)
        × (a.coord.config ≡ c.config)
  unfolding apply give_up
  failed_lem c wall mono faults fs p = ground arith

  -- If the write of the state fails when a coordinator that is not autonomous gives up, no signal is
  -- sent, the coordinator has given up all the same, and any number of later ticks without a resume
  -- token leave it as it is and send no signal.
  pub failed_giveup-run_ticks :
      (is : List (TickInput Zoned Timestamp))
      → (c : RecoveryCoordinator Zoned Timestamp) → (wall : Zoned) → (mono : ℕ)
      → (faults : List Fault) → (fs : Fs) → (later : List Fault) → (fs' : Fs) → c.phase ≢ given_up
      → c.config.autonomous ≡ false
      → (apply sys c fire_giveup_alert wall mono none faults fs).0.result ≡ err marker_write
      → NoToken is
      → let a = (apply sys c fire_giveup_alert wall mono none faults fs).0 in
        (a.sent ≡ [])
        × (a.coord.phase ≡ given_up)
        × (run_ticks sys is a.coord later fs' ≡ some a.coord)
        × (sent_by is a.coord later fs' ≡ [])
  failed_giveup-run_ticks is c wall mono faults fs later fs' p a r n =
      let (silent, gave_up, same) = failed_lem c wall mono faults fs p in
      let after = (apply sys c fire_giveup_alert wall mono none faults fs).0.coord in
      let manual : after.config.autonomous ≡ false = ground (arith, same, a) in
      (
        silent r,
        gave_up,
        given_up-run_ticks sys is after later fs' gave_up (inl manual) n,
        given_up-sent_by is after later fs' gave_up (inl manual) n,
      )

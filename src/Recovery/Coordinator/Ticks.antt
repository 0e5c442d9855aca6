-- ===== src/Recovery/Coordinator/Ticks.antt =====
-- Runs of ticks: where the phase cannot leave, and where it cannot stay.
use ibctl.Base.{
  ℕ, ◌<◌, ◌≡◌, refl, ◌≢◌, ◌⊎◌, inl, inr, Bool, true, false, Option, none, some, arith, List, [],
  ◌∷◌, is_some, Option-cases,
}
use ibctl.Recovery.Decision.{aggressive, given_up, ResumeToken, compute_next_action}
use ibctl.Recovery.Disk.{Fs, Fault}
use ibctl.Recovery.Coordinator.{
  Platform, RecoveryCoordinator, AppliedAction, Applied, compute, apply, tick, record_success, ok,
  no_change, deferred,
}

-- What one tick is given.
pub record TickInput (Zoned Timestamp : Type 0) : Type 0 where
  pub wall : Zoned
  pub mono : ℕ
  pub cold : Bool
  pub token : Option (ResumeToken Timestamp)
  pub streak : ℕ

module _ {Zoned Timestamp : Type 0} where
  -- No tick has a token; every streak is below a threshold.
  abbrev pub NoToken : List (TickInput Zoned Timestamp) → Type 0
  NoToken [] = Unit {0}
  NoToken (i ∷ is) = (i.token ≡ none) × NoToken is

  abbrev pub StreakBelow : ℕ → List (TickInput Zoned Timestamp) → Type 0
  StreakBelow n [] = Unit {0}
  StreakBelow n (i ∷ is) = (i.streak < n) × StreakBelow n is

module _ {Zoned Timestamp : Type 0} (sys : Platform Zoned Timestamp) where
  -- Tick after tick; `none` after a panic.
  unfoldable pub run_ticks :
      List (TickInput Zoned Timestamp)
      → RecoveryCoordinator Zoned Timestamp
      → List Fault
      → Fs
      → Option (RecoveryCoordinator Zoned Timestamp)
  run_ticks [] c faults fs = some c
  run_ticks (i ∷ is) c faults fs =
      elim (tick sys c i.wall i.mono i.cold i.token i.streak faults fs) [
        | none ↦ none
        | some (after, fs', rest) ↦ run_ticks is after.coord rest fs'
      ]

  pub given_up-tick :
      (c : RecoveryCoordinator Zoned Timestamp) (i : TickInput Zoned Timestamp)
      (faults : List Fault) (fs : Fs)
      → c.phase ≡ given_up
      → (c.config.autonomous ≡ false) ⊎ (c.config.disabled ≡ true)
      → i.token ≡ none
      → (tick sys c i.wall i.mono i.cold i.token i.streak faults fs
          ≡ some (record { coord = c; result = ok no_change; sent = [] }, fs, faults))
        ⊎ (tick sys c i.wall i.mono i.cold i.token i.streak faults fs
            ≡ some (record { coord = c; result = ok deferred; sent = [] }, fs, faults))
  unfolding tick compute compute_next_action apply
  given_up-tick c i faults fs p a n = ground arith

  -- A coordinator that has given up and is not autonomous (or is disabled) stays exactly as it is
  -- through any number of ticks without a resume token, none of which panics.
  pub given_up-run_ticks :
      (is : List (TickInput Zoned Timestamp)) (c : RecoveryCoordinator Zoned Timestamp)
      (faults : List Fault) (fs : Fs)
      → c.phase ≡ given_up
      → (c.config.autonomous ≡ false) ⊎ (c.config.disabled ≡ true)
      → NoToken is
      → run_ticks is c faults fs ≡ some c
  unfolding run_ticks
  given_up-run_ticks [] c faults fs p a n = refl
  given_up-run_ticks (i ∷ is) c faults fs p a n =
      let ih = given_up-run_ticks is c faults fs p a n.1 in
      elim (given_up-tick c i faults fs p a n.0) [
        | inl e ↦ rw (e, run_ticks) ih
        | inr e ↦ rw (e, run_ticks) ih
      ]

  -- A coordinator in the aggressive phase with a success stamp.
  latched-tick :
      (c : RecoveryCoordinator Zoned Timestamp) (i : TickInput Zoned Timestamp)
      (faults : List Fault) (fs : Fs)
      → c.phase ≡ aggressive
      → is_some c.last_full_success_at ≡ true
      → i.streak < c.config.fingerprint_streak_forcing_hitl
      → (tick sys c i.wall i.mono i.cold i.token i.streak faults fs
          ≡ some (record { coord = c; result = ok no_change; sent = [] }, fs, faults))
        ⊎ (tick sys c i.wall i.mono i.cold i.token i.streak faults fs
            ≡ some (record { coord = c; result = ok deferred; sent = [] }, fs, faults))
  unfolding tick compute compute_next_action apply
  latched-tick c i faults fs p a n = ground arith

  latched-run_ticks :
      (is : List (TickInput Zoned Timestamp)) (c : RecoveryCoordinator Zoned Timestamp)
      (faults : List Fault) (fs : Fs)
      → c.phase ≡ aggressive
      → is_some c.last_full_success_at ≡ true
      → StreakBelow c.config.fingerprint_streak_forcing_hitl is
      → run_ticks is c faults fs ≡ some c
  unfolding run_ticks
  latched-run_ticks [] c faults fs p a n = refl
  latched-run_ticks (i ∷ is) c faults fs p a n =
      let ih = latched-run_ticks is c faults fs p a n.1 in
      elim (latched-tick c i faults fs p a n.0) [
        | inl e ↦ rw (e, run_ticks) ih
        | inr e ↦ rw (e, run_ticks) ih
      ]

  success-coord :
      (c : RecoveryCoordinator Zoned Timestamp) (wall : Zoned) (mono : ℕ) (faults : List Fault)
      (fs : Fs)
      → c.phase ≢ given_up
      → let after = (record_success sys c wall mono faults fs).0.coord in
        (after.phase ≡ aggressive)
        × (is_some after.last_full_success_at ≡ true)
        × (after.config ≡ c.config)
  unfolding record_success
  success-coord c wall mono faults fs p = ground arith

  -- Once a dwell success is recorded outside given_up, the timer is off: ticks at any later
  -- instants, with a failure streak below the tripwire, leave the coordinator as it is, in the
  -- aggressive phase, however long the outage that follows.
  pub success_stops_timer :
      (is : List (TickInput Zoned Timestamp)) (c : RecoveryCoordinator Zoned Timestamp)
      (wall : Zoned) (mono : ℕ) (faults : List Fault) (fs : Fs) (later : List Fault) (fs' : Fs)
      → c.phase ≢ given_up
      → StreakBelow c.config.fingerprint_streak_forcing_hitl is
      → let after = (record_success sys c wall mono faults fs).0.coord in
        (run_ticks is after later fs' ≡ some after) × (after.phase ≡ aggressive)
  success_stops_timer is c wall mono faults fs later fs' p n =
      let (phase, success, same) = success-coord c wall mono faults fs p in
      (latched-run_ticks is _ later fs' phase success (rw same n), phase)

  autonomous-tick :
      (c : RecoveryCoordinator Zoned Timestamp) (i : TickInput Zoned Timestamp)
      (faults : List Fault) (fs fs' : Fs) (rest : List Fault)
      (after : Applied Zoned Timestamp AppliedAction)
      → c.config.autonomous ≡ true
      → c.config.disabled ≡ false
      → tick sys c i.wall i.mono i.cold i.token i.streak faults fs ≡ some (after, fs', rest)
      → (after.coord.phase ≢ given_up) × (after.coord.config ≡ c.config)
  unfolding tick compute compute_next_action apply
  autonomous-tick c i faults fs fs' rest after a d h = ground arith

  autonomous-rest :
      (is : List (TickInput Zoned Timestamp)) (c c' : RecoveryCoordinator Zoned Timestamp)
      (faults : List Fault) (fs : Fs)
      → c.config.autonomous ≡ true
      → c.config.disabled ≡ false
      → c.phase ≢ given_up
      → run_ticks is c faults fs ≡ some c'
      → c'.phase ≢ given_up
  unfolding run_ticks
  autonomous-rest [] c c' faults fs a d p h = ground arith
  autonomous-rest (i ∷ is) c c' faults fs a d p h =
      elim (Option-cases (tick sys c i.wall i.mono i.cold i.token i.streak faults fs)) [
        | inl e ↦ absurd (ground arith)
        | inr ((after, fs', rest), e) ↦
            let (out, same) = autonomous-tick c i faults fs fs' rest after a d e in
            autonomous-rest is after.coord c' rest fs' (ground arith) (ground arith) out
              (ground arith)
      ]

  -- An enabled autonomous coordinator is out of given_up after any run of at least one tick that does
  -- not panic, wherever it started and whatever the disk does.
  pub autonomous-run_ticks :
      (i : TickInput Zoned Timestamp) (is : List (TickInput Zoned Timestamp))
      (c c' : RecoveryCoordinator Zoned Timestamp) (faults : List Fault) (fs : Fs)
      → c.config.autonomous ≡ true
      → c.config.disabled ≡ false
      → run_ticks (i ∷ is) c faults fs ≡ some c'
      → c'.phase ≢ given_up
  unfolding run_ticks
  autonomous-run_ticks i is c c' faults fs a d h =
      elim (Option-cases (tick sys c i.wall i.mono i.cold i.token i.streak faults fs)) [
        | inl e ↦ absurd (ground arith)
        | inr ((after, fs', rest), e) ↦
            let (out, same) = autonomous-tick c i faults fs fs' rest after a d e in
            autonomous-rest is after.coord c' rest fs' (ground arith) (ground arith) out
              (ground arith)
      ]

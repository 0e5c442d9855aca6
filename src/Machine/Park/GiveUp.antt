-- ===== src/Machine/Park/GiveUp.antt =====
-- The tick that gives up, in `tick_recovery` of ibctl/src/state_machine/mod.rs, and what follows it.
use ibctl.Base.{
  ℕ, ◌≡◌, ◌≢◌, ◌⊎◌, inl, inr, refl, sym, ap, ◌∙◌, true, false, Option, none, some, List, [], ◌∷◌,
  arith, Option-cases, Bool-cases, subst,
}
use ibctl.Recovery.Decision.{given_up, ResumeToken, NextAction}
use ibctl.Recovery.Disk.{Fs, Fault, Outcome, done, io_error, crashed}
use ibctl.Recovery.Coordinator.{
  Platform, RecoveryCoordinator, Applied, AppliedAction, fired_giveup_alert, settle, persist, apply,
  give_up, tick, compute, record_success, success_in,
}
use ibctl.Machine.State.{waiting_for_launch}
use ibctl.Machine.Lifecycle.{StateMachine, Env}
use ibctl.Machine.Park.{
  Driven, active_recovery, drain, drain_one, drive, tick_recovery, drop_stale_guard, park, follow,
}
use ibctl.Machine.Park.Laws.{ParkedEvent, events, events-parked}

some_injective : {A : Type 0} → (a b : A) → some a ≡ some b → a ≡ b
some_injective a b e = cc

module _ {Zoned Timestamp : Type 0} (sys : Platform Zoned Timestamp) where
  -- A call on these files that ends with the coordinator `c`, which it has tried to write.
  abbrev Writes : List Fault → Fs → Applied Zoned Timestamp AppliedAction × Fs × List Fault → Type 0
  Writes faults fs (a, fs', _) =
      (a.result ≡ settle (persist sys a.coord faults fs).0 fired_giveup_alert)
      × (fs' ≡ (persist sys a.coord faults fs).1)

  apply-Writes :
      (c : RecoveryCoordinator Zoned Timestamp) (action : NextAction) (wall : Zoned) (mono : ℕ)
      (token : Option (ResumeToken Timestamp)) (faults : List Fault) (fs : Fs)
      → c.phase ≢ given_up
      → (apply sys c action wall mono token faults fs).0.coord.phase ≡ given_up
      → Writes faults fs (apply sys c action wall mono token faults fs)
  unfolding apply give_up
  apply-Writes c action wall mono token faults fs p h = ground arith

  success-phase :
      (c : RecoveryCoordinator Zoned Timestamp) (wall : Zoned) (mono : ℕ) (faults : List Fault)
      (fs : Fs)
      → c.phase ≢ given_up
      → (record_success sys c wall mono faults fs).0.coord.phase ≢ given_up
  unfolding record_success success_in
  success-phase c wall mono faults fs p = λ e. ground arith

  -- Two machines in the same state, the second with a coordinator that has not given up.
  abbrev Undecided : Driven Zoned Timestamp → Driven Zoned Timestamp → Type 0
  Undecided d d' = (d'.machine.state ≡ d.machine.state) × (d'.recovery.phase ≢ given_up)

  drain_one-Undecided :
      (wall : Zoned) (mono : ℕ) (d d' : Driven Zoned Timestamp)
      → d.recovery.phase ≢ given_up
      → drain_one sys wall mono d ≡ some d'
      → Undecided d d'
  drain_one-Undecided wall mono d d' p h =
      ground (arith, h, success-phase d.recovery wall mono d.faults d.fs p)

  drain-Undecided :
      (dwells : List (Zoned × ℕ)) (d d' : Driven Zoned Timestamp)
      → d.recovery.phase ≢ given_up
      → drain sys dwells d ≡ some d'
      → Undecided d d'
  unfolding drain
  drain-Undecided [] d d' p h = ground (arith, h)
  drain-Undecided ((wall, mono) ∷ dwells) d d' p h =
      elim (Option-cases (drain_one sys wall mono d)) [
        | inl e ↦ absurd (ground (arith, e, h))
        | inr (d1, e) ↦
            let (same, q) = drain_one-Undecided wall mono d d1 p e in
            let (same', q') = drain-Undecided dwells d1 d' q (ground (arith, e, h)) in
            (same' ∙ same, q')
      ]

  park-state :
      (env : Env) (m : StateMachine Zoned)
      → active_recovery m.state ≡ true
      → (park sys env m).state ≡ waiting_for_launch
  unfolding park active_recovery
  park-state env m h = ground arith

  tick-Writes :
      (c : RecoveryCoordinator Zoned Timestamp) (wall : Zoned) (mono : ℕ)
      (token : Option (ResumeToken Timestamp)) (faults : List Fault) (fs : Fs)
      (r : Applied Zoned Timestamp AppliedAction × Fs × List Fault)
      → c.phase ≢ given_up
      → tick sys c wall mono false token 0 faults fs ≡ some r
      → r.0.coord.phase ≡ given_up
      → Writes faults fs r
  unfolding tick
  tick-Writes c wall mono token faults fs r p h g =
      elim (Option-cases (compute sys c wall mono false token 0)) [
        | inl e ↦ absurd (ground (arith, e, h))
        | inr (action, e) ↦
            let applied : apply sys c action wall mono token faults fs ≡ r =
              some_injective _ r (ground (arith, e, h)) in
            subst (Writes faults fs) applied (
              apply-Writes c action wall mono token faults fs p
                (ap (λ q. q.0.coord.phase) applied ∙ g))
      ]

  follow-state :
      (env : Env) (o : Outcome (Unit {0})) (m m' : StateMachine Zoned)
      → active_recovery m.state ≡ true
      → follow sys env (settle o fired_giveup_alert) m ≡ some m'
      → ((o ≡ done tt) × (m'.state ≡ waiting_for_launch)) ⊎ ((o ≡ io_error) × (m'.state ≡ m.state))
  unfolding follow
  follow-state env (done _) m m' h e =
      inl
        (refl, ap (λ n. n.state) (sym (some_injective (park sys env m) m' e)) ∙ park-state env m h)
  follow-state env io_error m m' h e = inr (refl, ap (λ n. n.state) (sym (some_injective m m' e)))
  follow-state env crashed m m' h e = absurd (ground (arith, e))

  -- How the write ended, of the coordinator that the step leaves, over the files and the faults that
  -- it began with: it worked and the machine is parked, or it failed and the state is as before.
  abbrev Halts : Driven Zoned Timestamp → Driven Zoned Timestamp → Type 0
  Halts d d' =
      (((persist sys d'.recovery d.faults d.fs).0 ≡ done tt)
        × (d'.machine.state ≡ waiting_for_launch))
      ⊎ (((persist sys d'.recovery d.faults d.fs).0 ≡ io_error)
          × (d'.machine.state ≡ d.machine.state))

  -- The state machine after an applied action.
  abbrev driven :
      Driven Zoned Timestamp
      → Applied Zoned Timestamp AppliedAction × Fs × List Fault
      → StateMachine Zoned
      → Driven Zoned Timestamp
  driven d (a, fs, faults) m = record d {
    machine = m;
    recovery = a.coord;
    pending_resume_token = none;
    fs = fs;
    faults = faults;
  }

  driven-Halts :
      (env : Env) (d : Driven Zoned Timestamp) (m : StateMachine Zoned)
      (r : Applied Zoned Timestamp AppliedAction × Fs × List Fault)
      → active_recovery d.machine.state ≡ true
      → Writes d.faults d.fs r
      → follow sys env r.0.result d.machine ≡ some m
      → Halts d (driven d r m)
  driven-Halts env d m (a, fs, faults) e (result, files) f =
      follow-state env (persist sys a.coord d.faults d.fs).0 d.machine m e
        (ap (λ o. follow sys env o d.machine) (sym result) ∙ f)

  drive-Halts :
      (env : Env) (wall : Zoned) (mono : ℕ) (d d' : Driven Zoned Timestamp)
      → d.recovery.phase ≢ given_up
      → drive sys env wall mono d ≡ some d'
      → d'.recovery.phase ≡ given_up
      → Halts d d'
  unfolding drive
  drive-Halts env wall mono d d' p h g = elim (Bool-cases (active_recovery d.machine.state)) [
    | inr e ↦ absurd (ground (arith, e, h))
    | inl e ↦
        elim (Option-cases
          (tick sys d.recovery wall mono false d.pending_resume_token 0 d.faults d.fs)) [
            | inl t ↦ absurd (ground (arith, e, t, h))
            | inr (r, t) ↦ elim (Option-cases (follow sys env r.0.result d.machine)) [
              | inl f ↦ absurd (ground (arith, e, t, f, h))
              | inr (m, f) ↦
                  let result : driven d r m ≡ d' =
                    some_injective (driven d r m) d' (ground (arith, e, t, f, h)) in
                  subst (Halts d) result (
                    driven-Halts env d m r e
                      (tick-Writes d.recovery wall mono d.pending_resume_token d.faults d.fs r p t
                        (ap (λ n. n.recovery.phase) result ∙ g))
                      f)
            ]
          ]
  ]

  -- The machine, the coordinator and the files of the tick once the dwell successes that arrived
  -- are recorded.
  abbrev pub Drained : List (Zoned × ℕ) → Driven Zoned Timestamp → Driven Zoned Timestamp → Type 0
  Drained dwells d d1 =
      drain sys dwells (record d { machine = drop_stale_guard sys d.machine }) ≡ some d1

  tick_recovery-Halts :
      (env : Env) (wall : Zoned) (mono : ℕ) (dwells : List (Zoned × ℕ))
      (d d' : Driven Zoned Timestamp)
      → d.recovery.phase ≢ given_up
      → tick_recovery sys env wall mono dwells d ≡ some d'
      → d'.recovery.phase ≡ given_up
      → (d1 : Driven Zoned Timestamp) × Drained dwells d d1
        × (d1.machine.state ≡ d.machine.state)
        × Halts d1 d'
  unfolding tick_recovery
  tick_recovery-Halts env wall mono dwells d d' p h g =
      let begun : Driven Zoned Timestamp = record d { machine = drop_stale_guard sys d.machine } in
      elim (Option-cases (drain sys dwells begun)) [
        | inl e ↦ absurd (ground (arith, e, h))
        | inr (d1, e) ↦
            let (same, q) = drain-Undecided dwells begun d1 p e in
            (d1, e, same, drive-Halts env wall mono d1 d' q (ground (arith, e, h)) g)
      ]

  -- After a recovery tick that ends in given_up, from another phase: if its write of that decision
  -- returned Ok, the machine is parked, and any number of recovery ticks and RESUME_RECONNECT
  -- commands after it, in any order, ends without a panic, in WaitingForLaunch and with the
  -- coordinator and the files as that tick left them. Otherwise the write, of the same state to the
  -- files and with the faults that the recording of the dwell successes left, returned an error,
  -- and the machine is in the state that it was in.
  pub tick_recovery-events :
      (env : Env) (wall : Zoned) (mono : ℕ) (dwells : List (Zoned × ℕ))
      (d d' : Driven Zoned Timestamp)
      → d.recovery.phase ≢ given_up
      → tick_recovery sys env wall mono dwells d ≡ some d'
      → d'.recovery.phase ≡ given_up
      → (es : List (ParkedEvent Zoned Timestamp))
      → (d1 : Driven Zoned Timestamp) × Drained dwells d d1
        × ((((persist sys d'.recovery d1.faults d1.fs).0 ≡ done tt)
              × ((d'' : Driven Zoned Timestamp) × (events sys es d' ≡ some d'')
                  × (d'.machine.state ≡ waiting_for_launch)
                  × (d''.machine.state ≡ waiting_for_launch)
                  × (d''.recovery ≡ d'.recovery)
                  × (d''.fs ≡ d'.fs)))
            ⊎ (((persist sys d'.recovery d1.faults d1.fs).0 ≡ io_error)
                × (d'.machine.state ≡ d.machine.state)))
  tick_recovery-events env wall mono dwells d d' p h g es =
      let (d1, e, same, halts) = tick_recovery-Halts env wall mono dwells d d' p h g in
      (
        d1,
        e,
        elim halts [
          | inl (ok, parked) ↦
              let (d'', run, kept, same_recovery, same_fs) = events-parked sys es d' parked in
              inl (ok, (d'', run, parked, kept, same_recovery, same_fs))
          | inr (failed, kept) ↦ inr (failed, kept ∙ same)
        ],
      )

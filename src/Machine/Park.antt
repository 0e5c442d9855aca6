-- ===== src/Machine/Park.antt =====
-- `tick_recovery` of ibctl/src/state_machine/mod.rs: the recovery coordinator under the state
-- machine, with the park after a give-up and the command RESUME_RECONNECT. The failure streak and the
-- pending cold restart are the constants that the code passes.
pub mod Laws
pub mod GiveUp
mod Tests
use ibctl.Base.{
  ℕ, Bool, true, false, not, ◌&&◌, ◌||◌, Option, none, some, List, [], ◌∷◌, if◌then◌else◌,
}
use ibctl.Base.Text.{Text, text_eq}
use ibctl.Recovery.Decision.{ResumeToken, given_up, phase_eq}
use ibctl.Recovery.Disk.{Fs, Fault}
use ibctl.Recovery.Coordinator.{
  Platform, RecoveryCoordinator, Applied, ApplyResult, ok, err, died, AppliedAction,
  fired_giveup_alert, resumed_to_aggressive, no_change, deferred, escalated_to_backoff, tick,
  record_success,
}
use ibctl.Machine.State.{
  State, init, connected, waiting_for_launch, shutdown, error, waiting_for_ib, waiting_for_hitl2fa,
  state_eq,
}
use ibctl.Machine.Lifecycle.{StateMachine, Env}
use ibctl.Machine.Lifecycle.Commands.{assign_recorded}

pub record Driven (Zoned Timestamp : Type 0) : Type 0 where
  pub machine : StateMachine Zoned
  pub recovery : RecoveryCoordinator Zoned Timestamp
  pub recovery_mode_tag : Text
  pub pending_resume_token : Option (ResumeToken Timestamp)
  pub fs : Fs
  pub faults : List Fault

-- `none` after a panic or the death of the process.
abbrev pub Drive : Type 0 → Type 0 → Type 0
Drive Zoned Timestamp = Option (Driven Zoned Timestamp)

-- The states in which the coordinator runs.
unfoldable pub active_recovery : State → Bool
active_recovery waiting_for_launch = false
active_recovery waiting_for_ib = false
active_recovery waiting_for_hitl2fa = false
active_recovery shutdown = false
active_recovery (error _) = false
active_recovery _ = true

module _ {Zoned Timestamp : Type 0} (sys : Platform Zoned Timestamp) where
  -- A success that is recorded, or whose error is logged.
  abbrev after_success :
      Driven Zoned Timestamp
      → Applied Zoned Timestamp (Unit {0}) × Fs × List Fault
      → ApplyResult (Unit {0})
      → Drive Zoned Timestamp
  after_success d (a, fs, faults) died = none
  after_success d (a, fs, faults) (ok _) =
      some (record d { recovery = a.coord; fs = fs; faults = faults })
  after_success d (a, fs, faults) (err _) =
      some (record d { recovery = a.coord; fs = fs; faults = faults })

  -- One dwell success that arrived.
  abbrev pub drain_one : Zoned → ℕ → Driven Zoned Timestamp → Drive Zoned Timestamp
  drain_one wall mono d =
      if not (state_eq d.machine.state connected)
      then some d
      else if phase_eq d.recovery.phase given_up
      then some (record d { machine = record d.machine { dwell_guard = false } })
      else let (a, fs, faults) = record_success sys d.recovery wall mono d.faults d.fs in
        after_success d (a, fs, faults) a.result

  unfoldable pub drain : List (Zoned × ℕ) → Driven Zoned Timestamp → Drive Zoned Timestamp
  unfolding state_eq
  drain [] d = some d
  drain ((wall, mono) ∷ rest) d = elim (drain_one wall mono d) [
    | none ↦ none
    | some d' ↦ drain rest d'
  ]

  abbrev pub drop_stale_guard : StateMachine Zoned → StateMachine Zoned
  drop_stale_guard m = record m { dwell_guard = m.dwell_guard && state_eq m.state connected }

  -- The give-up halt.
  unfoldable pub park : Env → StateMachine Zoned → StateMachine Zoned
  unfolding assign_recorded
  park env m = elim m.state [
    | waiting_for_launch ↦ record m { dwell_guard = false }
    | shutdown ↦ record m { dwell_guard = false }
    | error _ ↦ record m { dwell_guard = false }
    | _ ↦ assign_recorded env waiting_for_launch (record m {
      dwell_guard = false;
      session = record m.session { client_id_task = false; socat_process = false };
    })
  ]

  unfoldable pub unpark : Env → StateMachine Zoned → StateMachine Zoned
  unfolding assign_recorded state_eq
  unpark env m = if state_eq m.state waiting_for_launch then assign_recorded env init m else m

  -- What the state machine does about an applied action; `none` if the process died in it.
  unfoldable pub follow :
      Env → ApplyResult AppliedAction → StateMachine Zoned → Option (StateMachine Zoned)
  unfolding park unpark
  follow env died m = none
  follow env (err _) m = some m
  follow env (ok fired_giveup_alert) m = some (park env m)
  follow env (ok resumed_to_aggressive) m = some (unpark env m)
  follow env (ok no_change) m = some m
  follow env (ok deferred) m = some m
  follow env (ok escalated_to_backoff) m = some m

  -- The token is taken, whatever becomes of it.
  unfoldable pub drive : Env → Zoned → ℕ → Driven Zoned Timestamp → Drive Zoned Timestamp
  unfolding active_recovery tick follow
  drive env now_wall now_mono d =
      if not (active_recovery d.machine.state)
      then some d
      else elim (tick sys d.recovery now_wall now_mono false d.pending_resume_token 0 d.faults
          d.fs) [
            | none ↦ none
            | some (a, fs, faults) ↦ elim (follow env a.result d.machine) [
              | none ↦ none
              | some m ↦ some (record d {
                machine = m;
                recovery = a.coord;
                pending_resume_token = none;
                fs = fs;
                faults = faults;
              })
            ]
          ]

  unfoldable pub tick_recovery :
      Env → Zoned → ℕ → List (Zoned × ℕ) → Driven Zoned Timestamp → Drive Zoned Timestamp
  unfolding drain drive state_eq
  tick_recovery env now_wall now_mono dwells d =
      elim (drain dwells (record d { machine = drop_stale_guard d.machine })) [
        | none ↦ none
        | some d' ↦ drive env now_wall now_mono d'
      ]

  -- `Command::ResumeReconnect`
  unfoldable pub resume_reconnect :
      Timestamp → Text → Driven Zoned Timestamp → Driven Zoned Timestamp
  resume_reconnect now token_str d =
      if not (phase_eq d.recovery.phase given_up) && not d.recovery.blocked_awaiting_resume
      then d
      else record d {
        pending_resume_token =
            some
              (record { mode = d.recovery_mode_tag; minted_at = now; nonce_material = token_str });
      }

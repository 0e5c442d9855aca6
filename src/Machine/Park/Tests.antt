-- ===== src/Machine/Park/Tests.antt =====
-- A machine that a give-up parked.
use ibctl.Base.{ℕ, ◌≡◌, ◌⊎◌, refl, arith, Option, some, none, List, [], ◌∷◌}
use ibctl.Base.Text.{codes}
use ibctl.Recovery.Decision.{compute_next_action}
use ibctl.Recovery.Disk.{atomic_write, done, io_error}
use ibctl.Recovery.Persist.{save, mark_sidecar, write_marker}
use ibctl.Recovery.Coordinator.{compute, phase_elapsed_secs, apply, persist, persisted_state}
use ibctl.Recovery.Tests.Sample.{sample_platform, empty_dir, halted, in_backoff}
use ibctl.Machine.State.{waiting_for_launch}
use ibctl.Machine.Park.{Driven, tick_recovery}
use ibctl.Machine.Park.Laws.{ParkedEvent, ticks, taps, events}
use ibctl.Machine.Park.GiveUp.{Drained, tick_recovery-events}
use ibctl.Machine.Tests.{standby, online, env}

abbrev parked : Driven ℕ ℕ
parked = record {
  machine = standby;
  recovery = halted;
  recovery_mode_tag = codes "live";
  pending_resume_token = none;
  fs = empty_dir;
  faults = [];
}

-- The operator's tap, and the ticks after it.
abbrev tapped : List (ParkedEvent ℕ ℕ)
tapped =
    taps 13000 (codes "token")
    ∷ ticks env 13001 13_001_000_000_000 []
    ∷ ticks env 13002 13_002_000_000_000 ((12999, 12_999_000_000_000) ∷ [])
    ∷ []

-- A session that is at the end of the backoff phase.
abbrev failing : Driven ℕ ℕ
failing = record parked { machine = online; recovery = in_backoff }

abbrev or_failing : Option (Driven ℕ ℕ) → Driven ℕ ℕ
or_failing none = failing
or_failing (some d) = d

abbrev gave_up : Driven ℕ ℕ
gave_up = or_failing (tick_recovery sample_platform env 12000 12_000_000_000_000 [] failing)

tick_recovery-events_example :
    (d1 : Driven ℕ ℕ) × Drained sample_platform [] failing d1
    × ((((persist sample_platform gave_up.recovery d1.faults d1.fs).0 ≡ done tt)
          × ((d'' : Driven ℕ ℕ) × (events sample_platform tapped gave_up ≡ some d'')
              × (gave_up.machine.state ≡ waiting_for_launch)
              × (d''.machine.state ≡ waiting_for_launch)
              × (d''.recovery ≡ gave_up.recovery)
              × (d''.fs ≡ gave_up.fs)))
        ⊎ (((persist sample_platform gave_up.recovery d1.faults d1.fs).0 ≡ io_error)
            × (gave_up.machine.state ≡ failing.machine.state)))
unfolding tick_recovery compute compute_next_action phase_elapsed_secs apply persist save
    mark_sidecar persisted_state atomic_write write_marker
tick_recovery-events_example =
    tick_recovery-events sample_platform env 12000 12_000_000_000_000 [] failing gave_up
      (λ e. ground (arith, e)) refl refl tapped

-- The tick gives up, and its write works.
gave_up-parked : gave_up.machine.state ≡ waiting_for_launch
unfolding tick_recovery compute compute_next_action phase_elapsed_secs apply persist save
    mark_sidecar persisted_state atomic_write write_marker
gave_up-parked = refl

-- ===== src/Recovery/Tests/Runs.antt =====
-- Concrete runs, and each theorem at a concrete input.
use ibctl.Base.{
  ℕ, ◌+◌, ◌/◌, ◌≡◌, ◌⊎◌, refl, true, false, none, some, List, [], ◌∷◌, arith, not, ◌&&◌, ◌||◌, min,
}
use ibctl.Base.Text.{text_eq}
use ibctl.Recovery.Decision.{
  aggressive, backoff_every_15min, given_up, phase_eq, default_config, RecoverySnapshot,
  fire_giveup_alert, compute_next_action,
}
use ibctl.Recovery.Disk.{Fs, Fault, holds, put, works, dies, done, atomic_write}
use ibctl.Recovery.Persist.{
  loaded, marker_path, sidecar_path, load, save, mark_sidecar, write_marker, file_says_given_up,
  peek_given_up, should_block_boot,
}
use ibctl.Recovery.Persist.Laws.{load-should_block_boot, marker_is}
use ibctl.Recovery.Persist.Crash.{halts, save-halts, save-old_or_new}
use ibctl.Recovery.Persist.Modes.{live, paper, mode_tag, save-other_mode}
use ibctl.Recovery.Coordinator.{
  fired_giveup_alert, persisted_state, phase_elapsed_secs, persist, compute, apply, tick,
  record_success, boot, nanos_per_sec,
}
use ibctl.Recovery.Coordinator.Phases.{Edge, tick-Edge}
use ibctl.Recovery.Coordinator.History.{
  Event, Life, LifeInv, ticks, succeeds, restarts, live-LifeInv,
}
use ibctl.Recovery.Coordinator.History
use ibctl.Recovery.Coordinator.Restart.{boot-apply, boot-phase_elapsed_secs, wall_secs}
use ibctl.Recovery.Coordinator.Ticks.{TickInput, run_ticks, success_stops_timer}
use ibctl.Recovery.Tests.Sample.{
  sample_json, sample_platform, sample-IsFaithful, empty_dir, in_backoff, halted, tap, write_state,
}

-- Three hours in backoff: the snapshot at second 10800.
abbrev late : RecoverySnapshot ℕ
late = record {
  phase = backoff_every_15min;
  phase_elapsed_secs = 10800;
  had_success_this_phase = false;
  resume_token = none;
  cold_restart_pending = false;
  failure_fingerprint_streak = 0;
}

late_fires : compute_next_action late default_config ≡ some fire_giveup_alert
unfolding compute_next_action
late_fires = refl

tick-Edge_example :
    Edge sample_platform in_backoff 12000 12_000_000_000_000 false none 0 backoff_every_15min
      given_up
unfolding tick compute phase_elapsed_secs compute_next_action apply persist persisted_state save
    mark_sidecar write_marker atomic_write
tick-Edge_example =
    tick-Edge sample_platform in_backoff 12000 12_000_000_000_000 false none 0 [] empty_dir _ refl

-- The process dies while it writes the temporary file of the main marker.
abbrev dying : List Fault
dying = works ∷ works ∷ works ∷ works ∷ works ∷ dies [] ∷ []

save-halts_example :
    let (result, fs', _) = save sample_json halted.mode (persisted_state halted) dying empty_dir in
    ((load sample_json fs' halted.mode false ≡ load sample_json empty_dir halted.mode false)
      ⊎ (halts (load sample_json fs' halted.mode false) ≡ true))
    × (result ≡ done tt → load sample_json fs' halted.mode false ≡ loaded (persisted_state halted))
unfolding persisted_state
save-halts_example =
    save-halts sample_json halted.mode (persisted_state halted) dying empty_dir sample-IsFaithful
      refl refl

-- The directory after the give-up was saved, and after the backoff state was.
abbrev halted_dir : Fs
halted_dir = put empty_dir (marker_path halted.mode) (holds (write_state (persisted_state halted)))

abbrev backoff_dir : Fs
backoff_dir =
    put empty_dir (marker_path halted.mode) (holds (write_state (persisted_state in_backoff)))

save-old_or_new_example :
    let (result, fs', _) =
      save sample_json halted.mode (persisted_state in_backoff) dying halted_dir in
    ((load sample_json fs' halted.mode false ≡ loaded (persisted_state halted))
      ⊎ (load sample_json fs' halted.mode false ≡ loaded (persisted_state in_backoff)))
    × (result ≡ done tt
        → load sample_json fs' halted.mode false ≡ loaded (persisted_state in_backoff))
unfolding persisted_state load marker_path sidecar_path text_eq
save-old_or_new_example =
    save-old_or_new sample_json halted.mode (persisted_state in_backoff) (persisted_state halted)
      dying halted_dir sample-IsFaithful refl (λ e. cc) refl

load-should_block_boot_example :
    let main = halted_dir (marker_path halted.mode) in
    should_block_boot (load sample_json halted_dir halted.mode false) ≡ (
      true
      && (not (marker_is sample_json (λ s. phase_eq s.phase given_up) main)
          && (file_says_given_up (halted_dir (sidecar_path halted.mode))
              || (not (marker_is sample_json (λ _. true) main) && peek_given_up sample_json main))))
load-should_block_boot_example = load-should_block_boot sample_json halted_dir halted.mode false

save-other_mode_example :
    load sample_json
      (save sample_json (mode_tag live) (persisted_state halted) dying halted_dir).1
      (mode_tag paper)
      false
    ≡ load sample_json halted_dir (mode_tag paper) false
save-other_mode_example =
    save-other_mode sample_json live paper (persisted_state halted) dying halted_dir false (λ e. cc)

-- A history: a give-up whose write dies, a restart that finds the sidecar, a resume.
abbrev life : Life ℕ ℕ
life = record { running = some in_backoff; fs = empty_dir; faults = dying }

abbrev events : List (Event ℕ ℕ)
events =
    ticks 12000 12_000_000_000_000 false none 0
    ∷ restarts none 12100 0
    ∷ ticks 20001 9_000_000_000_000 false (some tap) 0
    ∷ succeeds 20100 9_100_000_000_000
    ∷ []

live-LifeInv_example :
    LifeInv sample_platform in_backoff.mode default_config
      (History.live sample_platform in_backoff.mode default_config events life)
live-LifeInv_example =
    live-LifeInv sample_platform in_backoff.mode default_config events life sample-IsFaithful
      (record { memory = (ground arith, refl); disk = λ t s p q. absurd (ground arith) })

boot-apply_example :
    let (after, fs', _) =
      apply sample_platform in_backoff fire_giveup_alert 12000 12_000_000_000_000 none []
        empty_dir in
    let (again, outcome) = boot sample_platform fs' in_backoff.mode default_config none 12100 0 in
    (outcome ≡ loaded (persisted_state after.coord))
    × (again.phase ≡ after.coord.phase)
    × (again.phase_entered_at_wall ≡ after.coord.phase_entered_at_wall)
    × (again.last_full_success_at ≡ after.coord.last_full_success_at)
    × (again.giveup_alert_sent_at ≡ after.coord.giveup_alert_sent_at)
    × (again.resumed_by_token_hash ≡ after.coord.resumed_by_token_hash)
    × (again.blocked_awaiting_resume ≡ false)
unfolding apply persist save mark_sidecar write_marker atomic_write persisted_state
boot-apply_example =
    boot-apply sample_platform in_backoff fire_giveup_alert 12000 12_000_000_000_000 none []
      empty_dir fired_giveup_alert 12100 0 sample-IsFaithful (λ e. cc) (λ e. cc) refl

boot-phase_elapsed_secs_example :
    phase_elapsed_secs sample_platform
      (boot sample_platform backoff_dir halted.mode default_config none 2000 5_000_000_000_000).0
      2600
      (5_000_000_000_000 + 500_000_000_000)
    ≡ min
        (wall_secs sample_platform 2600 1000)
        (wall_secs sample_platform 2000 1000 + 500_000_000_000 / nanos_per_sec)
unfolding load marker_path sidecar_path text_eq persisted_state
boot-phase_elapsed_secs_example =
    boot-phase_elapsed_secs sample_platform backoff_dir halted.mode default_config 2000
      5_000_000_000_000 (persisted_state in_backoff) 2600 500_000_000_000 refl (omega arith)

abbrev later : TickInput ℕ ℕ
later = record { wall = 99000; mono = 99_000_000_000_000; cold = false; token = none; streak = 0 }

success_stops_timer_example :
    let after =
      (record_success sample_platform in_backoff 12000 12_000_000_000_000 [] empty_dir).0.coord in
    (run_ticks sample_platform (later ∷ later ∷ []) after [] empty_dir ≡ some after)
    × (after.phase ≡ aggressive)
success_stops_timer_example =
    success_stops_timer sample_platform (later ∷ later ∷ []) in_backoff 12000 12_000_000_000_000 []
      empty_dir [] empty_dir (λ e. cc) (omega arith)

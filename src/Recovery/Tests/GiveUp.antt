-- ===== src/Recovery/Tests/GiveUp.antt =====
-- A give-up on a full disk.
use ibctl.Base.{ℕ, ◌≡◌, refl, false, none, some, List, [], ◌∷◌}
use ibctl.Recovery.Decision.{given_up, fire_giveup_alert}
use ibctl.Recovery.Disk.{Fault, fails, atomic_write}
use ibctl.Recovery.Persist.{save, mark_sidecar, write_marker}
use ibctl.Recovery.Coordinator.{apply, persist, persisted_state, give_up, persist_then}
use ibctl.Recovery.Coordinator.Ticks.{TickInput, run_ticks}
use ibctl.Recovery.Coordinator.GiveUp.{sent_by, failed_giveup-run_ticks}
use ibctl.Recovery.Tests.Sample.{sample_platform, empty_dir, in_backoff}

abbrev full_disk : List Fault
full_disk = fails [] ∷ []

abbrev next_day : TickInput ℕ ℕ
next_day = record {
  wall = 98400;
  mono = 98_400_000_000_000;
  cold = false;
  token = none;
  streak = 0;
}

failed_giveup-run_ticks_example :
    let a =
      (apply sample_platform in_backoff fire_giveup_alert 12000 12_000_000_000_000 none full_disk
        empty_dir).0 in
    (a.sent ≡ [])
    × (a.coord.phase ≡ given_up)
    × (run_ticks sample_platform (next_day ∷ next_day ∷ []) a.coord [] empty_dir ≡ some a.coord)
    × (sent_by sample_platform (next_day ∷ next_day ∷ []) a.coord [] empty_dir ≡ [])
unfolding apply give_up persist persist_then persisted_state save mark_sidecar write_marker
    atomic_write
failed_giveup-run_ticks_example =
    failed_giveup-run_ticks sample_platform (next_day ∷ next_day ∷ []) in_backoff 12000
      12_000_000_000_000 full_disk empty_dir [] empty_dir (λ e. cc) refl refl (refl, (refl, tt))

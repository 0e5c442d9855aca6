-- ===== src/Machine/Probe.antt =====
-- The task of ibctl/src/state_machine/mod.rs that probes Gateway's API port, and what raises its flag.
use ibctl.Base.{
  ℕ, zero, suc, ◌+◌, ◌-◌, ◌^◌, ◌≡◌, ◌∙◌, ap, ◌≤◌, ◌<◌, refl, Bool, true, false, ◌||◌, Option, none,
  some, List, [], ◌∷◌, min, max, leb, ◌==◌, if◌then◌else◌, arith,
}
use ibctl.Config.Data.{TradingMode, paper, live, both, GatewayConfig}

-- The task's counter, and the flag that it shares with the state machine.
pub record PortProbe : Type 0 where
  pub consecutive_failures : ℕ
  pub failed_flag : Bool

unfoldable pub probed_port : TradingMode → GatewayConfig → ℕ
probed_port paper config = config.paper_api_port
probed_port live config = config.live_api_port
probed_port both config = config.live_api_port

-- The task is only started for an interval that is not 0, with the flag lowered.
unfoldable pub start_api_port_probe : ℕ → TradingMode → GatewayConfig → Option (ℕ × PortProbe)
unfolding probed_port
start_api_port_probe interval mode config =
    if interval == 0
    then none
    else some (probed_port mode config, record { consecutive_failures = 0; failed_flag = false })

abbrev saturating_succ : ℕ → ℕ
saturating_succ n = min (n + 1) (2 ^ 32 - 1)

-- One round of the task's loop, by whether the handshake worked.
unfoldable pub probe_round : ℕ → Bool → PortProbe → PortProbe
probe_round threshold true p = record p { consecutive_failures = 0 }
probe_round threshold false p =
    let failures = saturating_succ p.consecutive_failures in
    record {
      consecutive_failures = failures;
      failed_flag = if leb threshold failures then true else p.failed_flag;
    }

unfoldable pub probe_rounds : ℕ → List Bool → PortProbe → PortProbe
unfolding probe_round
probe_rounds threshold [] p = p
probe_rounds threshold (ok ∷ rest) p = probe_rounds threshold rest (probe_round threshold ok p)

-- The first so many handshakes were made, and failed.
abbrev pub starts_failing : ℕ → List Bool → Bool
starts_failing zero oks = true
starts_failing (suc n) [] = false
starts_failing (suc n) (ok ∷ rest) = if ok then false else starts_failing n rest

-- So many handshakes in a row failed.
abbrev pub has_failing : ℕ → List Bool → Bool
has_failing n [] = starts_failing n []
has_failing n (ok ∷ rest) = starts_failing n (ok ∷ rest) || has_failing n rest

starts_failing-has_failing :
    (n : ℕ) (oks : List Bool) → starts_failing n oks ≡ true → has_failing n oks ≡ true
starts_failing-has_failing n [] h = h
starts_failing-has_failing n (ok ∷ rest) h = ground (arith, h)

starts_failing_mono :
    (m n : ℕ) (oks : List Bool) → m ≤ n → starts_failing n oks ≡ true → starts_failing m oks ≡ true
starts_failing_mono zero n oks le h = refl
starts_failing_mono (suc m) zero oks le h = absurd (omega arith)
starts_failing_mono (suc m) (suc n) [] le h = h
starts_failing_mono (suc m) (suc n) (true ∷ rest) le h = h
starts_failing_mono (suc m) (suc n) (false ∷ rest) le h =
    starts_failing_mono m n rest (omega arith) h

-- The task does not lower its flag.
flag_kept :
    (threshold : ℕ) (oks : List Bool) (p : PortProbe)
    → p.failed_flag ≡ true
    → (probe_rounds threshold oks p).failed_flag ≡ true
unfolding probe_rounds probe_round
flag_kept threshold [] p h = h
flag_kept threshold (true ∷ rest) p h = flag_kept threshold rest (probe_round threshold true p) h
flag_kept threshold (false ∷ rest) p h =
    flag_kept threshold rest (probe_round threshold false p) (ground arith)

module _ (threshold k : ℕ) (is_max : suc k ≡ max 1 threshold) (u32 : threshold < 2 ^ 32) where
  saturating_succ_lem : (c : ℕ) → c ≤ k → saturating_succ c ≡ c + 1
  saturating_succ_lem c le = omega arith

  last_failure : (c : ℕ) → c ≡ k → leb threshold (saturating_succ c) ≡ true
  last_failure c e = ground (arith, saturating_succ_lem c)

  early_failure :
      (c : ℕ)
      → c < k
      → probe_round threshold false (record { consecutive_failures = c; failed_flag = false })
        ≡ record { consecutive_failures = c + 1; failed_flag = false }
  unfolding probe_round
  early_failure c lt = ground (arith, saturating_succ_lem c)

  rounds_lem :
      (oks : List Bool) (c d : ℕ)
      → c + d ≡ k
      → (probe_rounds threshold oks
          (record { consecutive_failures = c; failed_flag = false })).failed_flag
        ≡ (starts_failing (suc d) oks || has_failing (suc k) oks)
  unfolding probe_rounds probe_round
  rounds_lem [] c d e = refl
  rounds_lem (true ∷ rest) c d e =
      ground (arith, rounds_lem rest 0 k, starts_failing-has_failing (suc k) rest)
  rounds_lem (false ∷ rest) c zero e =
      flag_kept threshold rest _ (rw (last_failure c (omega arith), if◌then◌else◌) refl)
  rounds_lem (false ∷ rest) c (suc d) e =
      ap (λ (p : PortProbe). (probe_rounds threshold rest p).failed_flag)
        (early_failure c (omega arith))
      ∙ (rounds_lem rest (c + 1) d (omega arith)
          ∙ ground (arith, starts_failing_mono (suc d) k rest))

from_start :
    (threshold k : ℕ) (oks : List Bool)
    → suc k ≡ max 1 threshold
    → threshold < 2 ^ 32
    → (probe_rounds threshold oks
        (record { consecutive_failures = 0; failed_flag = false })).failed_flag
      ≡ has_failing (max 1 threshold) oks
from_start threshold k oks is_max u32 =
    rounds_lem threshold k is_max u32 oks 0 k (omega arith)
    ∙ (ground (arith, starts_failing-has_failing (suc k) oks)
        ∙ ap (λ (n : ℕ). has_failing n oks) is_max)

started_lem :
    (interval : ℕ) (mode : TradingMode) (config : GatewayConfig) (port : ℕ) (p : PortProbe)
    → start_api_port_probe interval mode config ≡ some (port, p)
    → p ≡ record { consecutive_failures = 0; failed_flag = false }
unfolding start_api_port_probe
started_lem interval mode config port p e = ground arith

-- The flag of a task that was started is raised exactly when as many handshakes in a row have
-- failed as the threshold, a u32, says, and at least one, whatever comes after.
pub probe_rounds-start_api_port_probe :
    (interval threshold : ℕ) (mode : TradingMode) (config : GatewayConfig) (port : ℕ)
    (p : PortProbe) (oks : List Bool)
    → threshold < 2 ^ 32
    → start_api_port_probe interval mode config ≡ some (port, p)
    → (probe_rounds threshold oks p).failed_flag ≡ has_failing (max 1 threshold) oks
probe_rounds-start_api_port_probe interval threshold mode config port p oks u32 started =
    rw (started_lem interval mode config port p started)
      (from_start threshold (max 1 threshold - 1) oks (omega arith) u32)

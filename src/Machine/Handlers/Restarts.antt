-- ===== src/Machine/Handlers/Restarts.antt =====
-- The restarts in a row of ibctl/src/state_machine/mod.rs.
use ibctl.Base.{ℕ, zero, suc, ◌+◌, ◌-◌, ◌≡◌, ◌≤◌, ◌<◌, none, some, arith, ◌^◌}
use ibctl.Machine.State.{launching}
use ibctl.Machine.Lifecycle.{StateMachine}
use ibctl.Machine.Handlers.{Settings, secs}
use ibctl.Machine.Handlers.Recover.{do_restart, restart_delay}

-- One restart of the JVM without a session to resume waits for at most a quarter of an hour. With a
-- threshold below 2^32 it counts one restart more, and the count stays below the threshold.
launching_lem :
    {Zoned : Type 0} (config : Settings) (now : ℕ) (m : StateMachine Zoned)
    → m.warm_restart_pending ≡ none
    → 0 < config.exit_threshold
    → config.exit_threshold < 2 ^ 32
    → (do_restart config now m).next ≡ some launching
    → (restart_delay config m ≤ 900)
      × (secs (restart_delay config m) ≤ now - m.state_entered_at)
      × ((do_restart config now m).machine.consecutive_jvm_restarts
          ≡ m.consecutive_jvm_restarts + 1)
      × (m.consecutive_jvm_restarts + 1 < config.exit_threshold)
unfolding do_restart restart_delay
launching_lem config now m cold some_limit small h = ground (arith, cold, h)

-- That many restarts without a session to resume, one after the other: what happens between two of
-- them leaves the counter alone.
abbrev pub Cycles : {Zoned : Type 0} → Settings → ℕ → StateMachine Zoned → Type 0
Cycles config zero m = Unit
Cycles {Zoned} config (suc n) m =
    (now : ℕ) × (m.warm_restart_pending ≡ none)
    × ((do_restart config now m).next ≡ some launching)
    × ((m' : StateMachine Zoned) × (m'.consecutive_jvm_restarts
          ≡ (do_restart config now m).machine.consecutive_jvm_restarts)
        × Cycles config n m')

-- With an exit threshold between 1 and 2^32 - 1, the JVM is restarted without a session to resume
-- fewer times in a row than the threshold, those already counted included: the program ends instead.
-- In a row means that the counter is not reset between two of them.
pub restarts_end :
    {Zoned : Type 0} (config : Settings) (n : ℕ) (m : StateMachine Zoned)
    → 0 < config.exit_threshold
    → config.exit_threshold < 2 ^ 32
    → m.consecutive_jvm_restarts < config.exit_threshold
    → Cycles config n m
    → n + m.consecutive_jvm_restarts < config.exit_threshold
restarts_end config zero m some_limit small start cycles = omega (arith, start)
restarts_end config (suc n) m some_limit small start (now, cold, launches, (m', same, rest)) =
    let (delay, waited, counted, below) =
      launching_lem config now m cold some_limit small launches in
    omega (
      arith,
      same,
      counted,
      below,
      restarts_end config n m' some_limit small (omega (arith, same, counted, below)) rest,
    )

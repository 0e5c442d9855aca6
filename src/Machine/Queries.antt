-- ===== src/Machine/Queries.antt =====
-- ibctl/src/state_machine/queries.rs: the JSON that the queries are answered with. The texts of dates
-- and the figures of the process are inputs. The members of an object stand in the order of the source.
pub mod Recovery
pub mod Publish
pub mod Retry
pub mod Ready
pub mod Published
pub mod Settings
mod Tests
use ibctl.Base.{
  ℕ, ◌+◌, ◌-◌, ◌*◌, ◌/◌, ◌^◌, Bool, true, false, not, ◌&&◌, Option, none, some, List, [], ◌∷◌, ◌++◌,
  map, max, min, ltb, length, ◌==◌, if◌then◌else◌,
}
use ibctl.Base.Int.{ℤ, clamped_sub}
use ibctl.Base.Text.{Text, codes}
use ibctl.Base.Decimal.{decimal, show_int, parse_u32}
use ibctl.ColdRestart.{ColdRestartSkipReason, fresh_auth_today, dormant_site}
use ibctl.Machine.Json.{
  Json, Elements, Members, null, boolean, number, string, array, object, end, element, empty,
  member, optional, get, get_array, listed,
}
use ibctl.Machine.Lifecycle.{StateMachine, Transition, Hitl, IbSystemStatus, ColdRestartSkipRecord}
use ibctl.Machine.State.{connected, waiting_for_hitl2fa, state_eq, display, client_advisory}
use ibctl.Machine.Handlers.{WindowInfo}
use ibctl.Recovery.Decision.{Phase, backoff_every_15min, phase_eq, as_str}
use ibctl.Recovery.Coordinator.{RecoveryCoordinator, secs_since}
use ibctl.Config.Data.{Config}
use ibctl.Config.Names.{show_trading_mode}
use ibctl.Machine.Queries.Settings.{site_json}
use ibctl.Machine.Queries.Recovery.{
  num, or_null, elements, members, obj, arr, Dates, JvmInfo, Figures, recovery_json, skip_json,
}

-- An empty reason is null, and a status expires ten minutes after its last update.
unfoldable pub ib_system_json : ℕ → IbSystemStatus → Json
unfolding decimal
ib_system_json now ib = obj (
    (codes "available", boolean ib.available)
    ∷ (codes "status", string ib.status)
    ∷ (codes "reason", elim ib.reason [ [] ↦ null | c ∷ cs ↦ string (c ∷ cs) ])
    ∷ (codes "expires_in_secs", or_null (λ t. num (600 - secs_since now t)) ib.last_updated)
    ∷ [])

abbrev pub advisory_json : Bool → Bool × Bool × Option Text × Bool → Json
advisory_json running (should_connect, should_wait, wait_reason, stale) = obj (
    (codes "should_connect", boolean (should_connect && running))
    ∷ (codes "should_wait", boolean should_wait)
    ∷ (codes "wait_reason", or_null string wait_reason)
    ∷ (codes "client_id_likely_stale", boolean stale)
    ∷ [])

abbrev jvm_json : JvmInfo → Json
jvm_json jvm = obj (
    (codes "pid", or_null num jvm.pid)
    ∷ (codes "alive", boolean jvm.alive)
    ∷ (codes "uptime_secs", or_null num jvm.started_at)
    ∷ (codes "config_dir", string jvm.config_dir)
    ∷ (codes "agent_socket", string jvm.agent_socket)
    ∷ [])

abbrev transition_json : Transition → Json
transition_json t = obj (
    (codes "timestamp", string t.timestamp)
    ∷ (codes "from", string t.from)
    ∷ (codes "to", string t.to)
    ∷ [])

module _ {Zoned : Type 0} where
  unfoldable pub hitl_json : Figures Zoned → StateMachine Zoned → Json
  unfolding state_eq decimal
  hitl_json f m =
      if state_eq m.state waiting_for_hitl2fa
      then obj (
          (codes "active", boolean true)
          ∷ (codes "entered_at_secs_ago", or_null (λ t. num (secs_since f.now t)) m.hitl.entered_at)
          ∷ (codes "attempts_exhausted", num (max f.relogins_today m.consecutive_2fa_timeouts))
          ∷ (codes "consecutive_2fa_timeouts", num m.consecutive_2fa_timeouts)
          ∷ (
            codes "next_retry_in_secs",
            or_null (λ t. num (secs_since t f.now)) m.hitl.next_retry_at,
          )
          ∷ (codes "intervals_index", num m.hitl.intervals_index)
          ∷ (codes "ntfy_sent", boolean m.hitl.ntfy_sent)
          ∷ (codes "ntfy_attempts", num m.hitl.ntfy_attempts)
          ∷ [])
      else null

  unfoldable pub twofa_clock_json : Figures Zoned → StateMachine Zoned → Json
  unfolding decimal show_int
  twofa_clock_json f m = obj (
      (codes "verified_offset_ms", or_null (λ o. number (show_int o)) f.verified_offset_ms)
      ∷ (codes "last_verified_unix_secs", or_null num f.last_verified_unix_secs)
      ∷ (
        codes "server_retry_in_secs",
        or_null (λ t. num (secs_since t f.now)) m.twofa_retry_not_before,
      )
      ∷ (codes "waiting_for_screen_countdown", boolean m.twofa_retry_waiting_for_screen)
      ∷ [])

  -- Whether socat runs: a process is kept and has not ended.
  abbrev pub socat_running : Figures Zoned → StateMachine Zoned → Bool
  socat_running f m = m.session.socat_process && f.socat_alive

  unfoldable watchdog_json : Figures Zoned → StateMachine Zoned → Json
  unfolding decimal parse_u32
  watchdog_json f m = obj (
      (codes "consecutive_jvm_restarts", num m.consecutive_jvm_restarts)
      ∷ (
        codes "container_exit_after_restarts",
        num (optional 8 (λ n. n) (optional none parse_u32 f.container_exit_after_restarts)),
      )
      ∷ (codes "api_probe", string (codes "ib_v100_handshake"))
      ∷ [])

  unfoldable pub state_json : StateMachine Zoned → Json
  unfolding display
  state_json m = obj (
      (codes "current", string (display m.state))
      ∷ (codes "history", arr (map transition_json m.transition_history))
      ∷ [])

module _ {Zoned Timestamp : Type 0} (dates : Dates Zoned Timestamp) where
  unfoldable pub status_json :
      Figures Zoned → Config → RecoveryCoordinator Zoned Timestamp → StateMachine Zoned → Json
  unfolding recovery_json skip_json hitl_json ib_system_json twofa_clock_json watchdog_json state_eq
      display client_advisory show_trading_mode site_json decimal
  status_json f cfg recovery m =
      let running = socat_running f m in
      obj (
        (codes "version", string f.version)
        ∷ (codes "ready", boolean (state_eq m.state connected && running))
        ∷ (codes "state", string (display m.state))
        ∷ (codes "trading_mode", string (show_trading_mode cfg.auth.trading_mode))
        ∷ (codes "uptime_secs", num (secs_since f.now f.start_time))
        ∷ (
          codes "connected_uptime_secs",
          or_null (λ t. num (secs_since f.now t)) m.session.connected_since,
        )
        ∷ (codes "jvm", jvm_json f.jvm)
        ∷ (
          codes "socat",
          obj (
              (codes "running", boolean running)
              ∷ (codes "pid", if m.session.socat_process then num f.socat_pid else null)
              ∷ []),
        )
        ∷ (
          codes "clients",
          obj (
              (codes "count", num (length f.client_ids))
              ∷ (codes "ids", arr (map string f.client_ids))
              ∷ []),
        )
        ∷ (codes "ib_system", ib_system_json f.now m.ib_status)
        ∷ (codes "site", site_json cfg.site)
        ∷ (codes "paused", boolean m.pause.paused)
        ∷ (codes "ceiling_state", or_null (λ s. string (display s)) m.pause.ceiling_state)
        ∷ (codes "stats", f.stats)
        ∷ (codes "client_advisory", advisory_json running (client_advisory m.state))
        ∷ (codes "hitl", hitl_json f m)
        ∷ (codes "twofa_clock", twofa_clock_json f m)
        ∷ (codes "watchdog", watchdog_json f m)
        ∷ (codes "recovery", recovery_json dates recovery f.now_wall)
        ∷ (codes "last_cold_restart_skip", or_null (skip_json dates) m.last_cold_restart_skip)
        ∷ [])

-- The tabs of a dump; a window that cannot be dumped has none.
unfoldable tabs_of : Option Json → List Json
unfolding get
tabs_of none = []
tabs_of (some dump) = optional [] (λ tabs. tabs) (get_array (codes "tabs") dump)

abbrev window_json : (ℕ → Option Json) → WindowInfo → Json
window_json dump w = obj (
    (codes "id", num w.id)
    ∷ (codes "title", string w.title)
    ∷ (codes "class", string w.class)
    ∷ (codes "tabs", arr (tabs_of (dump w.id)))
    ∷ [])

-- The answers of `list_windows`, whose error counts as no window, and of `dump_components`.
unfoldable pub windows_json : Option (List WindowInfo) → (ℕ → Option Json) → Json
unfolding tabs_of decimal
windows_json windows dump =
    obj ((codes "windows", arr (map (window_json dump) (optional [] (λ ws. ws) windows))) ∷ [])

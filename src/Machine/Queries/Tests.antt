-- ===== src/Machine/Queries/Tests.antt =====
-- The answers to queries at concrete inputs.
use ibctl.Base.{◌+◌, ◌≡◌, refl, true, false, none, some, [], ◌∷◌, map, arith}
use ibctl.Base.Text.{Text, codes}
use ibctl.Base.Int.{pos}
use ibctl.CommandServer.Connection.{subscription, event_line}
use ibctl.Machine.Json.{Json, null}
use ibctl.Machine.Tests.{online}
use ibctl.Machine.Queries.Recovery.{Dates, Figures, next_retry_at}
use ibctl.Machine.Queries.Publish.{View, publications}
use ibctl.Machine.Queries.Published.{kept, subscription-publications}
use ibctl.Machine.Queries.Retry.{next_retry_at-sleep}
use ibctl.Config.Defaults.{built_in}
use ibctl.Recovery.Decision
use ibctl.Recovery.Decision.{RecoverySnapshot, backoff_every_15min, compute_next_action}
use ibctl.Recovery.Tests.Sample.{in_backoff}
use Prim.Native.Nat.{ℕ}

-- Dates are seconds.
abbrev dates : Dates ℕ ℕ
dates = record {
  as_second = pos;
  shown = λ z. z ∷ [];
  shown_timestamp = λ t. t ∷ [];
  checked_add = λ z s. some (z + s);
}

abbrev figures : Figures ℕ
figures = record {
  version = codes "1.0";
  now = 9_000_000_000;
  now_wall = 2000;
  start_time = 0;
  socat_alive = true;
  socat_pid = 77;
  jvm = record {
    pid = some 5;
    alive = true;
    started_at = some 8;
    config_dir = codes "/root/Jts";
    agent_socket = codes "/tmp/agent.sock";
  };
  client_ids = [];
  stats = null;
  relogins_today = 0;
  verified_offset_ms = none;
  last_verified_unix_secs = none;
  container_exit_after_restarts = none;
}

-- An hour into the backoff, the next of the 15 minutes ends after 4500 seconds.
abbrev hour : RecoverySnapshot ℕ
hour = record {
  phase = backoff_every_15min;
  phase_elapsed_secs = 3600;
  had_success_this_phase = false;
  resume_token = none;
  cold_restart_pending = false;
  failure_fingerprint_streak = 0;
}

next_retry_at-sleep_example :
    next_retry_at dates backoff_every_15min 900 3600 1000 ≡ some (1000 + (3600 + 900))
unfolding compute_next_action
next_retry_at-sleep_example =
    next_retry_at-sleep dates 1000 hour Decision.default_config 900 refl refl (omega arith) refl
      (omega arith)

abbrev view : View ℕ ℕ
view = record {
  figures = figures;
  recovery = in_backoff;
  machine = online;
  config = built_in;
  list_windows = some [];
  dump_components = λ id. none;
}

abbrev to_string : Json → Text
to_string v = codes "json"

subscription-publications_example :
    subscription 4 (
      map some (
        kept (true ∷ false ∷ true ∷ []) (publications dates to_string 4 (view ∷ view ∷ view ∷ []))))
    ≡ map
        (event_line (codes "status"))
        (kept (true ∷ false ∷ true ∷ []) (publications dates to_string 4 (view ∷ view ∷ view ∷ [])))
subscription-publications_example =
    subscription-publications dates to_string (true ∷ false ∷ true ∷ []) 4 (view ∷ view ∷ view ∷ [])

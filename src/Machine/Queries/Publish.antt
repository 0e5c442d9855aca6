-- ===== src/Machine/Queries/Publish.antt =====
-- ibctl/src/state_machine/queries.rs: the snapshot that is published, and the queries that the state
-- machine answers itself. The texts that serde_json prints are a parameter.
use ibctl.Base.{ℕ, ◌+◌, Option, List, [], ◌∷◌}
use ibctl.Base.Text.{Text, codes}
use ibctl.CommandServer.Connection.{QuerySnapshot}
use ibctl.Config.Data.{Config}
use ibctl.Machine.Handlers.{WindowInfo}
use ibctl.Machine.Json.{Json, string}
use ibctl.Machine.Lifecycle.{StateMachine}
use ibctl.Machine.Queries.Recovery.{Dates, Figures, num, obj}
use ibctl.Machine.Queries.Settings.{config_json}
use ibctl.Machine.Queries.{status_json, state_json, windows_json}
use ibctl.Recovery.Coordinator.{RecoveryCoordinator}

-- What an answer is made of.
pub record View (Zoned Timestamp : Type 0) : Type 0 where
  pub figures : Figures Zoned
  pub recovery : RecoveryCoordinator Zoned Timestamp
  pub machine : StateMachine Zoned
  pub config : Config
  pub list_windows : Option (List WindowInfo)
  pub dump_components : ℕ → Option Json

-- `Query`, without its reply channel
pub data Query : Type 0 where
  status state config windows : Query
  logs : ℕ → Query

module _ {Zoned Timestamp : Type 0} (dates : Dates Zoned Timestamp) (to_string : Json → Text) where
  -- The version that it is published with is one more than the last.
  unfoldable pub publish_snapshot : ℕ → View Zoned Timestamp → QuerySnapshot
  unfolding status_json state_json config_json
  publish_snapshot last v = record {
    version = last + 1;
    status_json = to_string (status_json dates v.figures v.config v.recovery v.machine);
    state_json = to_string (state_json v.machine);
    config_json = to_string (config_json v.config);
  }

  -- The snapshots of one publication after the other.
  unfoldable pub publications : ℕ → List (View Zoned Timestamp) → List QuerySnapshot
  unfolding publish_snapshot
  publications last [] = []
  publications last (v ∷ vs) = publish_snapshot last v ∷ publications (last + 1) vs

  abbrev logs_json : ℕ → Json
  logs_json limit = obj (
      (codes "error", string (codes "not_implemented"))
      ∷ (
        codes "message",
        string (codes "LOGS command is not yet implemented — use container logs instead"),
      )
      ∷ (codes "limit", num limit)
      ∷ [])

  unfoldable pub handle_query : View Zoned Timestamp → Query → Text
  unfolding status_json state_json config_json windows_json
  handle_query v status = to_string (status_json dates v.figures v.config v.recovery v.machine)
  handle_query v state = to_string (state_json v.machine)
  handle_query v config = to_string (config_json v.config)
  handle_query v (logs limit) = to_string (logs_json limit)
  handle_query v windows = to_string (windows_json v.list_windows v.dump_components)

  -- The queries that wait are answered in their order.
  unfoldable pub process_queries : View Zoned Timestamp → List Query → List Text
  unfolding handle_query
  process_queries v [] = []
  process_queries v (q ∷ qs) = handle_query v q ∷ process_queries v qs

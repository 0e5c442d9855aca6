-- ===== src/CommandServer/Connection.antt =====
-- `handle_connection` of ibctl/src/command_server.rs: what one connection is answered, and what it
-- sends to the state machine. A write to the socket that fails ends the connection and is left out.
use ibctl.Base.{
  ℕ, Bool, true, false, not, ◌&&◌, Option, none, some, List, [], ◌∷◌, ◌++◌, ◌==◌, if◌then◌else◌,
}
use ibctl.Base.Text.{Text, codes, trim}
use ibctl.Base.Decimal.{decimal}
use ibctl.Base.Words.{Casing}
use ibctl.Machine.Command.{Command, set_state, pause, pause_at, exit, hitl_resume, resume_reconnect}
use ibctl.CommandServer.{
  action, query, QueryType, status, state, config, windows, logs, subscribe, parse_command,
}
use ibctl.CommandServer.Address.{IpAddr, Net, is_localhost, is_allowed}

unfoldable pub is_privileged_command : Command → Bool
is_privileged_command (set_state _) = true
is_privileged_command pause = true
is_privileged_command (pause_at _) = true
is_privileged_command exit = true
is_privileged_command hitl_resume = true
is_privileged_command (resume_reconnect _) = true
is_privileged_command _ = false

-- What the timed read of a line gives.
pub data Read : Type 0 where
  end_of_file read_error timed_out : Read
  line : Text → Read

-- What became of a query that goes to the state machine.
pub data Answer : Type 0 where
  answered : Text → Answer
  dropped timeout closed : Answer

pub record QuerySnapshot : Type 0 where
  pub version : ℕ
  pub status_json : Text
  pub state_json : Text
  pub config_json : Text

-- What the connection meets: the peer, its line, whether the command channel is open, the published
-- snapshot, the answer to a slow query, and what a subscription sees (`none` for 30 quiet seconds).
pub record Peer : Type 0 where
  pub ip : IpAddr
  pub read : Read
  pub channel_open : Bool
  pub snapshot : QuerySnapshot
  pub answer : QueryType → Answer
  pub changes : List (Option QuerySnapshot)

-- The lines written, and the command sent to the state machine.
pub record Handled : Type 0 where
  pub written : List Text
  pub sent : Option Command
  pub failed : Bool

abbrev pub ok_line : Text → Text
ok_line text = codes "OK " ++ (text ++ (10 ∷ []))

abbrev pub error_line : Text → Text
error_line text = codes "ERROR " ++ (text ++ (10 ∷ []))

abbrev replies : Text → Handled
replies text = record { written = text ∷ []; sent = none; failed = false }

abbrev pub event_line : Text → QuerySnapshot → Text
event_line kind snap =
    codes "{\"type\":\""
    ++ (kind
        ++ (codes "\",\"version\":"
            ++ (decimal snap.version
                ++ (codes ",\"status\":" ++ (snap.status_json ++ (codes "}" ++ (10 ∷ [])))))))

abbrev pub keepalive_line : Text
keepalive_line = codes "{\"type\":\"keepalive\"}" ++ (10 ∷ [])

-- The events of a subscription after the first: a change of the same version is passed over.
unfoldable pub subscription : ℕ → List (Option QuerySnapshot) → List Text
unfolding decimal
subscription last_version [] = []
subscription last_version (none ∷ rest) = keepalive_line ∷ subscription last_version rest
subscription last_version (some snap ∷ rest) =
    let later = subscription snap.version rest in
    if snap.version == last_version then later else event_line (codes "status") snap ∷ later

abbrev answer_line : Answer → Text
answer_line (answered json) = ok_line json
answer_line dropped = error_line (codes "query response channel dropped")
answer_line timeout = error_line (codes "query timeout")
answer_line closed = error_line (codes "query channel closed")

unfoldable pub handle_query : Peer → QueryType → Handled
unfolding subscription decimal
handle_query peer subscribe = record {
  written =
      event_line (codes "snapshot") peer.snapshot ∷ subscription peer.snapshot.version peer.changes;
  sent = none;
  failed = false;
}
handle_query peer status = replies (ok_line peer.snapshot.status_json)
handle_query peer state = replies (ok_line peer.snapshot.state_json)
handle_query peer config = replies (ok_line peer.snapshot.config_json)
handle_query peer (logs n) = replies (answer_line (peer.answer (logs n)))
handle_query peer windows = replies (answer_line (peer.answer windows))

module _ (casing : Casing) (net : Net) where
  unfoldable pub handle_action : Peer → Text → Command → Handled
  unfolding is_privileged_command is_localhost
  handle_action peer trimmed cmd =
      if is_privileged_command cmd && not (is_localhost peer.ip)
      then replies (error_line (codes "privileged command requires localhost"))
      else if peer.channel_open
      then record {
        written = ok_line (casing.to_uppercase trimmed) ∷ [];
        sent = some cmd;
        failed = false;
      }
      else replies (error_line (codes "command channel closed"))

  unfoldable pub handle_line : Peer → Text → Handled
  unfolding handle_action handle_query parse_command trim
  handle_line peer text =
      let trimmed = trim text in
      elim (parse_command casing trimmed) [
        | some (action cmd) ↦ handle_action peer trimmed cmd
        | some (query q) ↦ handle_query peer q
        | none ↦ replies (error_line (codes "unknown command: " ++ trimmed))
      ]

  abbrev handle_read : Peer → Read → Handled
  handle_read peer end_of_file = record { written = []; sent = none; failed = false }
  handle_read peer timed_out = record { written = []; sent = none; failed = false }
  handle_read peer read_error = record { written = []; sent = none; failed = true }
  handle_read peer (line text) = handle_line peer text

  unfoldable pub handle_connection : Peer → List Text → Handled
  unfolding is_allowed handle_line
  handle_connection peer control_from =
      if not (is_allowed net peer.ip control_from)
      then replies (error_line (codes "not authorized"))
      else handle_read peer peer.read

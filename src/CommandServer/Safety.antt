-- ===== src/CommandServer/Safety.antt =====
-- Who can reach the state machine through ibctl/src/command_server.rs.
use ibctl.Base.{◌≡◌, ◌↔◌, true, false, not, ◌&&◌, none, some, List, arith, Option-cases, inl, inr}
use ibctl.Base.Text.{Text, trim}
use ibctl.Base.Words.{Casing}
use ibctl.Machine.Command.{Command}
use ibctl.CommandServer.{action, query, QueryType, parse_command}
use ibctl.CommandServer.Address.{Net, is_localhost, is_allowed}
use ibctl.CommandServer.Connection.{
  Peer, line, handle_connection, handle_line, handle_action, handle_query, is_privileged_command,
}

module _ (casing : Casing) (net : Net) where
  query_silent : (peer : Peer) (q : QueryType) → (handle_query peer q).sent ≡ none
  unfolding handle_query
  query_silent peer q = ground arith

  line_lem :
      (peer : Peer) (text : Text) (cmd : Command)
      → ((handle_line casing net peer text).sent ≡ some cmd) ↔ (
          (parse_command casing (trim text) ≡ some (action cmd))
          × (is_privileged_command cmd && not (is_localhost peer.ip) ≡ false)
          × (peer.channel_open ≡ true))
  unfolding handle_line handle_action
  line_lem peer text cmd = elim (Option-cases (parse_command casing (trim text))) [
    | inl e ↦ ground (arith, e)
    | inr (action c, e) ↦ ground (arith, e)
    | inr (query q, e) ↦ ground (arith, e, query_silent peer q)
  ]

  -- A connection sends a command to the state machine exactly if its address is allowed, its line
  -- parses to that command, the channel is open, and the command is not privileged or the address is
  -- loopback.
  pub handle_connection-sent_iff :
      (peer : Peer) (control_from : List Text) (text : Text) (cmd : Command)
      → peer.read ≡ line text
      → ((handle_connection casing net peer control_from).sent ≡ some cmd) ↔ (
          (is_allowed net peer.ip control_from ≡ true)
          × (parse_command casing (trim text) ≡ some (action cmd))
          × (is_privileged_command cmd && not (is_localhost peer.ip) ≡ false)
          × (peer.channel_open ≡ true))
  unfolding handle_connection
  handle_connection-sent_iff peer control_from text cmd r =
      ground (arith, r, line_lem peer text cmd)

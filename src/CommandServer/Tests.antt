-- ===== src/CommandServer/Tests.antt =====
-- The command server at concrete inputs.
use ibctl.Base.{◌≡◌, ◌↔◌, refl, true, false, not, ◌&&◌, some, [], ◌∷◌, map, ◌^◌, ◌+◌, ◌*◌, arith}
use ibctl.Base.Text.{codes, trim}
use ibctl.Base.Words.{Casing, ascii_upper, ascii_lower}
use ibctl.Machine.Command.{ib_status, stop}
use ibctl.CommandServer.{action, parse_command}
use ibctl.CommandServer.Address.{v4, Net, is_localhost, is_allowed, cidr_contains}
use ibctl.CommandServer.Blocks.{ipv4, SharesPrefix, cidr_contains_iff}
use ibctl.CommandServer.Connection.{Peer, line, answered, handle_connection, is_privileged_command}
use ibctl.CommandServer.Safety.{handle_connection-sent_iff}

abbrev ascii : Casing
ascii = record { to_uppercase = map ascii_upper; to_lowercase = map ascii_lower }

-- Only 10.0.0.0 and one address in it are known.
abbrev net : Net
net = record { to_string = λ a. codes "10.0.0.7"; parse = λ t. some (v4 (10 * 2 ^ 24)) }

abbrev neighbour : Peer
neighbour = record {
  ip = v4 (10 * 2 ^ 24 + 7);
  read = line (codes "  stop ");
  channel_open = true;
  snapshot = record {
    version = 4;
    status_json = codes "{}";
    state_json = codes "{}";
    config_json = codes "{}";
  };
  answer = λ q. answered (codes "[]");
  changes = [];
}

-- The verb is read up to any white space, the status up to a space: a tab leaves the default.
tab_default :
    parse_command ascii (codes "IBSTATUS\tunavailable")
    ≡ some (action (ib_status (codes "available") []))
unfolding parse_command
tab_default = refl

handle_connection-sent_example :
    ((handle_connection ascii net neighbour (codes "10.0.0.0/8" ∷ [])).sent ≡ some stop) ↔ (
      (is_allowed net neighbour.ip (codes "10.0.0.0/8" ∷ []) ≡ true)
      × (parse_command ascii (trim (codes "  stop ")) ≡ some (action stop))
      × (is_privileged_command stop && not (is_localhost neighbour.ip) ≡ false)
      × (neighbour.channel_open ≡ true))
handle_connection-sent_example =
    handle_connection-sent_iff ascii net neighbour (codes "10.0.0.0/8" ∷ []) (codes "  stop ") stop
      refl

neighbour_stops : (handle_connection ascii net neighbour (codes "10.0.0.0/8" ∷ [])).sent ≡ some stop
unfolding handle_connection
neighbour_stops = refl

cidr_contains_example :
    (cidr_contains (v4 (10 * 2 ^ 24)) 8 (v4 (10 * 2 ^ 24 + 7)) ≡ true)
    ↔ SharesPrefix 32 (10 * 2 ^ 24) 8 (10 * 2 ^ 24 + 7)
cidr_contains_example =
    cidr_contains_iff ipv4 (10 * 2 ^ 24) 8 (10 * 2 ^ 24 + 7) (omega arith) (omega arith)

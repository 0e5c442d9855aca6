-- ===== src/CommandServer/Address.antt =====
-- Who may connect: `is_allowed`, `is_localhost` and `cidr_contains` of ibctl/src/command_server.rs.
-- An address is its number. The texts of addresses are std's, the parameter `Net`.
use Prim.Native.Nat.{bit_and}
use ibctl.Base.{
  ℕ, ◌-◌, ◌*◌, ◌/◌, ◌%◌, ◌^◌, Bool, true, false, ◌&&◌, ◌||◌, Option, none, some, List, ◌==◌, ltb,
  if◌then◌else◌, any,
}
use ibctl.Base.Text.{Text, codes, text_eq, trim}
use ibctl.Base.Decimal.{parse_u32}
use ibctl.Base.Words.{split_once}

pub data IpAddr : Type 0 where
  v4 v6 : ℕ → IpAddr

pub record Net : Type 0 where
  pub to_string : IpAddr → Text
  pub parse : Text → Option IpAddr

-- `is_loopback` of std: 127.0.0.0/8, and ::1.
unfoldable pub is_localhost : IpAddr → Bool
is_localhost (v4 n) = n / 2 ^ 24 == 127
is_localhost (v6 n) = n == 1

-- `MAX.checked_shl(width - prefix_len)`, whose shift is below the width here.
abbrev pub mask : ℕ → ℕ → ℕ
mask width prefix_len = (2 ^ width - 1) * 2 ^ (width - prefix_len) % 2 ^ width

abbrev pub prefix_matches : ℕ → ℕ → ℕ → ℕ → Bool
prefix_matches width net prefix_len ip =
    if ltb width prefix_len
    then false
    else if prefix_len == 0
    then true
    else bit_and net (mask width prefix_len) == bit_and ip (mask width prefix_len)

unfoldable pub cidr_contains : IpAddr → ℕ → IpAddr → Bool
cidr_contains (v4 net) prefix_len (v4 ip) = prefix_matches 32 net prefix_len ip
cidr_contains (v6 net) prefix_len (v6 ip) = prefix_matches 128 net prefix_len ip
cidr_contains (v4 net) prefix_len (v6 ip) = false
cidr_contains (v6 net) prefix_len (v4 ip) = false

abbrev in_network : IpAddr → Option IpAddr → Option ℕ → Bool
in_network addr (some network) (some prefix_len) = cidr_contains network prefix_len addr
in_network addr _ _ = false

abbrev in_block : Net → IpAddr → Option (Text × Text) → Bool
in_block net addr none = false
in_block net addr (some (network_str, prefix_str)) =
    in_network addr (net.parse network_str) (parse_u32 prefix_str)

-- One entry of the list.
unfoldable pub admits : Net → IpAddr → Text → Bool
unfolding text_eq trim split_once parse_u32 cidr_contains
admits net addr entry =
    let allowed = trim entry in
    let addr_str = net.to_string addr in
    text_eq allowed (codes "*")
    || text_eq allowed addr_str
    || in_block net addr (split_once b'/' allowed)
    || (text_eq allowed (codes "127.0.0.1") && text_eq addr_str (codes "::1"))
    || (text_eq allowed (codes "::1") && text_eq addr_str (codes "127.0.0.1"))

unfoldable pub is_allowed : Net → IpAddr → List Text → Bool
unfolding admits
is_allowed net addr control_from = any (admits net addr) control_from

-- ===== src/CommandServer.antt =====
-- `parse_command` of ibctl/src/command_server.rs: the commands of the line protocol. Unicode's case
-- tables are the parameter `Casing`.
pub mod Address
pub mod Blocks
pub mod Connection
pub mod Parsing
pub mod Safety
mod Tests
use ibctl.Base.{
  ℕ, Bool, true, false, not, ◌||◌, Option, none, some, List, [], ◌∷◌, ◌==◌, if◌then◌else◌, ◌>>=◌,
  get_elem?, take, filter_by,
}
use ibctl.Base.Text.{Text, codes, text_eq, trim}
use ibctl.Base.Decimal.{parse_u64}
use ibctl.Base.Words.{Casing, is_control, split_whitespace, splitn, trim_matches}
use ibctl.Machine.Command.{
  Command, stop, start, restart, reconnect_data, reconnect_account, enable_api, exit, restart_socat,
  pause, resume, save_settings, hitl_resume, pause_at, set_state, set_restart_time,
  resume_reconnect, ib_status,
}

pub data QueryType : Type 0 where
  status state config windows subscribe : QueryType
  logs : ℕ → QueryType

pub data ParsedCommand : Type 0 where
  action : Command → ParsedCommand
  query : QueryType → ParsedCommand

abbrev pub get_or : {A : Type 0} → A → Option A → A
get_or a none = a
get_or a (some b) = b

-- The argument after the first word or space, and no command if it is empty.
abbrev pub required : (Text → Command) → Text → Option ParsedCommand
required command [] = none
required command (c ∷ cs) = some (action (command (c ∷ cs)))

unfoldable pub is_status : Text → Bool
unfolding text_eq
is_status s =
    text_eq s (codes "available")
    || text_eq s (codes "unavailable")
    || text_eq s (codes "maintenance")
    || text_eq s (codes "degraded")

abbrev pub not_control : ℕ → Bool
not_control c = not (is_control c)

-- Control characters are dropped, and 256 characters are kept.
unfoldable pub clean_reason : Text → Text
unfolding trim_matches
clean_reason raw = take 256 (filter_by not_control (trim_matches (λ c. c == b'"') raw))

unfoldable pub parse_pause : Text → ParsedCommand
unfolding split_whitespace
parse_pause trimmed = elim (get_elem? (split_whitespace trimmed) 1) [
  | none ↦ action pause
  | some state_name ↦ action (pause_at state_name)
]

unfoldable pub parse_ib_status : Text → Option ParsedCommand
unfolding splitn is_status clean_reason
parse_ib_status trimmed =
    let orig_parts = splitn 3 32 trimmed in
    let status = get_or (codes "available") (get_elem? orig_parts 1) in
    if is_status status
    then some (action (ib_status status (clean_reason (get_or [] (get_elem? orig_parts 2)))))
    else none

unfoldable pub parse_logs : List Text → ParsedCommand
unfolding parse_u64
parse_logs parts = query (logs (get_or 100 (get_elem? parts 1 >>= parse_u64)))

-- The first word in capitals, with the trimmed line and its words in capitals.
unfoldable pub parse_verb : Text → Text → List Text → Option ParsedCommand
unfolding text_eq parse_pause parse_ib_status parse_logs split_whitespace splitn trim
parse_verb verb trimmed parts =
    if text_eq verb (codes "STOP")
    then some (action stop)
    else if text_eq verb (codes "START")
    then some (action start)
    else if text_eq verb (codes "RESTART")
    then some (action restart)
    else if text_eq verb (codes "RECONNECTDATA")
    then some (action reconnect_data)
    else if text_eq verb (codes "RECONNECTACCOUNT")
    then some (action reconnect_account)
    else if text_eq verb (codes "ENABLEAPI")
    then some (action enable_api)
    else if text_eq verb (codes "EXIT")
    then some (action exit)
    else if text_eq verb (codes "RESTARTSOCAT")
    then some (action restart_socat)
    else if text_eq verb (codes "SAVESETTINGS") || text_eq verb (codes "SAVETWSSETTINGS")
    then some (action save_settings)
    else if text_eq verb (codes "PAUSE")
    then some (parse_pause trimmed)
    else if text_eq verb (codes "RESUME")
    then some (action resume)
    else if text_eq verb (codes "HITL_RESUME")
    then some (action hitl_resume)
    else if text_eq verb (codes "RESUME_RECONNECT")
    then required resume_reconnect (trim (get_or [] (get_elem? (splitn 2 32 trimmed) 1)))
    else if text_eq verb (codes "SETSTATE")
    then required set_state (get_or [] (get_elem? (split_whitespace trimmed) 1))
    else if text_eq verb (codes "IBSTATUS")
    then parse_ib_status trimmed
    else if text_eq verb (codes "SETRESTART")
    then required set_restart_time (trim (get_or [] (get_elem? (splitn 2 32 trimmed) 1)))
    else if text_eq verb (codes "STATUS")
    then some (query status)
    else if text_eq verb (codes "STATE")
    then some (query state)
    else if text_eq verb (codes "CONFIG")
    then some (query config)
    else if text_eq verb (codes "LOGS")
    then some (parse_logs parts)
    else if text_eq verb (codes "WINDOWS")
    then some (query windows)
    else if text_eq verb (codes "SUBSCRIBE")
    then some (query subscribe)
    else none

unfoldable pub parse_command : Casing → Text → Option ParsedCommand
unfolding parse_verb split_whitespace trim
parse_command casing input =
    let trimmed = trim input in
    let parts = split_whitespace (casing.to_uppercase trimmed) in
    elim parts [ [] ↦ none | verb ∷ rest ↦ parse_verb verb trimmed (verb ∷ rest) ]

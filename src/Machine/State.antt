-- ===== src/Machine/State.antt =====
-- `State` of ibctl/src/state_machine/types.rs with its names, and `client_advisory`.
pub mod Names
pub mod Advisory
use ibctl.Base.{ℕ, Bool, true, false, Option, none, some, List, [], ◌∷◌, ◌++◌, ◌==◌, if◌then◌else◌}
use ibctl.Base.Text.{Text, codes, text_eq}

pub data State : Type 0 where
  waiting_for_launch init launching waiting_for_agent waiting_for_login authenticating : State
  waiting_for2fa handling_session_conflict dismissing_popups waiting_for_api_ready : State
  configuring_api connected reconnecting_session restarting waiting_for_ib : State
  waiting_for_hitl2fa shutdown : State
  error : Text → State

-- The derived `==`: the number of the variant, and the message of an error.
abbrev pub variant : State → ℕ
variant waiting_for_launch = 0
variant init = 1
variant launching = 2
variant waiting_for_agent = 3
variant waiting_for_login = 4
variant authenticating = 5
variant waiting_for2fa = 6
variant handling_session_conflict = 7
variant dismissing_popups = 8
variant waiting_for_api_ready = 9
variant configuring_api = 10
variant connected = 11
variant reconnecting_session = 12
variant restarting = 13
variant waiting_for_ib = 14
variant waiting_for_hitl2fa = 15
variant shutdown = 16
variant (error _) = 17

abbrev pub message : State → Text
message (error msg) = msg
message _ = []

unfoldable pub state_eq : State → State → Bool
state_eq a b = if variant a == variant b then text_eq (message a) (message b) else false

unfoldable pub is_credential_gathering : State → Bool
is_credential_gathering waiting_for_login = true
is_credential_gathering authenticating = true
is_credential_gathering waiting_for2fa = true
is_credential_gathering waiting_for_hitl2fa = true
is_credential_gathering dismissing_popups = true
is_credential_gathering waiting_for_api_ready = true
is_credential_gathering configuring_api = true
is_credential_gathering restarting = true
is_credential_gathering launching = true
is_credential_gathering _ = false

-- The first entry whose name is the text.
abbrev pub lookup : Text → List (Text × State) → Option State
lookup name [] = none
lookup name ((key, state) ∷ rest) = if text_eq name key then some state else lookup name rest

abbrev pub names : List (Text × State)
names =
    (codes "WaitingForLaunch", waiting_for_launch)
    ∷ (codes "Init", init)
    ∷ (codes "Launching", launching)
    ∷ (codes "WaitingForAgent", waiting_for_agent)
    ∷ (codes "WaitingForLogin", waiting_for_login)
    ∷ (codes "Authenticating", authenticating)
    ∷ (codes "WaitingFor2fa", waiting_for2fa)
    ∷ (codes "HandlingSessionConflict", handling_session_conflict)
    ∷ (codes "DismissingPopups", dismissing_popups)
    ∷ (codes "WaitingForApiReady", waiting_for_api_ready)
    ∷ (codes "ConfiguringApi", configuring_api)
    ∷ (codes "Connected", connected)
    ∷ (codes "ReconnectingSession", reconnecting_session)
    ∷ (codes "Restarting", restarting)
    ∷ (codes "WaitingForIB", waiting_for_ib)
    ∷ (codes "WaitingForHitl2fa", waiting_for_hitl2fa)
    ∷ (codes "Shutdown", shutdown)
    ∷ []

unfoldable pub from_name : Text → Option State
unfolding text_eq
from_name name = lookup name names

-- `Display`: the variant's name, with the message of an error.
unfoldable pub display : State → Text
display waiting_for_launch = codes "WaitingForLaunch"
display init = codes "Init"
display launching = codes "Launching"
display waiting_for_agent = codes "WaitingForAgent"
display waiting_for_login = codes "WaitingForLogin"
display authenticating = codes "Authenticating"
display waiting_for2fa = codes "WaitingFor2fa"
display handling_session_conflict = codes "HandlingSessionConflict"
display dismissing_popups = codes "DismissingPopups"
display waiting_for_api_ready = codes "WaitingForApiReady"
display configuring_api = codes "ConfiguringApi"
display connected = codes "Connected"
display reconnecting_session = codes "ReconnectingSession"
display restarting = codes "Restarting"
display waiting_for_ib = codes "WaitingForIB"
display waiting_for_hitl2fa = codes "WaitingForHitl2fa"
display shutdown = codes "Shutdown"
display (error msg) = codes "Error(" ++ (msg ++ codes ")")

-- What a client is told: (should_connect, should_wait, wait_reason, client_id_likely_stale).
abbrev advice : State → Bool × Bool × Option Text
advice waiting_for_launch = (false, false, some (codes "standby"))
advice init = (false, true, some (codes "launching"))
advice launching = (false, true, some (codes "launching"))
advice waiting_for_agent = (false, true, some (codes "launching"))
advice waiting_for_login = (false, true, some (codes "logging_in"))
advice authenticating = (false, true, some (codes "logging_in"))
advice waiting_for2fa = (false, true, some (codes "2fa_pending"))
advice handling_session_conflict = (false, true, some (codes "session_conflict"))
advice dismissing_popups = (false, true, some (codes "configuring"))
advice waiting_for_api_ready = (false, true, some (codes "configuring"))
advice configuring_api = (false, true, some (codes "configuring"))
advice connected = (true, false, none)
advice reconnecting_session = (false, true, some (codes "reconnecting"))
advice restarting = (false, true, some (codes "restarting"))
advice waiting_for_ib = (false, true, some (codes "ib_maintenance"))
advice waiting_for_hitl2fa = (false, true, some (codes "awaiting_operator"))
advice shutdown = (false, false, none)
advice (error _) = (false, false, none)

unfoldable pub client_advisory : State → Bool × Bool × Option Text × Bool
unfolding state_eq
client_advisory s =
    let (should_connect, should_wait, wait_reason) = advice s in
    (should_connect, should_wait, wait_reason, state_eq s restarting)

-- ===== src/Dialogs.antt =====
-- The dialog handlers of ibctl/src/handlers: what they work with. A call of ibctl/src/agent_client.rs
-- that concerns a window is a Request; the agent answers each by what it was asked before, so the
-- log of requests, its newest first, stands for the state of the screen.
pub mod Login
pub mod TotpEntry
pub mod Notices
pub mod Compat
pub mod Registry
pub mod ApiConfig
pub mod Commands
pub mod Keeps
mod Orders
mod Manual
mod Tests
use ibctl.Base.{ℕ, Bool, true, false, Option, none, some, List, [], ◌∷◌, if◌then◌else◌}
use ibctl.Base.Text.{Text, codes}
use ibctl.Base.Int.{ℤ}
use ibctl.Machine.Json.{Json}
use ibctl.Machine.Handlers.{WindowInfo, Dispatched, failed, reported, handled}

pub data Request : Type 0 where
  windows_listed : Request
  dumped captured : ℕ → Request
  clicked menu_clicked node_selected typed_best key_sent : ℕ → Text → Request
  typed : ℕ → ℕ → Text → Request
  typed_by_label chosen : ℕ → Text → Text → Request
  checked : ℕ → Text → Bool → Request
  clicked_at : ℕ → ℤ → ℤ → Request

-- The answers after a log; none is an error. A checkbox request is answered by `found`, and a
-- screenshot by true.
pub record AgentClient : Type 0 where
  pub agrees : List Request → Request → Option Bool
  pub lists : List Request → Option (List WindowInfo)
  pub dumps : List Request → ℕ → Option Json

-- What the handlers change: the agent's screen and the flag of the login handler.
pub record Desk : Type 0 where
  pub log : List Request
  pub login_submitted : Bool

abbrev pub Act : Type 0 → Type 0
Act A = Desk → A × Desk

abbrev pub pure : {A : Type 0} → A → Act A
pure a d = (a, d)

infixl 5 ◌>>=◌ ◌>>◌
unfoldable pub ◌>>=◌ : {A B : Type 0} → Act A → (A → Act B) → Act B
◌>>=◌ m f d = let (a, d') = m d in f a d'

abbrev pub ◌>>◌ : {A B : Type 0} → Act A → Act B → Act B
m >> k = m >>= λ _. k

abbrev pub noted : Request → Desk → Desk
noted r d = record d { log = r ∷ d.log }

unfoldable pub ask : AgentClient → Request → Act (Option Bool)
ask client r d = (client.agrees d.log r, noted r d)

unfoldable pub list_windows : AgentClient → Act (Option (List WindowInfo))
list_windows client d = (client.lists d.log, noted windows_listed d)

unfoldable pub dump_components : AgentClient → ℕ → Act (Option Json)
dump_components client id d = (client.dumps d.log id, noted (dumped id) d)

unfoldable pub submitted : Bool → Act (Unit {0})
submitted b d = (tt, record d { login_submitted = b })

-- `Ok(true)`
abbrev pub agreed : Option Bool → Bool
agreed (some true) = true
agreed _ = false

-- The buttons in order until one was clicked; whether one was.
unfoldable pub click_first : AgentClient → ℕ → List Text → Act Bool
unfolding ask ◌>>=◌
click_first client id [] = pure false
click_first client id (label ∷ labels) =
    let rest = click_first client id labels in
    ask client (clicked id label) >>= λ a. if agreed a then pure true else rest

-- The handlers that report a dialog without a button that they know.
abbrev pub handled_or : Text → Bool → Dispatched
handled_or message true = handled
handled_or message false = reported message

-- The `?` on a request, and a field that does not take the text.
abbrev pub typed_or : Text → Act Dispatched → Option Bool → Act Dispatched
typed_or message next none = pure failed
typed_or message next (some false) = pure (reported message)
typed_or message next (some true) = next

pub record DialogHandler : Type 0 where
  pub name : Text
  pub can_handle : Bool → Text → WindowInfo → Bool  -- the flag, the title in lower case, the window
  pub handle : AgentClient → WindowInfo → Act Dispatched

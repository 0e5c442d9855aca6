-- ===== src/Machine/Handlers.antt =====
-- What the state handlers of ibctl/src/state_machine/mod.rs work with: the agent's and the
-- supervisor's answers in one step, the configuration, and the blocking dialogs. The clock is read
-- once for a step.
pub mod Login
pub mod Popups
pub mod Recover
pub mod Hitl
pub mod Connected
pub mod Confirmed
pub mod Schedule
pub mod Restarts
pub mod Start
pub mod Steady
pub mod Transition
pub mod TwoFactor
use ibctl.Base.{
  ℕ, ◌-◌, ◌*◌, ◌^◌, Bool, true, false, not, ◌&&◌, ◌||◌, Option, none, some, List, [], ◌∷◌, ltb,
  find, any, if◌then◌else◌,
}
use ibctl.Base.Text.{Text, codes}
use ibctl.Base.Words.{Casing, contains, contains_any}
use ibctl.Machine.State.{State, reconnecting_session, waiting_for2fa}
use ibctl.Machine.Lifecycle.{StateMachine}
use ibctl.Machine.Events.{Effect, EventBounds, is_twofa_title, is_conflict_title}
use ibctl.Machine.Json.{Json}

pub record WindowInfo : Type 0 where
  pub id : ℕ
  pub title : Text
  pub class : Text
  pub bounds : Option EventBounds

-- `Option<Result<HandlerResult, _>>`
pub data Dispatched : Type 0 where
  unmatched failed handled not_applicable : Dispatched
  reported : Text → Dispatched

-- The answers in one step. `list_windows n` answers the call with that number, as does
-- `dump_components n`, for a window's id.
pub record Agent : Type 0 where
  pub is_running : Bool
  pub health : Option Bool
  pub list_windows : ℕ → Option (List WindowInfo)
  pub dump_components : ℕ → ℕ → Option Json
  pub dispatch_named : Text → ℕ → Dispatched
  pub dispatch : ℕ → Dispatched
  pub select_list_item : ℕ → Text → Option Bool
  pub launch : Option Text → Bool
  pub apply_api_config : Bool
  pub cold_restart_signal : Bool
  pub find_autorestart_path : Option Text
  pub socat_exited : Bool  -- whether the process that is kept has ended
  pub socat_spawns : Bool

pub data TwoFaOnTimeout : Type 0 where
  restart_forever hitl_immediately restart_then_hitl : TwoFaOnTimeout

pub data HitlStrategy : Type 0 where
  disabled periodic ntfy_callback both : HitlStrategy

pub data ReloginFailureAction : Type 0 where
  restart reauth : ReloginFailureAction

-- The configuration that the handlers read.
pub record Settings : Type 0 where
  pub tws_path_exists : Bool
  pub tws_path : Text
  pub login_dialog_timeout_secs : ℕ
  pub device : Text
  pub has_secret : Bool
  pub timeout_seconds : ℕ
  pub relogin_after_timeout : Bool
  pub exits_on_timeout : Bool
  pub on_timeout : TwoFaOnTimeout
  pub max_immediate_attempts : ℕ
  pub api_disconnected_grace_secs : ℕ
  pub relogin_max_attempts : ℕ
  pub relogin_failure_action : ReloginFailureAction
  pub restart_delay_secs : ℕ
  pub exit_threshold : ℕ
  pub strategy : HitlStrategy
  pub intervals_minutes : List ℕ
  pub cold_restart_preempts_hitl : Bool
  pub resets_when_stable : Bool  -- `counter_reset` is `stable`
  pub stable_secs : ℕ
  pub min_success_dwell_secs : ℕ

-- The machine after a step, the state returned (none for an error), and what was asked for.
pub record Tick (Zoned : Type 0) : Type 0 where
  pub machine : StateMachine Zoned
  pub next : Option State
  pub effects : List Effect

abbrev pub secs : ℕ → ℕ
secs n = n * 10 ^ 9

module _ {Zoned : Type 0} where
  abbrev pub goes : StateMachine Zoned → State → Tick Zoned
  goes m s = record { machine = m; next = some s; effects = [] }

  abbrev pub fails : StateMachine Zoned → Tick Zoned
  fails m = record { machine = m; next = none; effects = [] }

  abbrev pub doing : List Effect → Tick Zoned → Tick Zoned
  doing effects t = record t { effects = effects }

  -- `state_entered_at.elapsed() > secs(n)`
  abbrev pub entered_over : ℕ → ℕ → StateMachine Zoned → Bool
  entered_over now n m = ltb (secs n) (now - m.state_entered_at)

module _ (casing : Casing) where
  abbrev pub is_gateway_title : Text → Bool
  is_gateway_title title =
      contains_any (casing.to_lowercase title) (codes "ib gateway" ∷ codes "ibkr gateway" ∷ [])

  abbrev pub is_relogin_title : Text → Bool
  is_relogin_title title =
      contains_any (casing.to_lowercase title)
        (codes "re-login" ∷ codes "relogin" ∷ codes "login is required" ∷ [])

  unfoldable pub classify_blocking_dialog : Text → Option State
  unfolding contains is_twofa_title
  classify_blocking_dialog title =
      if is_relogin_title title
      then some reconnecting_session
      else if is_twofa_title casing title
      then some waiting_for2fa
      else none

  -- The first window that is one.
  unfoldable pub blocking_dialog : List WindowInfo → Option State
  unfolding classify_blocking_dialog
  blocking_dialog [] = none
  blocking_dialog (w ∷ ws) =
      let later = blocking_dialog ws in
      elim (classify_blocking_dialog w.title) [
        | none ↦ later
        | some state ↦ some (if is_relogin_title w.title then reconnecting_session else state)
      ]

  unfoldable pub check_blocking_dialog : Option (List WindowInfo) → Option State
  unfolding blocking_dialog
  check_blocking_dialog none = none
  check_blocking_dialog (some windows) = blocking_dialog windows

  abbrev pub gateway_window : List WindowInfo → Option WindowInfo
  gateway_window windows = find (λ w. is_gateway_title w.title) windows

  abbrev pub conflict_window : List WindowInfo → Option WindowInfo
  conflict_window windows = find (λ w. is_conflict_title casing w.title) windows

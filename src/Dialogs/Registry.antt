-- ===== src/Dialogs/Registry.antt =====
-- ibctl/src/handlers/mod.rs: the handlers in their order, and the dispatch of a window to them.
use ibctl.Base.{false, Option, none, some, List, [], ◌∷◌, find, if◌then◌else◌}
use ibctl.Base.Text.{Text, text_eq}
use ibctl.Base.Words.{Casing}
use ibctl.Config.{Environment}
use ibctl.Machine.Handlers.{WindowInfo, Dispatched, unmatched, not_applicable}
use ibctl.Config.Data.{Config}
use ibctl.Dialogs.{AgentClient, Act, DialogHandler, pure, ◌>>=◌, submitted}
use ibctl.Dialogs.Login.{login_handler}
use ibctl.Dialogs.TotpEntry.{Ocr, totp_entry_handler}
use ibctl.Dialogs.Compat.{compat_handler, policy_from_env}
use ibctl.Dialogs.Notices.{
  session_conflict_handler, relogin_handler, ssl_reconnect_handler, tip_of_day_handler,
  accept_connection_handler, paper_warning_handler, version_notice_handler,
  gateway_notification_handler,
}

-- What the program does not implement, and the environment.
pub record Outside : Type 0 where
  pub casing : Casing
  pub ocr : Ocr
  pub env : Environment
  pub generate : Text → Option Text

unfoldable pub with_defaults : Outside → Config → List DialogHandler
with_defaults out cfg =
    login_handler cfg.auth.username cfg.auth.password cfg.auth.trading_mode
    ∷ totp_entry_handler out.casing out.ocr out.env out.generate cfg.twofa.secret_env
    ∷ session_conflict_handler cfg.session.action
    ∷ relogin_handler
    ∷ ssl_reconnect_handler
    ∷ tip_of_day_handler
    ∷ compat_handler out.casing (policy_from_env out.env)
    ∷ accept_connection_handler cfg.session.accept_incoming
    ∷ paper_warning_handler
    ∷ version_notice_handler
    ∷ gateway_notification_handler
    ∷ []

-- Only the login handler has something to forget.
unfoldable pub reset : Act (Unit {0})
unfolding submitted
reset = submitted false

abbrev pub unless_declined : Act Dispatched → Dispatched → Act Dispatched
unless_declined next not_applicable = next
unless_declined next result = pure result

module _ (casing : Casing) (client : AgentClient) (w : WindowInfo) where
  -- The first handler that can handle the window and does not decline it.
  unfoldable pub dispatch : List DialogHandler → Act Dispatched
  unfolding ◌>>=◌
  dispatch [] d = pure unmatched d
  dispatch (h ∷ hs) d =
      let rest = dispatch hs in
      (if h.can_handle d.login_submitted (casing.to_lowercase w.title) w
          then h.handle client w >>= unless_declined rest
          else rest)
        d

unfoldable pub dispatch_named :
    Text → AgentClient → WindowInfo → List DialogHandler → Act Dispatched
unfolding text_eq
dispatch_named name client w handlers = elim (find (λ h. text_eq h.name name) handlers) [
  | none ↦ pure unmatched
  | some h ↦ h.handle client w
]

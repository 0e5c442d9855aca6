-- ===== src/Dialogs/Notices.antt =====
-- The handlers that answer one kind of notice: ibctl/src/handlers/session_conflict.rs, relogin.rs,
-- ssl_reconnect.rs, tip_of_day.rs, accept_connection.rs, paper_warning.rs, version_notice.rs and
-- gateway_notification.rs.
use ibctl.Base.{
  ℕ, Bool, true, false, not, ◌&&◌, ◌||◌, Option, none, some, List, [], ◌∷◌, ltb, is_some,
  if◌then◌else◌,
}
use ibctl.Base.Int.{ℤ, pos, negsuc}
use ibctl.Base.Text.{Text, codes}
use ibctl.Base.Words.{contains, contains_any}
use ibctl.Config.Data.{SessionAction, secondary, AcceptIncoming, accept, reject, manual}
use ibctl.Machine.Events.{EventBounds}
use ibctl.Machine.Handlers.{WindowInfo, Dispatched, failed, handled, not_applicable}
use ibctl.Dialogs.{
  AgentClient, Act, DialogHandler, clicked, key_sent, pure, ◌>>=◌, ◌>>◌, ask, agreed, click_first,
  handled_or,
}

-- The `?` on a request whose answer is not looked at.
abbrev handled_unless : Option Bool → Dispatched
handled_unless none = failed
handled_unless (some _) = handled

abbrev pub session_buttons : SessionAction → List Text
session_buttons secondary = codes "Cancel" ∷ codes "Exit Application" ∷ []
session_buttons _ = codes "Reconnect This Session" ∷ codes "Continue Login" ∷ codes "OK" ∷ []

unfoldable pub handle_conflict : SessionAction → AgentClient → WindowInfo → Act Dispatched
unfolding click_first ◌>>=◌
handle_conflict action client w = do
  found ← click_first client w.id (session_buttons action)
  pure (handled_or (codes "no matching button found") found)

abbrev pub session_conflict_handler : SessionAction → DialogHandler
session_conflict_handler action = record {
  name = codes "SessionConflictHandler";
  can_handle = λ _ title w.
      contains_any title
        (codes "existing session" ∷ codes "session conflict" ∷ codes "another session" ∷ []);
  handle = handle_conflict action;
}

unfoldable pub handle_relogin : AgentClient → WindowInfo → Act Dispatched
unfolding ask ◌>>=◌
handle_relogin client w = do
  a ← ask client (clicked w.id (codes "Cancel"))
  if agreed a then pure handled else (ask client (clicked w.id (codes "OK")) >> pure handled)

abbrev pub relogin_handler : DialogHandler
relogin_handler = record {
  name = codes "ReloginHandler";
  can_handle = λ _ title w.
      contains_any title (codes "re-login" ∷ codes "relogin" ∷ codes "login is required" ∷ []);
  handle = handle_relogin;
}

unfoldable pub handle_ssl : AgentClient → WindowInfo → Act Dispatched
unfolding click_first ◌>>=◌
handle_ssl client w = do
  found ← click_first client w.id (codes "Reconnect using SSL" ∷ codes "OK" ∷ [])
  pure (handled_or (codes "no matching button") found)

abbrev pub ssl_reconnect_handler : DialogHandler
ssl_reconnect_handler = record {
  name = codes "SslReconnectHandler";
  can_handle = λ _ title w. contains_any title (codes "ssl" ∷ codes "encryption" ∷ []);
  handle = handle_ssl;
}

-- A button that is not there is no error.
unfoldable pub handle_tip : AgentClient → WindowInfo → Act Dispatched
unfolding ask ◌>>=◌
handle_tip client w = do
  a ← ask client (clicked w.id (codes "Close"))
  (if is_some a
      then pure handled
      else (ask client (clicked w.id (codes "OK")) >>= λ b. pure (handled_unless b)))

abbrev pub tip_of_day_handler : DialogHandler
tip_of_day_handler = record {
  name = codes "TipOfDayHandler";
  can_handle = λ _ title w. contains_any title (codes "tip of the day" ∷ codes "tips" ∷ []);
  handle = handle_tip;
}

unfoldable pub handle_incoming : AcceptIncoming → AgentClient → WindowInfo → Act Dispatched
unfolding ask ◌>>=◌
handle_incoming reject client w =
    ask client (clicked w.id (codes "Reject")) >>= λ a. pure (handled_unless a)
handle_incoming manual client w = pure not_applicable
handle_incoming accept client w =
    ask client (clicked w.id (codes "Accept")) >>= λ a. pure (handled_unless a)

abbrev pub accept_connection_handler : AcceptIncoming → DialogHandler
accept_connection_handler action = record {
  name = codes "AcceptConnectionHandler";
  can_handle = λ _ title w. contains_any title (
      codes "accept incoming connection"
      ∷ codes "api connection"
      ∷ codes "incoming connection"
      ∷ []);
  handle = handle_incoming action;
}

abbrev pub paper_buttons : List Text
paper_buttons = codes "I understand and accept" ∷ codes "OK" ∷ codes "Yes" ∷ codes "Accept" ∷ []

unfoldable pub handle_paper : AgentClient → WindowInfo → Act Dispatched
unfolding click_first ◌>>=◌
handle_paper client w = do
  found ← click_first client w.id paper_buttons
  pure (handled_or (codes "no matching button found") found)

abbrev pub paper_warning_handler : DialogHandler
paper_warning_handler = record {
  name = codes "PaperWarningHandler";
  can_handle = λ _ title w.
      not (contains title (codes "configuration"))
      && contains_any title (codes "paper trading" ∷ codes "non-brokerage" ∷ codes "warning" ∷ []);
  handle = handle_paper;
}

-- Any answer will do; the Escape key is for errors only.
unfoldable pub click_any : AgentClient → ℕ → List Text → Act Dispatched
unfolding ask ◌>>=◌
click_any client id [] = ask client (key_sent id (codes "Escape")) >>= λ k. pure (handled_unless k)
click_any client id (label ∷ labels) =
    let rest = click_any client id labels in
    ask client (clicked id label) >>= λ a. if is_some a then pure handled else rest

unfoldable pub handle_version : AgentClient → WindowInfo → Act Dispatched
unfolding click_any
handle_version client w = click_any client w.id (codes "OK" ∷ codes "Close" ∷ codes "Dismiss" ∷ [])

abbrev pub version_notice_handler : DialogHandler
version_notice_handler = record {
  name = codes "VersionNoticeHandler";
  can_handle = λ _ title w.
      contains_any title (codes "newer version" ∷ codes "update available" ∷ [])
      || contains title (codes "version")
        && contains_any title (codes "update" ∷ codes "upgrade" ∷ codes "new" ∷ []);
  handle = handle_version;
}

abbrev pub names_gateway : Text → Bool
names_gateway title = contains_any title (codes "ibkr gateway" ∷ codes "ib gateway" ∷ [])

abbrev int_ltb : ℤ → ℕ → Bool
int_ltb (pos n) m = ltb n m
int_ltb (negsuc n) m = true

-- `width < 650 && height < 400`
abbrev pub is_small : Option EventBounds → Bool
is_small none = false
is_small (some b) = int_ltb b.width 650 && int_ltb b.height 400

-- `width >= 650 && height >= 400`
abbrev pub is_large : Option EventBounds → Bool
is_large none = false
is_large (some b) = not (int_ltb b.width 650) && not (int_ltb b.height 400)

abbrev handled_if : Bool → Dispatched
handled_if true = handled
handled_if false = not_applicable

unfoldable pub handle_notification : AgentClient → WindowInfo → Act Dispatched
unfolding click_first ◌>>=◌
handle_notification client w = do
  found ← click_first client w.id (codes "Close" ∷ codes "OK" ∷ [])
  pure (handled_if found)

abbrev pub gateway_notification_handler : DialogHandler
gateway_notification_handler = record {
  name = codes "GatewayNotificationHandler";
  can_handle = λ _ title w. names_gateway title && is_small w.bounds;
  handle = handle_notification;
}

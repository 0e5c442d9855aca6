-- ===== src/Dialogs/Orders.antt =====
-- Orders are only transmitted where the environment says so: ibctl/src/handlers.
pub mod Permits
mod Quiet
use ibctl.Base.{
  ℕ, zero, suc, ◌≡◌, refl, Bool, true, false, not, ◌&&◌, ◌||◌, Option, none, some, List, [], ◌∷◌,
  All, arith, any, is_some, Option-cases, if◌then◌else◌, Bool-cases, inl, inr,
}
use ibctl.Base.Text.{Text, codes}
use ibctl.Base.Words.{Casing, contains, starts_with}
use ibctl.Machine.Json.{Json, optional}
use ibctl.Machine.Handlers.{
  WindowInfo, Dispatched, unmatched, failed, handled, not_applicable, reported,
}
use ibctl.Config.Data.{
  SessionAction, primary, primary_override, secondary, AcceptIncoming, accept, reject, TradingMode,
  live, paper, both,
}
use ibctl.Dialogs.{
  Request, AgentClient, Desk, Act, DialogHandler, clicked, dumped, pure, ◌>>=◌, ask,
  dump_components, click_first, handled_or,
}
use ibctl.Dialogs.Keeps.{
  Keeps, keeps_rules, Keeps-pure, Keeps-bind, Keeps-if, Keeps-ask, Keeps-dump_components,
  Keeps-click_first, Keeps-typed_or, Keeps-submitted,
}
use ibctl.Dialogs.Notices.{
  handle_conflict, handle_relogin, handle_ssl, handle_tip, handle_incoming, handle_paper, click_any,
  handle_version, handle_notification,
}
use ibctl.Dialogs.Login.{verify_mode, has_button, finish, handle_login}
use ibctl.Config.{Environment}
use ibctl.Dialogs.TotpEntry.{
  Ocr, OcrMode, Verdict, skipped, read_screenshot, captures, verify_window_contains_any,
  submit_entry, enter_code, strict_verification, stops, unless_stopped, proceed, handle_totp,
}
use ibctl.Config.Data.{Config}
use ibctl.Dialogs.Registry.{Outside, with_defaults, dispatch, unless_declined}
use ibctl.Dialogs.Compat.{
  policy_from_env, dialog_text_blob, or_null, CryptoOrderDecision, DialogPolicy, DialogAction,
  manual, transmit, cancel, classify_access, crypto_action, classify_order, classify_notice,
  classify_lower, classify_window, act_on, handle_compat,
}
use ibctl.Dialogs.Orders.Permits.{IsPermitted, permits, offers, offers-classify_window}
use ibctl.Dialogs.Orders.Quiet.{
  permitted_labels, dump_muted, Keeps-handle_conflict, Keeps-handle_incoming, Keeps-handle_login,
  Keeps-handle_notification, Keeps-handle_paper, Keeps-handle_relogin, Keeps-handle_ssl,
  Keeps-handle_tip, Keeps-handle_totp, Keeps-handle_version,
}

Keeps-act_on :
    (policy : DialogPolicy) (title : Text) (client : AgentClient) (id : ℕ) (a : Option DialogAction)
    → (offers a ≡ true → permits policy title ≡ true)
    → Keeps (All (IsPermitted policy title)) (act_on client id a)
Keeps-act_on policy title client id none h = Keeps-pure not_applicable
Keeps-act_on policy title client id (some a) h =
    Keeps-bind (click_first client id a.buttons) _
      (Keeps-click_first client id a.buttons (permitted_labels policy title id a.buttons h))
      (λ b. Keeps-pure (handled_or a.name b))

Keeps-handle_compat :
    (casing : Casing) (policy : DialogPolicy) (client : AgentClient) (w : WindowInfo)
    → Keeps
        (All (IsPermitted policy (casing.to_lowercase w.title)))
        (handle_compat casing policy client w)
unfolding handle_compat
Keeps-handle_compat casing policy client w =
    let title = casing.to_lowercase w.title in
    Keeps-bind (dump_components client w.id) _ (dump_muted policy title client w.id) (λ dump.
      Keeps-act_on policy title client w.id (classify_window casing policy w.title dump)
        (offers-classify_window casing policy w.title dump))

module _ {Q : List Request → Type 0} where
  Keeps-unless_declined :
      (next : Act Dispatched) (result : Dispatched)
      → Keeps Q next
      → Keeps Q (unless_declined next result)
  Keeps-unless_declined next not_applicable k = k
  Keeps-unless_declined next unmatched k = Keeps-pure unmatched
  Keeps-unless_declined next failed k = Keeps-pure failed
  Keeps-unless_declined next handled k = Keeps-pure handled
  Keeps-unless_declined next (reported message) k = Keeps-pure (reported message)

  Keeps-dispatch :
      (casing : Casing) (client : AgentClient) (w : WindowInfo) (handlers : List DialogHandler)
      → All (λ h. Keeps Q (h.handle client w)) handlers
      → Keeps Q (dispatch casing client w handlers)
  unfolding dispatch
  Keeps-dispatch casing client w [] k = record { at = λ d h. h }
  Keeps-dispatch casing client w (h ∷ hs) k =
      let rest = Keeps-dispatch casing client w hs k.1 in
      let tried = Keeps-bind (h.handle client w) _ k.0 (λ r. Keeps-unless_declined _ r rest) in
      record {
        at = λ d logged.
            (Keeps-if (h.can_handle d.login_submitted (casing.to_lowercase w.title) w) _ _ tried
                rest).at
              d logged;
      }

-- Whatever the agent answers, dispatching a window to the handlers clicks a button whose label says
-- Transmit only if the environment lets orders be transmitted: by a decision on cryptocurrency
-- orders, for a window whose title is that of their confirmation, by the bypass of precautions, or
-- by allowing blind trading.
pub dispatch-IsPermitted :
    (out : Outside) (cfg : Config) (client : AgentClient) (w : WindowInfo) (flag : Bool)
    → All
        (IsPermitted (policy_from_env out.env) (out.casing.to_lowercase w.title))
        (dispatch out.casing client w
          (with_defaults out cfg)
          (record { log = []; login_submitted = flag })).1.log
unfolding with_defaults
dispatch-IsPermitted out cfg client w flag =
    let policy = policy_from_env out.env in
    let title = out.casing.to_lowercase w.title in
    let handlers_keep : All (λ h. Keeps (All (IsPermitted policy title)) (h.handle client w))
        (with_defaults out cfg) =
      search
        (
          Keeps-handle_login policy title,
          Keeps-handle_totp policy title,
          Keeps-handle_conflict policy title,
          Keeps-handle_relogin policy title,
          Keeps-handle_ssl policy title,
          Keeps-handle_tip policy title,
          Keeps-handle_compat,
          Keeps-handle_incoming policy title,
          Keeps-handle_paper policy title,
          Keeps-handle_version policy title,
          Keeps-handle_notification policy title,
        )
        depth 20 in
    (Keeps-dispatch out.casing client w (with_defaults out cfg) handlers_keep).at _ tt

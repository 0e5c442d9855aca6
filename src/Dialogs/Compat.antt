-- ===== src/Dialogs/Compat.antt =====
-- ibctl/src/handlers/ibc_compat.rs: dialogs that are known by their title and their texts, and the
-- policy for those that transmit orders.
use ibctl.Base.{
  ℕ, Bool, true, false, not, ◌&&◌, ◌||◌, Option, none, some, List, [], ◌∷◌, map, filter_by,
  if◌then◌else◌,
}
use ibctl.Base.Text.{Text, codes, text_eq, trim}
use ibctl.Base.Words.{Casing, ascii_lower, contains, contains_any, join}
use ibctl.Config.{Environment}
use ibctl.Machine.Json.{Json, null, collect_strings, optional}
use ibctl.Machine.Handlers.{WindowInfo, Dispatched, not_applicable}
use ibctl.Dialogs.{
  AgentClient, Act, DialogHandler, pure, ◌>>=◌, dump_components, click_first, handled_or,
}
use ibctl.Dialogs.Notices.{names_gateway, is_small, is_large}

pub data CryptoOrderDecision : Type 0 where
  manual transmit cancel : CryptoOrderDecision

pub record DialogPolicy : Type 0 where
  pub dismiss_password_expiry : Bool
  pub accept_bid_ask_last_size_update : Bool
  pub crypto_order_decision : CryptoOrderDecision
  pub allow_blind_trading : Bool
  pub bypass_order_precautions : Bool

abbrev is_empty : Text → Bool
is_empty [] = true
is_empty (_ ∷ _) = false

-- A blank text counts as none.
unfoldable env_lower : Environment → Text → Option Text
unfolding trim
env_lower env name =
    optional none
      (λ v. let low = map ascii_lower (trim v) in if is_empty low then none else some low)
      (env name)

unfoldable env_yes : Environment → Text → Bool
unfolding env_lower text_eq
env_yes env name =
    optional false
      (λ v. text_eq v (codes "yes") || text_eq v (codes "true") || text_eq v (codes "1"))
      (env_lower env name)

abbrev crypto_decision : Text → CryptoOrderDecision
crypto_decision v =
    if text_eq v (codes "transmit")
    then transmit
    else if text_eq v (codes "cancel")
    then cancel
    else manual

unfoldable pub policy_from_env : Environment → DialogPolicy
unfolding env_lower env_yes text_eq
policy_from_env env = record {
  dismiss_password_expiry = env_yes env (codes "DISMISS_PASSWORD_EXPIRY_WARNING");
  accept_bid_ask_last_size_update =
      optional false (λ v. text_eq v (codes "accept") || text_eq v (codes "defer"))
        (env_lower env (codes "ACCEPT_BID_ASK_LAST_SIZE_DISPLAY_UPDATE_NOTIFICATION"));
  crypto_order_decision =
      optional manual crypto_decision (env_lower env (codes "CONFIRM_CRYPTO_CURRENCY_ORDERS"));
  allow_blind_trading = env_yes env (codes "ALLOW_BLIND_TRADING");
  bypass_order_precautions =
      env_yes env (codes "BYPASS_WARNING") || env_yes env (codes "BYPASS_ORDER_PRECAUTIONS");
}

-- `DialogPolicy::default`
abbrev pub default_policy : DialogPolicy
default_policy = record {
  dismiss_password_expiry = false;
  accept_bid_ask_last_size_update = false;
  crypto_order_decision = manual;
  allow_blind_trading = false;
  bypass_order_precautions = false;
}

-- The name of the dialog and its buttons, in the order in which they are tried.
pub record DialogAction : Type 0 where
  pub name : Text
  pub buttons : List Text

abbrev pub action : Text → List Text → Option DialogAction
action name buttons = some (record { name = name; buttons = buttons })

abbrev pub crypto_action : CryptoOrderDecision → Option DialogAction
crypto_action transmit =
    action (codes "CryptoOrderConfirmationDialogHandler") (codes "Transmit" ∷ [])
crypto_action cancel = action (codes "CryptoOrderConfirmationDialogHandler") (codes "Cancel" ∷ [])
crypto_action manual = none

-- The tests after those for orders.
unfoldable pub classify_access : Text → Text → Option DialogAction
unfolding contains
classify_access title text =
    if contains title (codes "api client needs write access")
      || contains text (codes "api write access")
      || contains text (codes "read-only api")
    then action (codes "ReadOnlyApiWarningDialog") (codes "Yes" ∷ codes "OK" ∷ codes "Close" ∷ [])
    else if contains text (codes "login handoff") || contains text (codes "trading login handoff")
    then action (codes "TradingLoginHandoffDialogHandler") (codes "OK" ∷ [])
    else none

-- The tests for dialogs about orders, and what comes after them.
unfoldable pub classify_order : DialogPolicy → Text → Text → Option DialogAction
unfolding contains classify_access
classify_order policy title text =
    if contains title (codes "cryptocurrency order confirmation")
    then crypto_action policy.crypto_order_decision
    else if (contains title (codes "order preview") || contains text (codes "order preview"))
        && not (contains text (codes "blind trading"))
        && policy.bypass_order_precautions
    then action (codes "OrderPreviewDialogHandler")
        (codes "Transmit" ∷ codes "Submit" ∷ codes "OK" ∷ [])
    else if (contains title (codes "precaution")
          || contains text (codes "precautionary setting")
          || contains text (codes "order precaution"))
        && policy.bypass_order_precautions
    then action (codes "ApiPrecautionWarningDialog")
        (codes "Override and Transmit" ∷ codes "Transmit" ∷ codes "Yes" ∷ codes "OK" ∷ [])
    else if (contains title (codes "order preview") || contains text (codes "blind trading"))
        && contains text (codes "blind trading")
        && policy.allow_blind_trading
    then action (codes "BlindTradingWarningDialogHandler")
        (codes "Override and Transmit" ∷ codes "Yes" ∷ [])
    else classify_access title text

-- Failed logins and lost connections, notices, and what comes after them.
unfoldable pub classify_notice : DialogPolicy → Text → Text → Option DialogAction
unfolding contains classify_order
classify_notice policy title text =
    if contains title (codes "login failed")
    then action (codes "LoginFailedDialogHandler") (codes "OK" ∷ [])
    else if contains title (codes "login error")
    then action (codes "LoginErrorDialogHandler") (codes "OK" ∷ [])
    else if contains title (codes "login") && contains text (codes "not currently available")
    then action (codes "NotCurrentlyAvailableDialogHandler") (codes "OK" ∷ [])
    else if contains text (codes "too many failed login attempts")
    then action (codes "TooManyFailedLoginAttemptsDialogHandler") (codes "OK" ∷ [])
    else if contains title (codes "connection lost") || contains text (codes "connection lost")
    then action (codes "ConnectionLostDialogHandler") (codes "OK" ∷ codes "Reconnect" ∷ [])
    else if contains title (codes "password notice") && policy.dismiss_password_expiry
    then action (codes "PasswordExpiryWarningFrameHandler") (codes "OK" ∷ [])
    else if contains text (codes "bid, ask and last size display update")
        && policy.accept_bid_ask_last_size_update
    then action (codes "BidAskLastSizeDisplayUpdateDialogHandler")
        (codes "I understand - display market data" ∷ codes "OK" ∷ [])
    else classify_order policy title text

-- `classify_dialog_with_policy`, of the title and the text in lower case.
unfoldable pub classify_lower : DialogPolicy → Text → Text → Option DialogAction
unfolding contains classify_notice
classify_lower policy title text =
    if contains text (codes "apply the new socket port setting")
    then action (codes "ApiChangeConfirmationDialogHandler") (codes "Yes" ∷ codes "OK" ∷ [])
    else if contains text (codes "trading platform restart automatically")
    then action (codes "AutoRestartConfirmationDialog") (codes "OK" ∷ [])
    else if (contains title (codes "restart confirmation")
          || contains text (codes "auto-restart")
          || contains text (codes "auto logoff"))
        && (contains text (codes "restart") || contains text (codes "logoff"))
    then action (codes "AutoLogoffRestartConfirmationDialog") (codes "Yes" ∷ codes "OK" ∷ [])
    else if contains title (codes "newer version") || contains text (codes "newer version")
    then action (codes "NewerVersionDialogHandler") (codes "OK" ∷ codes "No" ∷ [])
    else classify_notice policy title text

-- Blank strings are left out.
abbrev pub dialog_text_blob : Text → Json → Text
dialog_text_blob title components =
    join (10 ∷ []) (title ∷ filter_by (λ s. not (is_empty (trim s))) (collect_strings components))

abbrev pub or_null : Option Json → Json
or_null none = null
or_null (some v) = v

-- The label of the report is shortened to the action's name.
abbrev pub act_on : AgentClient → ℕ → Option DialogAction → Act Dispatched
act_on client id none = pure not_applicable
act_on client id (some a) = click_first client id a.buttons >>= λ b. pure (handled_or a.name b)

module _ (casing : Casing) (policy : DialogPolicy) where
  unfoldable pub classify_window : Text → Option Json → Option DialogAction
  unfolding classify_lower trim collect_strings
  classify_window title dump =
      classify_lower policy (casing.to_lowercase title)
        (casing.to_lowercase (dialog_text_blob title (or_null dump)))

  unfoldable pub handle_compat : AgentClient → WindowInfo → Act Dispatched
  unfolding classify_window click_first dump_components ◌>>=◌
  handle_compat client w =
      dump_components client w.id >>= λ dump. act_on client w.id (classify_window w.title dump)

  abbrev pub compat_matches : Text → WindowInfo → Bool
  compat_matches title w =
      not (contains title (codes "configuration"))
      && not (names_gateway title && is_large w.bounds)
      && (names_gateway title && is_small w.bounds
          || contains_any title (
              codes "confirmation"
              ∷ codes "cryptocurrency order"
              ∷ codes "login"
              ∷ codes "newer version"
              ∷ codes "notice"
              ∷ codes "order preview"
              ∷ codes "password notice"
              ∷ codes "restart"
              ∷ codes "warning"
              ∷ []))

  abbrev pub compat_handler : DialogHandler
  compat_handler = record {
    name = codes "IbcCompatibilityDialogHandler";
    can_handle = λ _ title w. compat_matches title w;
    handle = handle_compat;
  }

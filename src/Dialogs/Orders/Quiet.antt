-- ===== src/Dialogs/Orders/Quiet.antt =====
-- The handlers that transmit no orders: all of ibctl/src/handlers but ibc_compat.rs.
use ibctl.Base.{
  ℕ, zero, suc, ◌≡◌, refl, Bool, true, false, Option, none, some, List, [], ◌∷◌, All, arith, any,
  is_some,
}
use ibctl.Base.Text.{Text}
use ibctl.Base.Words.{Casing}
use ibctl.Machine.Json.{optional}
use ibctl.Machine.Handlers.{WindowInfo, Dispatched, handled}
use ibctl.Config.Data.{
  SessionAction, primary, primary_override, secondary, AcceptIncoming, accept, reject, TradingMode,
  live, paper, both,
}
use ibctl.Dialogs.{Request, AgentClient, Act, clicked, dumped, ask, dump_components, click_first}
use ibctl.Dialogs.Keeps.{
  Grows, Keeps, Keeps-pure, Keeps-bind, Keeps-if, Keeps-ask, Keeps-dump_components,
  Keeps-click_first, Keeps-typed_or, Keeps-submitted,
}
use ibctl.Dialogs.Notices.{
  handle_conflict, handle_relogin, handle_ssl, handle_tip, handle_incoming, handle_paper, click_any,
  handle_version, handle_notification,
}
use ibctl.Dialogs.Login.{verify_mode, has_button, finish, handle_login}
use ibctl.Config.{Environment}
use ibctl.Dialogs.TotpEntry.{
  Ocr, OcrMode, Verdict, skipped, read_screenshot, captures, verify_window_contains_any,
  submit_entry, enter_code, unless_stopped, proceed, handle_totp,
}
use ibctl.Dialogs.Compat.{DialogPolicy}
use ibctl.Dialogs.Orders.Permits.{IsPermitted, permits, transmits}

module _ (policy : DialogPolicy) (title : Text) where
  abbrev P : List Request → Type 0
  P = All (IsPermitted policy title)

  mute : (r : Request) → transmits r ≡ false → Grows P r
  mute r e log h = (λ t. cc, h)

  pub permitted_labels :
      (id : ℕ) (labels : List Text)
      → (any (λ label. transmits (clicked 0 label)) labels ≡ true → permits policy title ≡ true)
      → All (λ label. Grows P (clicked id label)) labels
  unfolding transmits
  permitted_labels id [] h = tt
  permitted_labels id (label ∷ labels) h =
      (λ log k. (λ t. h (ground arith), k), permitted_labels id labels (λ t. h (ground arith)))

  mute_labels :
      (id : ℕ) (labels : List Text)
      → any (λ label. transmits (clicked 0 label)) labels ≡ false
      → All (λ label. Grows P (clicked id label)) labels
  mute_labels id labels e = permitted_labels id labels (λ t. cc)

  click_muted :
      (client : AgentClient) (id : ℕ) (labels : List Text)
      → any (λ label. transmits (clicked 0 label)) labels ≡ false
      → Keeps P (click_first client id labels)
  click_muted client id labels e = Keeps-click_first client id labels (mute_labels id labels e)

  ask_muted : (client : AgentClient) (r : Request) → transmits r ≡ false → Keeps P (ask client r)
  ask_muted client r e = Keeps-ask client r (mute r e)

  pub dump_muted : (client : AgentClient) (id : ℕ) → Keeps P (dump_components client id)
  unfolding transmits
  dump_muted client id = Keeps-dump_components client id (mute (dumped id) refl)

  ruleset muted =
      (Keeps-pure, Keeps-bind, Keeps-if, Keeps-submitted, Keeps-typed_or, click_muted, ask_muted)

  pub Keeps-handle_conflict :
      (action : SessionAction) (client : AgentClient) (w : WindowInfo)
      → Keeps P (handle_conflict action client w)
  unfolding handle_conflict transmits
  Keeps-handle_conflict primary client w = search muted
  Keeps-handle_conflict primary_override client w = search muted
  Keeps-handle_conflict secondary client w = search muted

  pub Keeps-handle_relogin :
      (client : AgentClient) (w : WindowInfo) → Keeps P (handle_relogin client w)
  unfolding handle_relogin transmits
  Keeps-handle_relogin client w = search muted

  pub Keeps-handle_ssl : (client : AgentClient) (w : WindowInfo) → Keeps P (handle_ssl client w)
  unfolding handle_ssl transmits
  Keeps-handle_ssl client w = search muted

  pub Keeps-handle_tip : (client : AgentClient) (w : WindowInfo) → Keeps P (handle_tip client w)
  unfolding handle_tip transmits
  Keeps-handle_tip client w = search muted

  pub Keeps-handle_incoming :
      (action : AcceptIncoming) (client : AgentClient) (w : WindowInfo)
      → Keeps P (handle_incoming action client w)
  unfolding handle_incoming transmits
  Keeps-handle_incoming accept client w = search muted
  Keeps-handle_incoming reject client w = search muted
  Keeps-handle_incoming AcceptIncoming.manual client w = search muted

  pub Keeps-handle_paper : (client : AgentClient) (w : WindowInfo) → Keeps P (handle_paper client w)
  unfolding handle_paper transmits
  Keeps-handle_paper client w = search muted

  Keeps-click_any :
      (client : AgentClient) (id : ℕ) (labels : List Text)
      → any (λ label. transmits (clicked 0 label)) labels ≡ false
      → Keeps P (click_any client id labels)
  unfolding click_any transmits
  Keeps-click_any client id [] e = search muted
  Keeps-click_any client id (label ∷ labels) e =
      let quiet : transmits (clicked id label) ≡ false = ground arith in
      Keeps-bind (ask client (clicked id label)) _ (ask_muted client _ quiet) (λ a.
        Keeps-if (is_some a) _ _ (Keeps-pure handled)
          (Keeps-click_any client id labels (ground arith)))

  pub Keeps-handle_version :
      (client : AgentClient) (w : WindowInfo) → Keeps P (handle_version client w)
  unfolding handle_version transmits
  Keeps-handle_version client w = search (Keeps-click_any)

  pub Keeps-handle_notification :
      (client : AgentClient) (w : WindowInfo) → Keeps P (handle_notification client w)
  unfolding handle_notification transmits
  Keeps-handle_notification client w = search muted

  Keeps-verify_mode :
      (client : AgentClient) (id : ℕ) (label : Text) (n : ℕ)
      → Keeps P (verify_mode client id label n)
  unfolding verify_mode transmits
  Keeps-verify_mode client id label zero = search muted
  Keeps-verify_mode client id label (suc n) =
      Keeps-bind (dump_components client id) _ (dump_muted client id) (λ c.
        Keeps-if (has_button label c) _ _ (Keeps-pure tt) (Keeps-verify_mode client id label n))

  Keeps-finish : (clicked : Bool) → Keeps P (finish clicked)
  Keeps-finish false = search muted
  Keeps-finish true = search muted

  pub Keeps-handle_login :
      (username password : Text) (mode : TradingMode) (client : AgentClient) (w : WindowInfo)
      → Keeps P (handle_login username password mode client w)
  unfolding handle_login transmits
  Keeps-handle_login username password live client w =
      search (muted, Keeps-verify_mode, Keeps-finish) depth 20
  Keeps-handle_login username password paper client w =
      search (muted, Keeps-verify_mode, Keeps-finish) depth 20
  Keeps-handle_login username password both client w =
      search (muted, Keeps-verify_mode, Keeps-finish) depth 20

  Keeps-read_screenshot :
      (ocr : Ocr) (needles : List Text) (a : Option Bool) → Keeps P (read_screenshot ocr needles a)
  Keeps-read_screenshot ocr needles none = record { at = λ d h. h }
  Keeps-read_screenshot ocr needles (some b) = record { at = λ d h. h }

  Keeps-verify_window :
      (ocr : Ocr) (mode : OcrMode) (client : AgentClient) (id : ℕ) (needles : List Text)
      → Keeps P (verify_window_contains_any ocr mode client id needles)
  unfolding verify_window_contains_any transmits
  Keeps-verify_window ocr mode client id needles =
      Keeps-if (captures ocr mode) _ _ (search (muted, Keeps-read_screenshot)) (Keeps-pure skipped)

  Keeps-submit_entry : (client : AgentClient) (id : ℕ) → Keeps P (submit_entry client id)
  unfolding submit_entry transmits
  Keeps-submit_entry client id = search muted

  Keeps-enter_code :
      (code : Option Text) (client : AgentClient) (id : ℕ) → Keeps P (enter_code code client id)
  unfolding enter_code transmits
  Keeps-enter_code none client id = search muted
  Keeps-enter_code (some code) client id = search (muted, Keeps-submit_entry)

  Keeps-unless_stopped :
      (next : Act Dispatched) (message : Option Text)
      → Keeps P next
      → Keeps P (unless_stopped next message)
  Keeps-unless_stopped next none k = k
  Keeps-unless_stopped next (some message) k = Keeps-pure _

  module _ (casing : Casing) (ocr : Ocr) (env : Environment) (generate : Text → Option Text) where
    Keeps-proceed :
        (secret_env : Text) (client : AgentClient) (id : ℕ) (v : Verdict)
        → Keeps P (proceed casing ocr env generate secret_env client id v)
    Keeps-proceed secret_env client id v =
        Keeps-unless_stopped _ _
          (Keeps-enter_code (optional none generate (env secret_env)) client id)

    pub Keeps-handle_totp :
        (secret_env : Text) (client : AgentClient) (w : WindowInfo)
        → Keeps P (handle_totp casing ocr env generate secret_env client w)
    unfolding handle_totp
    Keeps-handle_totp secret_env client w = search (Keeps-bind, Keeps-verify_window, Keeps-proceed)

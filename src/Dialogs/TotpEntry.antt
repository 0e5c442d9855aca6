-- ===== src/Dialogs/TotpEntry.antt =====
-- ibctl/src/handlers/totp_entry.rs and the checks of ibctl/src/ocr.rs: the code is generated and
-- entered. The provider's code at the corrected time is a function of the secret, since the
-- provider may be another program, and so is what tesseract reads.
use ibctl.Base.{ℕ, Bool, true, false, ◌||◌, Option, none, some, List, [], ◌∷◌, map, if◌then◌else◌}
use ibctl.Base.Text.{Text, codes, text_eq, trim}
use ibctl.Base.Words.{Casing, ascii_lower, contains, contains_any}
use ibctl.Config.{Environment}
use ibctl.Machine.Events.{is_twofa_title}
use ibctl.Machine.Json.{optional}
use ibctl.Machine.Handlers.{WindowInfo, Dispatched, failed, reported, handled}
use ibctl.Dialogs.{
  Request, AgentClient, Act, DialogHandler, typed_best, key_sent, captured, pure, ◌>>=◌, ask,
  click_first, typed_or,
}

-- Whether tesseract can be run, and what it reads in the screenshot taken after a log, if it works.
pub record Ocr : Type 0 where
  pub available : Bool
  pub reads : List Request → Option Text

pub data OcrMode : Type 0 where
  disabled auto always : OcrMode

abbrev pub is_one_of : Text → List Text → Bool
is_one_of t [] = false
is_one_of t (s ∷ ss) = text_eq t s || is_one_of t ss

unfoldable pub ocr_mode : Environment → OcrMode
unfolding trim text_eq
ocr_mode env =
    let v =
      map ascii_lower
        (trim (optional (codes "auto") (λ t. t) (env (codes "IBCTL_OCR_VERIFICATION")))) in
    if is_one_of v (codes "0" ∷ codes "false" ∷ codes "no" ∷ codes "off" ∷ codes "disabled" ∷ [])
    then disabled
    else if is_one_of v (
        codes "1" ∷ codes "true" ∷ codes "yes" ∷ codes "on" ∷ codes "enabled" ∷ codes "always" ∷ [])
    then always
    else auto

unfoldable pub strict_verification : Environment → Bool
unfolding trim text_eq
strict_verification env =
    optional false
      (λ t.
        is_one_of (map ascii_lower (trim t))
          (codes "1" ∷ codes "true" ∷ codes "yes" ∷ codes "on" ∷ []))
      (env (codes "IBCTL_OCR_VERIFICATION_STRICT"))

abbrev pub text_matches_any : Text → List Text → Bool
text_matches_any text needles = contains_any (map ascii_lower text) (map (map ascii_lower) needles)

abbrev pub twofa_ocr_needles : List Text
twofa_ocr_needles =
    codes "second factor"
    ∷ codes "security code"
    ∷ codes "authentication code"
    ∷ codes "mobile authentication"
    ∷ codes "enter the code"
    ∷ codes "verification code"
    ∷ codes "one-time password"
    ∷ codes "passcode"
    ∷ []

-- What the screenshot says: the text is there, it is not, nothing was looked at, or an error.
pub data Verdict : Type 0 where
  matched unmatched skipped error : Verdict

abbrev verdict : Option Text → List Text → Verdict
verdict none needles = error
verdict (some text) needles = if text_matches_any text needles then matched else unmatched

abbrev pub read_screenshot : Ocr → List Text → Option Bool → Act Verdict
read_screenshot ocr needles none d = (error, d)
read_screenshot ocr needles (some _) d = (verdict (ocr.reads d.log) needles, d)

abbrev pub captures : Ocr → OcrMode → Bool
captures ocr disabled = false
captures ocr auto = ocr.available
captures ocr always = true

unfoldable pub verify_window_contains_any :
    Ocr → OcrMode → AgentClient → ℕ → List Text → Act Verdict
unfolding ask ◌>>=◌ contains
verify_window_contains_any ocr mode client id needles =
    if captures ocr mode
    then (ask client (captured id) >>= read_screenshot ocr needles)
    else pure skipped

-- A strict check stops the entry at a screen that it cannot confirm.
abbrev pub stops : Bool → Verdict → Option Text
stops true unmatched = some (codes "OCR did not recognize expected 2FA text")
stops true error = some (codes "strict OCR verification failed")
stops _ _ = none

abbrev pub submit_labels : List Text
submit_labels = codes "OK" ∷ codes "Verify" ∷ codes "Submit" ∷ codes "Continue" ∷ codes "Next" ∷ []

abbrev handled_unless : Option Bool → Dispatched
handled_unless none = failed
handled_unless (some _) = handled

unfoldable pub submit_entry : AgentClient → ℕ → Act Dispatched
unfolding click_first ask ◌>>=◌
submit_entry client id = do
  found ← click_first client id submit_labels
  (if found
      then pure handled
      else (ask client (key_sent id (codes "Enter")) >>= λ k. pure (handled_unless k)))

unfoldable pub enter_code : Option Text → AgentClient → ℕ → Act Dispatched
unfolding submit_entry ask ◌>>=◌
enter_code none client id = pure failed
enter_code (some code) client id =
    ask client (typed_best id code)
    >>= typed_or (codes "2FA code field not found or not writable") (submit_entry client id)

abbrev pub unless_stopped : Act Dispatched → Option Text → Act Dispatched
unless_stopped next none = next
unless_stopped next (some message) = pure (reported message)

module _ (casing : Casing) (ocr : Ocr) (env : Environment) (generate : Text → Option Text) where
  -- The secret's variable has to be set.
  abbrev pub proceed : Text → AgentClient → ℕ → Verdict → Act Dispatched
  proceed secret_env client id v =
      unless_stopped (enter_code (optional none generate (env secret_env)) client id)
        (stops (strict_verification env) v)

  unfoldable pub handle_totp : Text → AgentClient → WindowInfo → Act Dispatched
  unfolding ocr_mode strict_verification verify_window_contains_any enter_code ◌>>=◌
  handle_totp secret_env client w =
      verify_window_contains_any ocr (ocr_mode env) client w.id twofa_ocr_needles
      >>= proceed secret_env client w.id

  abbrev pub totp_entry_handler : Text → DialogHandler
  totp_entry_handler secret_env = record {
    name = codes "TotpEntryHandler";
    can_handle = λ _ _ w. is_twofa_title casing w.title;
    handle = handle_totp secret_env;
  }

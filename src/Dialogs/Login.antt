-- ===== src/Dialogs/Login.antt =====
-- ibctl/src/handlers/login.rs: the credentials are filled in and the login button is clicked.
pub mod Submits
use ibctl.Base.{
  ℕ, zero, suc, Bool, true, false, not, ◌&&◌, ◌||◌, Option, none, some, List, [], ◌∷◌, any,
  if◌then◌else◌,
}
use ibctl.Base.Text.{Text, codes, text_eq}
use ibctl.Base.Words.{contains}
use ibctl.Config.Data.{TradingMode, paper}
use ibctl.Machine.Json.{Json, get, get_array, string, as_str, optional}
use ibctl.Machine.Handlers.{WindowInfo, Dispatched, reported, handled}
use ibctl.Dialogs.{
  AgentClient, Act, DialogHandler, clicked, typed, pure, ◌>>=◌, ◌>>◌, ask, dump_components,
  submitted, click_first, typed_or,
}

abbrev pub mode_label : TradingMode → Text
mode_label paper = codes "Paper Trading"
mode_label _ = codes "Live Trading"

abbrev pub expected_button : TradingMode → Text
expected_button paper = codes "Paper Log In"
expected_button _ = codes "Log In"

abbrev pub button_labels : TradingMode → List Text
button_labels paper = codes "Paper Log In" ∷ codes "Log In" ∷ []
button_labels _ = codes "Log In" ∷ codes "Paper Log In" ∷ []

abbrev has_text : Text → Json → Bool
has_text label button =
    optional false (λ v. optional false (λ t. text_eq t label) (as_str v))
      (get (codes "text") button)

unfoldable pub has_button : Text → Option Json → Bool
unfolding get text_eq
has_button label none = false
has_button label (some components) =
    optional false (any (has_text label)) (get_array (codes "buttons") components)

-- The attempts that are left to see the button of the mode.
unfoldable pub verify_mode : AgentClient → ℕ → Text → ℕ → Act (Unit {0})
unfolding has_button dump_components ◌>>=◌
verify_mode client id label zero = pure tt
verify_mode client id label (suc n) =
    let rest = verify_mode client id label n in
    dump_components client id >>= λ c. if has_button label c then pure tt else rest

abbrev pub finish : Bool → Act Dispatched
finish false = pure (reported (codes "No login button found"))
finish true = submitted true >> pure handled

module _ (username password : Text) (mode : TradingMode) where
  unfoldable pub enter_password : AgentClient → ℕ → Act Dispatched
  unfolding click_first ask submitted ◌>>=◌
  enter_password client id =
      ask client (typed id 1 password)
      >>= typed_or (codes "Password field not found or not writable")
          (click_first client id (button_labels mode) >>= finish)

  unfoldable pub enter_username : AgentClient → ℕ → Act Dispatched
  unfolding enter_password ask ◌>>=◌
  enter_username client id =
      ask client (typed id 0 username)
      >>= typed_or (codes "Username field not found or not writable") (enter_password client id)

  -- An answer that the mode's button is not there yet, or not at all, goes on all the same.
  unfoldable pub handle_login : AgentClient → WindowInfo → Act Dispatched
  unfolding verify_mode enter_username ask ◌>>=◌
  handle_login client w = do
    ask client (clicked w.id (codes "IB API"))
    ask client (clicked w.id (mode_label mode))
    verify_mode client w.id (expected_button mode) 5
    enter_username client w.id

  abbrev pub login_handler : DialogHandler
  login_handler = record {
    name = codes "LoginHandler";
    can_handle = λ submitted title w. not submitted && contains title (codes "login");
    handle = handle_login;
  }

-- ===== src/Dialogs/Login/Submits.antt =====
-- ibctl/src/handlers/login.rs: when the credentials count as submitted.
use ibctl.Base.{
  ℕ, zero, suc, ◌≡◌, refl, Bool, true, false, ◌⊎◌, inl, inr, some, List, [], ◌∷◌, All,
  if◌then◌else◌, Option-cases, Bool-cases, subst,
}
use ibctl.Base.Text.{Text, codes}
use ibctl.Machine.Handlers.{WindowInfo, Dispatched, handled}
use ibctl.Config.Data.{TradingMode}
use ibctl.Dialogs.{
  Request, AgentClient, Desk, clicked, typed, ◌>>=◌, ask, click_first, dump_components, submitted,
}
use ibctl.Dialogs.Keeps.{Keeps, Grows, Keeps-click_first}
use ibctl.Dialogs.Login.{
  button_labels, mode_label, expected_button, has_button, verify_mode, enter_password,
  enter_username, finish, handle_login,
}

-- The request was made and answered with Ok(true).
abbrev pub Agreed : AgentClient → Request → List Request → Type 0
Agreed client r [] = ⊥
Agreed client r (q ∷ log) = ((q ≡ r) × (client.agrees log q ≡ some true)) ⊎ Agreed client r log

-- One of the buttons was clicked.
abbrev pub OneAgreed : AgentClient → ℕ → List Text → List Request → Type 0
OneAgreed client id [] log = ⊥
OneAgreed client id (label ∷ labels) log =
    Agreed client (clicked id label) log ⊎ OneAgreed client id labels log

Grows-Agreed : (client : AgentClient) (r q : Request) → Grows (Agreed client r) q
Grows-Agreed client r q log h = inr h

All-grow :
    (client : AgentClient) (r : Request) (id : ℕ) (labels : List Text)
    → All (λ label. Grows (Agreed client r) (clicked id label)) labels
All-grow client r id [] = tt
All-grow client r id (label ∷ labels) =
    (Grows-Agreed client r (clicked id label), All-grow client r id labels)

click_first-Agreed :
    (client : AgentClient) (r : Request) (id : ℕ) (labels : List Text)
    → Keeps (Agreed client r) (click_first client id labels)
click_first-Agreed client r id labels =
    Keeps-click_first client id labels (All-grow client r id labels)

-- The flag is left alone, and true is only returned after a click.
click_first-OneAgreed :
    (client : AgentClient) (id : ℕ) (labels : List Text) (d : Desk)
    → ((click_first client id labels d).1.login_submitted ≡ d.login_submitted)
      × ((click_first client id labels d).0 ≡ true
          → OneAgreed client id labels (click_first client id labels d).1.log)
unfolding click_first ask ◌>>=◌
click_first-OneAgreed client id [] d = (refl, λ h. cc)
click_first-OneAgreed client id (label ∷ labels) d =
    elim (Option-cases (client.agrees d.log (clicked id label))) [
      | inl e ↦ rw e (
          let later = click_first-OneAgreed client id labels (ask client (clicked id label) d).1 in
          (later.0, λ h. inr (later.1 h)))
      | inr (true, e) ↦ rw e (refl, λ h. inl (inl (refl, e)))
      | inr (false, e) ↦ rw e (
          let later = click_first-OneAgreed client id labels (ask client (clicked id label) d).1 in
          (later.0, λ h. inr (later.1 h)))
    ]

verify_mode-login_submitted :
    (client : AgentClient) (id : ℕ) (label : Text) (n : ℕ) (d : Desk)
    → (verify_mode client id label n d).1.login_submitted ≡ d.login_submitted
unfolding verify_mode dump_components ◌>>=◌
verify_mode-login_submitted client id label zero d = refl
verify_mode-login_submitted client id label (suc n) d =
    elim (Bool-cases (has_button label (client.dumps d.log id))) [
      | inl e ↦ rw (e, if◌then◌else◌) refl
      | inr e ↦
          rw (e, if◌then◌else◌)
            (verify_mode-login_submitted client id label n (dump_components client id d).1)
    ]

module _ (username password : Text) (mode : TradingMode) (client : AgentClient) (id : ℕ) where
  -- What the handler's result says of the flag, which was this before, and of the log.
  abbrev pub Submits : Bool → Dispatched × Desk → Type 0
  Submits before (handled, d) =
      (d.login_submitted ≡ true)
      × Agreed client (typed id 0 username) d.log
      × Agreed client (typed id 1 password) d.log
      × OneAgreed client id (button_labels mode) d.log
  Submits before (_, d) = d.login_submitted ≡ before

  finish-Submits :
      (b before : Bool) (d : Desk)
      → d.login_submitted ≡ before
      → Agreed client (typed id 0 username) d.log
      → Agreed client (typed id 1 password) d.log
      → (b ≡ true → OneAgreed client id (button_labels mode) d.log)
      → Submits before (finish b d)
  unfolding submitted ◌>>=◌
  finish-Submits false before d same name secret button = same
  finish-Submits true before d same name secret button = (refl, name, secret, button refl)

  enter_password-Submits :
      (d : Desk)
      → Agreed client (typed id 0 username) d.log
      → Submits d.login_submitted (enter_password username password mode client id d)
  unfolding enter_password ask ◌>>=◌
  enter_password-Submits d name = elim (Option-cases (client.agrees d.log (typed id 1 password))) [
    | inl e ↦ rw e refl
    | inr (false, e) ↦ rw e refl
    | inr (true, e) ↦ rw e (
        let d1 = (ask client (typed id 1 password) d).1 in
        let clicks = click_first-OneAgreed client id (button_labels mode) d1 in
        let (b, d2) = click_first client id (button_labels mode) d1 in
        finish-Submits b d.login_submitted d2 clicks.0
          ((click_first-Agreed client (typed id 0 username) id (button_labels mode)).at d1
            (inr name))
          ((click_first-Agreed client (typed id 1 password) id (button_labels mode)).at d1
            (inl (refl, e)))
          clicks.1)
  ]

  enter_username-Submits :
      (d : Desk) → Submits d.login_submitted (enter_username username password mode client id d)
  unfolding enter_username ask ◌>>=◌
  enter_username-Submits d = elim (Option-cases (client.agrees d.log (typed id 0 username))) [
    | inl e ↦ rw e refl
    | inr (false, e) ↦ rw e refl
    | inr (true, e) ↦
        rw e (enter_password-Submits (ask client (typed id 0 username) d).1 (inl (refl, e)))
  ]

-- The login handler counts a window as handled only if the username and the password were typed and
-- taken and one of the two login buttons was clicked, and it then remembers that they were
-- submitted; with any other result it remembers what it did before.
pub handle_login-Submits :
    (username password : Text) (mode : TradingMode) (client : AgentClient) (w : WindowInfo)
    (d : Desk)
    → Submits username password mode client w.id d.login_submitted
        (handle_login username password mode client w d)
unfolding handle_login ask ◌>>=◌
handle_login-Submits username password mode client w d =
    let d2 =
      (ask client (clicked w.id (mode_label mode))
        (ask client (clicked w.id (codes "IB API")) d).1).1 in
    let d3 = (verify_mode client w.id (expected_button mode) 5 d2).1 in
    subst
      (λ before.
        Submits username password mode client w.id before
          (enter_username username password mode client w.id d3))
      (verify_mode-login_submitted client w.id (expected_button mode) 5 d2)
      (enter_username-Submits username password mode client w.id d3)

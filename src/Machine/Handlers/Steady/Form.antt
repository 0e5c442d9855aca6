-- ===== src/Machine/Handlers/Steady/Form.antt =====
-- The part of `do_connected` in ibctl/src/state_machine/mod.rs that is about the login form, and what
-- follows it.
use ibctl.Base.{
  ℕ, ◌+◌, ◌-◌, ◌^◌, ◌≡◌, ◌≢◌, ◌≤◌, ◌⊎◌, inl, inr, refl, sym, ap, ◌∙◌, Bool, true, false, ◌||◌,
  Option, none, some, List, leb, if◌then◌else◌, arith, Option-cases, Bool-cases, subst,
}
use ibctl.Base.Words.{Casing}
use ibctl.Machine.State.{connected, waiting_for_login, waiting_for2fa}
use ibctl.Machine.Revocation.{
  RevocationSource, RevocationTag, Tracker, get, tag, tag_eq, observe, next_state, debounce,
}
use ibctl.Machine.Revocation.Debounce.{first_of, or_now, observe-get, clear-get}
use ibctl.Machine.Lifecycle.{StateMachine}
use ibctl.Machine.Events.{Effect, main_gateway_window}
use ibctl.Machine.Handlers.{Settings}
use ibctl.Machine.Handlers.Connected.{
  Course, onward, leaves, ◌then◌, contradict, observed, check_probe, Probe, has_button, finish,
  settle,
}
use ibctl.Machine.Handlers.Steady.Parts.{
  form_time, form_since, Spares, some_injective, contradict-Spares,
}

-- What a step at `now` does about the login form, whose time was `old`: it stays and has the form's
-- time, it waits for the login after a second of the form, or it leaves for somewhere else.
module _ (Seen : Type 0) (now : ℕ) (old : Option ℕ) where
  abbrev pub Stayed : Option ℕ → Type 0
  Stayed new = (new ≡ none) ⊎ (Seen × (new ≡ or_now now old))

  abbrev pub Fired : Type 0
  Fired = Seen × ((first : ℕ) × (old ≡ some first) × (first + 10 ^ 9 ≤ now))

module _ {Zoned : Type 0} (Seen : Type 0) (now : ℕ) (old : Option ℕ) where
  abbrev pub Outcome : Course Zoned → Type 0
  Outcome (onward m) = Stayed Seen now old (form_since m)
  Outcome (leaves m s) = (s ≢ connected) × (s ≡ waiting_for_login → Fired Seen now old)

  Spares-Outcome :
      (m : StateMachine Zoned) (c : Course Zoned)
      → Stayed Seen now old (form_since m)
      → Spares m c
      → Outcome c
  Spares-Outcome m (leaves m' s) h (l, k) = (k, λ e. absurd (l e))
  Spares-Outcome m (onward m') (inl n) (o, e) = inl (e ∙ n)
  Spares-Outcome m (onward m') (inr (seen, k)) (o, e) = inr (seen, e ∙ k)

  then-Outcome :
      (c : Course Zoned) (f : StateMachine Zoned → Course Zoned)
      → Outcome c
      → ((m : StateMachine Zoned) → Spares m (f m))
      → Outcome (c then f)
  then-Outcome (leaves m s) f h k = h
  then-Outcome (onward m) f h k = Spares-Outcome m (f m) h (k m)

  pub finish-Outcome :
      (config : Settings) (effects : List Effect) (c : Course Zoned)
      → Outcome c
      → (((finish config now effects c).next ≡ some connected)
          → Stayed Seen now old (form_since (finish config now effects c).machine))
        × (((finish config now effects c).next ≡ some waiting_for_login) → Fired Seen now old)
  unfolding settle
  finish-Outcome config effects (leaves m s) (k, l) = (
    λ e. absurd (k (some_injective s connected e)),
    λ e. l (some_injective s waiting_for_login e),
  )
  finish-Outcome config effects (onward m) h = (λ e. h, λ e. ground (arith, e))

form_observed :
    (tracker : Tracker) (now : ℕ)
    → ((observe tracker RevocationSource.login_form_visible now).1 ≡ none)
      ⊎ (((observe tracker RevocationSource.login_form_visible now).1
            ≡ some RevocationSource.login_form_visible)
          × ((first : ℕ) × (form_time tracker ≡ some first) × (first + 10 ^ 9 ≤ now)))
unfolding observe tag debounce tag_eq
form_observed tracker now = elim (Option-cases (get tracker RevocationTag.login_form_visible)) [
  | inl e ↦ inl (ground (arith, e))
  | inr ((first, s), e) ↦ elim (Bool-cases (leb (10 ^ 9) (now - first))) [
    | inl l ↦ inr (ground (arith, e, l), (first, ap first_of e, ground (arith, l)))
    | inr l ↦ inl (ground (arith, e, l))
  ]
]

module _ {Zoned : Type 0} (Seen : Type 0) (now : ℕ) where
  observed_form :
      (m : StateMachine Zoned) (r : Tracker × Option RevocationSource)
      → Seen
      → form_time r.0 ≡ or_now now (form_since m)
      → (r.1 ≡ none)
        ⊎ ((r.1 ≡ some RevocationSource.login_form_visible)
            × ((first : ℕ) × (form_since m ≡ some first) × (first + 10 ^ 9 ≤ now)))
      → Outcome Seen now (form_since m) (observed m RevocationSource.login_form_visible r)
  unfolding next_state
  observed_form m (tracker, none) seen h c = inr (seen, h)
  observed_form m (tracker, some fired) seen h (inl n) = ground (arith, n)
  observed_form m (tracker, some fired) seen h (inr (c, f)) =
      subst
        (λ s.
          (next_state s ≢ connected)
          × (next_state s ≡ waiting_for_login → Fired Seen now (form_since m)))
        (sym (some_injective fired RevocationSource.login_form_visible c))
        (λ e. ground (arith, e), λ e. (seen, f))

  form-Outcome :
      (b : Bool) (m : StateMachine Zoned)
      → (b ≡ true → Seen)
      → Outcome Seen now
          (form_since m)
          (contradict now b RevocationSource.login_form_visible RevocationTag.login_form_visible m)
  unfolding contradict tag tag_eq
  form-Outcome true m sees =
      observed_form m (observe m.session.revocation RevocationSource.login_form_visible now)
        (sees refl)
        (observe-get m.session.revocation RevocationSource.login_form_visible now
          RevocationTag.login_form_visible)
        (form_observed m.session.revocation now)
  form-Outcome false m sees = inl (
      clear-get m.session.revocation RevocationTag.login_form_visible
        RevocationTag.login_form_visible)

  pub check_probe-Outcome :
      (casing : Casing) (p : Probe) (m : StateMachine Zoned)
      → ((has_button (main_gateway_window casing m.observation) || p.login_form) ≡ true → Seen)
      → Outcome Seen now (form_since m) (check_probe casing now p m)
  unfolding check_probe tag tag_eq next_state
  check_probe-Outcome casing p m sees =
      either-Outcome p.twofa (leaves m waiting_for2fa) _
        (λ e. ground (arith, e), λ e. ground (arith, e))
        (then-Outcome Seen now (form_since m) _ _
          (form-Outcome (has_button (main_gateway_window casing m.observation) || p.login_form) m
            sees)
          (λ m'.
            contradict-Spares now p.disconnected_label RevocationSource.disconnected_label_stable
              RevocationTag.disconnected_label_stable m'
              (λ e. ground (arith, e), λ e. ground (arith, e)) refl refl))
    where
      either-Outcome :
          (b : Bool) (c d : Course Zoned)
          → Outcome Seen now (form_since m) c
          → Outcome Seen now (form_since m) d
          → Outcome Seen now (form_since m) (if b then c else d)
      either-Outcome true c d h k = h
      either-Outcome false c d h k = k

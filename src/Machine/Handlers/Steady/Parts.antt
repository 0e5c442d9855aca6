-- ===== src/Machine/Handlers/Steady/Parts.antt =====
-- The parts of `do_connected` in ibctl/src/state_machine/mod.rs that are not about the login form.
use ibctl.Base.{
  ℕ, ◌≡◌, ◌≢◌, ◌⊎◌, inl, inr, refl, sym, ◌∙◌, Bool, true, false, Option, none, some, if◌then◌else◌,
  arith, subst, not,
}
use ibctl.Base.Words.{Casing}
use ibctl.Machine.State.{State, connected, waiting_for_login}
use ibctl.Machine.Revocation.{
  RevocationSource, RevocationTag, Tracker, get, tag, tag_eq, observe, clear, next_state,
}
use ibctl.Machine.Revocation.Debounce.{first_of, observe-get, clear-get}
use ibctl.Machine.Lifecycle.{StateMachine}
use ibctl.Machine.Events.{has_relogin_dialog, has_session_conflict}
use ibctl.Machine.Handlers.{Agent}
use ibctl.Machine.Handlers.Connected.{
  Course, onward, leaves, ◌then◌, contradict, observed, listener, check_api_port, check_jvm,
  contradictions,
}

-- When the login form was first seen, of those times that are not forgotten.
abbrev pub form_time : Tracker → Option ℕ
form_time tracker = first_of (get tracker RevocationTag.login_form_visible)

abbrev pub Elsewhere : State → Type 0
Elsewhere s = (s ≢ waiting_for_login) × (s ≢ connected)

module _ {Zoned : Type 0} where
  abbrev pub form_since : StateMachine Zoned → Option ℕ
  form_since m = form_time m.session.revocation

  -- A part of a step that is not about the login form.
  abbrev pub Spares : StateMachine Zoned → Course Zoned → Type 0
  Spares m (onward m') = (m'.observation ≡ m.observation) × (form_since m' ≡ form_since m)
  Spares m (leaves m' s) = Elsewhere s

  then-Spares :
      (m : StateMachine Zoned) (c : Course Zoned) (f : StateMachine Zoned → Course Zoned)
      → Spares m c
      → ((m' : StateMachine Zoned) → Spares m' (f m'))
      → Spares m (c then f)
  then-Spares m (leaves m' s) f h k = h
  then-Spares m (onward m') f (o, h) k = carry m m' (f m') o h (k m')
    where
      carry :
          (m m' : StateMachine Zoned) (c : Course Zoned)
          → m'.observation ≡ m.observation
          → form_since m' ≡ form_since m
          → Spares m' c
          → Spares m c
      carry m m' (onward m'') o h (o', h') = (o' ∙ o, h' ∙ h)
      carry m m' (leaves m'' s) o h k = k

pub some_injective : {A : Type 0} → (a b : A) → some a ≡ some b → a ≡ b
some_injective a b e = cc

observe_cases :
    (tracker : Tracker) (s : RevocationSource) (now : ℕ)
    → ((observe tracker s now).1 ≡ none) ⊎ ((observe tracker s now).1 ≡ some s)
unfolding observe
observe_cases tracker s now = ground arith

observe_spares :
    (tracker : Tracker) (s : RevocationSource) (now : ℕ)
    → tag_eq (tag s) RevocationTag.login_form_visible ≡ false
    → form_time (observe tracker s now).0 ≡ form_time tracker
observe_spares tracker s now h =
    ground (arith, h, observe-get tracker s now RevocationTag.login_form_visible)

pub clear_spares :
    (tracker : Tracker) (t : RevocationTag)
    → tag_eq t RevocationTag.login_form_visible ≡ false
    → form_time (clear tracker t) ≡ form_time tracker
clear_spares tracker t h = ground (arith, h, clear-get tracker RevocationTag.login_form_visible t)

module _ {Zoned : Type 0} (now : ℕ) where
  observed_lem :
      (m : StateMachine Zoned) (s : RevocationSource) (r : Tracker × Option RevocationSource)
      → Elsewhere (next_state s)
      → form_time r.0 ≡ form_since m
      → (r.1 ≡ none) ⊎ (r.1 ≡ some s)
      → Spares m (observed m s r)
  observed_lem m s (tracker, none) e h c = (refl, h)
  observed_lem m s (tracker, some fired) e h (inl n) = ground (arith, n)
  observed_lem m s (tracker, some fired) e h (inr c) =
      subst (λ f. Elsewhere (next_state f)) (sym (some_injective fired s c)) e

  pub contradict-Spares :
      (seen : Bool) (s : RevocationSource) (t : RevocationTag) (m : StateMachine Zoned)
      → Elsewhere (next_state s)
      → tag_eq (tag s) RevocationTag.login_form_visible ≡ false
      → tag_eq t RevocationTag.login_form_visible ≡ false
      → Spares m (contradict now seen s t m)
  unfolding contradict
  contradict-Spares true s t m e h h' =
      observed_lem m s (observe m.session.revocation s now) e
        (observe_spares m.session.revocation s now h) (observe_cases m.session.revocation s now)
  contradict-Spares false s t m e h h' = (refl, clear_spares m.session.revocation t h')

  listener_lem :
      (m : StateMachine Zoned) (s : RevocationSource) (r : Tracker × Option RevocationSource)
      → Elsewhere (next_state s)
      → form_time r.0 ≡ form_since m
      → (r.1 ≡ none) ⊎ (r.1 ≡ some s)
      → Spares m (listener m r)
  listener_lem m s (tracker, none) e h c = (refl, h)
  listener_lem m s (tracker, some fired) e h (inl n) = ground (arith, n)
  listener_lem m s (tracker, some fired) e h (inr c) =
      subst (λ f. Elsewhere (next_state f)) (sym (some_injective fired s c)) e

  either-Spares :
      (m : StateMachine Zoned) (b : Bool) (c d : Course Zoned)
      → Spares m c
      → Spares m d
      → Spares m (if b then c else d)
  either-Spares m true c d h k = h
  either-Spares m false c d h k = k

  check_api_port-Spares : (m : StateMachine Zoned) → Spares m (check_api_port now m)
  unfolding check_api_port tag tag_eq next_state
  check_api_port-Spares m =
      let lost = observe m.session.revocation RevocationSource.api_port_listener_lost now in
      either-Spares m (not m.session.api_port_probe_failed) (onward m) (listener m lost)
        (refl, refl)
        (listener_lem m RevocationSource.api_port_listener_lost lost
          (λ e. ground (arith, e), λ e. ground (arith, e))
          (observe_spares m.session.revocation RevocationSource.api_port_listener_lost now refl)
          (observe_cases m.session.revocation RevocationSource.api_port_listener_lost now))

  check_jvm-Spares :
      (casing : Casing) (agent : Agent) (m : StateMachine Zoned)
      → Spares m (check_jvm casing agent now m)
  unfolding check_jvm next_state
  check_jvm-Spares casing agent m =
      either-Spares m agent.is_running _ _ (refl, refl)
        (λ e. ground (arith, e), λ e. ground (arith, e))

  pub contradictions-Spares :
      (casing : Casing) (agent : Agent) (m : StateMachine Zoned)
      → Spares m (contradictions casing agent now m)
  unfolding contradictions tag tag_eq next_state
  contradictions-Spares casing agent m =
      then-Spares m _ _
        (then-Spares m _ _
          (then-Spares m _ _
            (then-Spares m _ _ (check_jvm-Spares casing agent m) (λ m.
              contradict-Spares m.session.connection_event_disconnected
                RevocationSource.connection_status_event RevocationTag.connection_status_event m
                (λ e. ground (arith, e), λ e. ground (arith, e)) refl refl))
            check_api_port-Spares)
          (λ m.
            contradict-Spares (has_relogin_dialog casing m.observation)
              RevocationSource.relogin_dialog RevocationTag.relogin_dialog m
              (λ e. ground (arith, e), λ e. ground (arith, e)) refl refl))
        (λ m.
          contradict-Spares (has_session_conflict casing m.observation)
            RevocationSource.session_conflict RevocationTag.session_conflict m
            (λ e. ground (arith, e), λ e. ground (arith, e)) refl refl)

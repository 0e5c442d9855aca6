-- ===== src/Machine/Handlers/Steady.antt =====
-- The debounce of the login form over the steps of `do_connected` in
-- ibctl/src/state_machine/mod.rs.
mod Parts
mod Form
use ibctl.Base.{
  ℕ, ◌+◌, ◌-◌, ◌^◌, ◌≡◌, ◌≢◌, ◌≤◌, ◌⊎◌, inl, inr, refl, sym, ap, ◌∙◌, Bool, true, false, ◌||◌,
  Option, none, some, List, [], ◌∷◌, leb, if◌then◌else◌, arith, Option-cases, Bool-cases, subst,
  not,
}
use ibctl.Base.Words.{Casing}
use ibctl.Machine.State.{State, connected, waiting_for_login, waiting_for2fa}
use ibctl.Machine.Revocation.{
  RevocationSource, RevocationTag, Tracker, get, tag, tag_eq, observe, clear, next_state, debounce,
}
use ibctl.Machine.Revocation.Debounce.{first_of, or_now, observe-get, clear-get}
use ibctl.Machine.Lifecycle.{StateMachine, AgentObservation}
use ibctl.Machine.Events.{Effect, main_gateway_window, has_relogin_dialog, has_session_conflict}
use ibctl.Machine.Json.{Json}
use ibctl.Machine.Handlers.{Agent, Settings, Tick, WindowInfo}
use ibctl.Machine.Handlers.TwoFactor.{some_gateway, shows_form}
use ibctl.Machine.Handlers.Connected.{
  Course, onward, leaves, ◌then◌, with_tracker, contradict, observed, listener, check_api_port,
  check_jvm, prepare, contradictions, check_probe, Probe, probe, probe_needed, probed, do_connected,
  has_button, morph, finish, after, settle, dispatched_to,
}
use ibctl.Machine.Handlers.Steady.Parts.{
  form_since, Spares, some_injective, clear_spares, contradictions-Spares,
}
use ibctl.Machine.Handlers.Steady.Form.{Stayed, Fired, Outcome, finish-Outcome, check_probe-Outcome}

module _ (casing : Casing) where
  -- The Gateway's main window has a login button, or a listed Gateway window has a login form.
  abbrev pub ShowsForm : Agent → AgentObservation → Type 0
  ShowsForm agent observation =
      (has_button (main_gateway_window casing observation) ≡ true)
      ⊎ ((windows : List WindowInfo) × (agent.list_windows 1 ≡ some windows)
          × (some_gateway casing shows_form (agent.dump_components 0) windows ≡ true))

  probe_lem :
      (dump : ℕ → Option Json) (windows : Option (List WindowInfo)) (needed : Bool)
      → (probe casing dump windows needed).login_form ≡ true
      → (listed : List WindowInfo) × (windows ≡ some listed)
        × (some_gateway casing shows_form dump listed ≡ true)
  unfolding probe
  probe_lem dump none needed h = ground (arith, h)
  probe_lem dump (some windows) true h = (windows, refl, h)
  probe_lem dump (some windows) false h = ground (arith, h)

  seen_lem :
      (agent : Agent) (needed : Bool) (o o' : AgentObservation)
      → o' ≡ o
      → (has_button (main_gateway_window casing o')
          || (probe casing (agent.dump_components 0) (agent.list_windows 1) needed).login_form)
        ≡ true
      → ShowsForm agent o
  seen_lem agent needed o o' e h = elim (Bool-cases (has_button (main_gateway_window casing o'))) [
    | inl b ↦ inl (ap (λ o. has_button (main_gateway_window casing o)) (sym e) ∙ b)
    | inr b ↦
        inr
          (probe_lem (agent.dump_components 0) (agent.list_windows 1) needed (ground (arith, b, h)))
  ]

module _ (casing : Casing) {Zoned : Type 0} (agent : Agent) (config : Settings) (now : ℕ) where
  -- What the end of a step says of the login form, from its time before the step.
  abbrev Ends : StateMachine Zoned → Tick Zoned → Type 0
  Ends m tick =
      ((tick.next ≡ some connected)
        → Stayed (ShowsForm casing agent m.observation) now (form_since m)
            (form_since tick.machine))
      × ((tick.next ≡ some waiting_for_login)
          → Fired (ShowsForm casing agent m.observation) now (form_since m))

  probed-Ends :
      (m m' : StateMachine Zoned)
      → m'.observation ≡ m.observation
      → form_since m' ≡ form_since m
      → Ends m (probed casing agent config now m')
  unfolding probed
  probed-Ends m m' o e =
      let Seen = ShowsForm casing agent m.observation in
      let found =
        probe casing (agent.dump_components 0) (agent.list_windows 1)
          (probe_needed casing now (morph casing m')) in
      finish-Outcome Seen now (form_since m) config (dispatched_to (agent.list_windows 1))
        (check_probe casing now found (morph casing m'))
        (subst (λ t. Outcome Seen now t (check_probe casing now found (morph casing m')))
          (clear_spares m'.session.revocation RevocationTag.error_dialog refl ∙ e)
          (check_probe-Outcome Seen now casing found (morph casing m') (
            seen_lem casing agent (probe_needed casing now (morph casing m')) m.observation
              m'.observation o)))

  after-Ends :
      (m : StateMachine Zoned) (c : Course Zoned)
      → Spares m c
      → Ends m (after casing agent config now c)
  after-Ends m (leaves m' s) (l, k) = (
    λ e. absurd (k (some_injective s connected e)),
    λ e. absurd (l (some_injective s waiting_for_login e)),
  )
  after-Ends m (onward m') (o, e) = probed-Ends m m' o e

  do_connected-Ends : (m : StateMachine Zoned) → Ends m (do_connected casing agent config now m)
  unfolding do_connected prepare
  do_connected-Ends m =
      after-Ends (prepare casing agent m) (contradictions casing agent now (prepare casing agent m))
        (contradictions-Spares now casing agent (prepare casing agent m))

-- A step of `do_connected`, with the machine that it began with.
pub record Turn (Zoned : Type 0) : Type 0 where
  pub agent : Agent
  pub config : Settings
  pub now : ℕ
  pub machine : StateMachine Zoned

module _ (casing : Casing) {Zoned : Type 0} where
  abbrev pub step : Turn Zoned → Tick Zoned
  step t = do_connected casing t.agent t.config t.now t.machine

  -- Steps that stay, the latest first, before a step. What comes between two of them leaves the
  -- time of the login form as it was, and there was none before the first.
  abbrev pub Follows : Turn Zoned → List (Turn Zoned) → Type 0
  Follows t [] = form_since t.machine ≡ none
  Follows t (e ∷ earlier) =
      ((step e).next ≡ some connected)
      × (form_since t.machine ≡ form_since (step e).machine)
      × Follows e earlier

  abbrev pub Sees : Turn Zoned → Type 0
  Sees t = ShowsForm casing t.agent t.machine.observation

  -- The steps back to the one at `first` all saw the form.
  abbrev pub SeenSince : ℕ → List (Turn Zoned) → Type 0
  SeenSince first [] = ⊥
  SeenSince first (t ∷ earlier) = Sees t × ((t.now ≡ first) ⊎ SeenSince first earlier)

  seen_since :
      (t : Turn Zoned) (earlier : List (Turn Zoned)) (first : ℕ)
      → Follows t earlier
      → form_since t.machine ≡ some first
      → SeenSince first earlier
  seen_since t [] first h e = ground (arith, h, e)
  seen_since t (s ∷ earlier) first (stays, same, h) e =
      elim ((do_connected-Ends casing s.agent s.config s.now s.machine).0 stays) [
        | inl n ↦ absurd (ground (arith, n, same, e))
        | inr (seen, n) ↦ (
          seen,
          elim (Option-cases (form_since s.machine)) [
            | inl o ↦
                inl (sym (some_injective first s.now (sym e ∙ same ∙ n ∙ ap (or_now s.now) o)))
            | inr (first', o) ↦
                inr
                  (seen_since s earlier first h (o ∙ sym (sym e ∙ same ∙ n ∙ ap (or_now s.now) o)))
          ],
        )
      ]

  -- After steps of `do_connected` that all stayed, of which the first found no time of the login form
  -- and between which that time is not touched, a step leaves for WaitingForLogin only if it sees a
  -- login form and each of the steps saw one, back to a step at least a second ago.
  pub login_form-SeenSince :
      (t : Turn Zoned) (earlier : List (Turn Zoned))
      → Follows t earlier
      → (step t).next ≡ some waiting_for_login
      → Sees t × ((first : ℕ) × (first + 10 ^ 9 ≤ t.now) × SeenSince first earlier)
  login_form-SeenSince t earlier h e =
      let (seen, (first, f, l)) = (do_connected-Ends casing t.agent t.config t.now t.machine).1 e in
      (seen, (first, l, seen_since t earlier first h f))

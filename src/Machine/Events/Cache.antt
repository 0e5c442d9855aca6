-- ===== src/Machine/Events/Cache.antt =====
-- The cache of ibctl/src/agent_events.rs as a map from an id to a window.
use ibctl.Base.{
  ℕ, ◌≡◌, refl, ap, ◌∙◌, Option, none, some, List, [], ◌∷◌, ◌++◌, map, ◌==◌, filter_by, find,
  if◌then◌else◌, arith, Option-cases, inl, inr,
}
use ibctl.Base.Text.{Text, codes}
use ibctl.Base.Words.{join}
use ibctl.TimeSync.{parse_retry_seconds}
use ibctl.Machine.Lifecycle.{ObservedWindow, StateMachine}
use ibctl.Machine.Events.{
  AgentEvent, hello, snapshot, opened, closed, overflow, keepalive, login_form_ready, twofa_prompt,
  error_dialog, connection_status_changed, observed, other_id, apply_snapshot, window_opened,
  window_closed, mark_desync, handle_agent_event, status_changed, reject, error_text, or_empty,
}

-- The first window with the id.
abbrev pub view : List ObservedWindow → ℕ → Option ObservedWindow
view windows id = find (λ w. w.id == id) windows

-- What an event does to the map: a snapshot replaces it.
abbrev pub updated : AgentEvent → (ℕ → Option ObservedWindow) → ℕ → Option ObservedWindow
updated (snapshot _ windows) before id = view (map observed windows) id
updated (opened _ id title class button) before k =
    if id == k
    then some (record { id = id; title = title; class = class; has_login_button = button })
    else before k
updated (closed _ id _) before k = if id == k then none else before k
updated _ before k = before k

view-removed :
    (id k : ℕ) (windows : List ObservedWindow)
    → view (filter_by (other_id id) windows) k ≡ (if id == k then none else view windows k)
view-removed id k [] = ground arith
view-removed id k (w ∷ ws) = ground (arith, view-removed id k ws)

view-append :
    (k : ℕ) (w : ObservedWindow) (windows : List ObservedWindow)
    → view windows k ≡ none
    → view (windows ++ (w ∷ [])) k ≡ (if w.id == k then some w else none)
view-append k w [] h = ground arith
view-append k w (x ∷ xs) h = ground (arith, view-append k w xs)

view-kept :
    (k : ℕ) (w v : ObservedWindow) (windows : List ObservedWindow)
    → view windows k ≡ some v
    → view (windows ++ (w ∷ [])) k ≡ some v
view-kept k w v [] h = ground arith
view-kept k w v (x ∷ xs) h = ground (arith, view-kept k w v xs)

view-opened :
    (w : ObservedWindow) (windows : List ObservedWindow) (k : ℕ)
    → view (filter_by (other_id w.id) windows ++ (w ∷ [])) k
      ≡ (if w.id == k then some w else view windows k)
view-opened w windows k = elim (Option-cases (view (filter_by (other_id w.id) windows) k)) [
  | inl e ↦
      ground (
        arith,
        e,
        view-append k w (filter_by (other_id w.id) windows) e,
        view-removed w.id k windows,
      )
  | inr (v, e) ↦
      ground (
        arith,
        e,
        view-kept k w v (filter_by (other_id w.id) windows) e,
        view-removed w.id k windows,
      )
]

module _ {Zoned : Type 0} where
  abbrev windows_of : StateMachine Zoned → List ObservedWindow
  windows_of m = m.observation.windows

  rejected_windows :
      (now : ℕ) (wait : Option ℕ) (m : StateMachine Zoned)
      → windows_of (reject now wait m) ≡ windows_of m
  unfolding reject
  rejected_windows now none m = refl
  rejected_windows now (some n) m = refl

  error_windows :
      (now : ℕ) (combined : Text) (m : StateMachine Zoned)
      → windows_of (error_text now combined m).0 ≡ windows_of m
  unfolding error_text
  error_windows now combined m =
      ground (arith, rejected_windows now (parse_retry_seconds combined) m)

  changed_windows :
      (now : ℕ) (to : Text) (m : StateMachine Zoned)
      → windows_of (status_changed now to m) ≡ windows_of m
  unfolding status_changed
  changed_windows now to m = ground arith

  step_lem :
      (now : ℕ) (e : AgentEvent) (m : StateMachine Zoned) (k : ℕ)
      → view (windows_of (handle_agent_event now e m).0) k ≡ updated e (view (windows_of m)) k
  unfolding handle_agent_event apply_snapshot window_opened window_closed mark_desync
  step_lem now (hello _) m k = refl
  step_lem now (snapshot _ _) m k = refl
  step_lem now (opened _ id title class button) m k =
      view-opened (record { id = id; title = title; class = class; has_login_button = button })
        (windows_of m) k
  step_lem now (closed _ id _) m k = view-removed id k (windows_of m)
  step_lem now overflow m k = refl
  step_lem now keepalive m k = refl
  step_lem now (login_form_ready _ _ _ _) m k = refl
  step_lem now (twofa_prompt _ _) m k = refl
  step_lem now (error_dialog title text buttons) m k =
      ap (λ ws. view ws k)
        (error_windows now
          (join (codes " ") (title ∷ or_empty text ∷ join (codes " ") buttons ∷ [])) m)
  step_lem now (connection_status_changed from to) m k =
      ap (λ ws. view ws k) (changed_windows now to m)

-- The events in order, each with its instant.
abbrev pub handle_agent_events :
    {Zoned : Type 0} → List (ℕ × AgentEvent) → StateMachine Zoned → StateMachine Zoned
handle_agent_events [] m = m
handle_agent_events ((now, e) ∷ es) m = handle_agent_events es (handle_agent_event now e m).0

abbrev pub updates : List (ℕ × AgentEvent) → (ℕ → Option ObservedWindow) → ℕ → Option ObservedWindow
updates [] before = before
updates ((_, e) ∷ es) before = updates es (updated e before)

updated_at :
    (e : AgentEvent) (f g : ℕ → Option ObservedWindow) (k : ℕ)
    → f k ≡ g k
    → updated e f k ≡ updated e g k
updated_at (snapshot _ _) f g k h = refl
updated_at (opened _ id _ _ _) f g k h = ground (arith, h)
updated_at (closed _ id _) f g k h = ground (arith, h)
updated_at (hello _) f g k h = h
updated_at overflow f g k h = h
updated_at keepalive f g k h = h
updated_at (login_form_ready _ _ _ _) f g k h = h
updated_at (twofa_prompt _ _) f g k h = h
updated_at (error_dialog _ _ _) f g k h = h
updated_at (connection_status_changed _ _) f g k h = h

updates_at :
    (es : List (ℕ × AgentEvent)) (f g : ℕ → Option ObservedWindow) (k : ℕ)
    → f k ≡ g k
    → updates es f k ≡ updates es g k
updates_at [] f g k h = h
updates_at ((_, e) ∷ es) f g k h =
    updates_at es (updated e f) (updated e g) k (updated_at e f g k h)

-- The list of windows implements a map from ids: after any events, the window that it has under an
-- id is the one that the events give one after the other, where a snapshot replaces the map, an
-- opened window overwrites its id, a closed one removes it, and no other event changes anything.
pub handle_agent_events-view :
    {Zoned : Type 0} (es : List (ℕ × AgentEvent)) (m : StateMachine Zoned) (k : ℕ)
    → view (handle_agent_events es m).observation.windows k
      ≡ updates es (view m.observation.windows) k
handle_agent_events-view [] m k = refl
handle_agent_events-view ((now, e) ∷ es) m k =
    handle_agent_events-view es (handle_agent_event now e m).0 k
    ∙ updates_at es _ _ k (step_lem now e m k)

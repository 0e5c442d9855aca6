-- ===== src/Machine/Revocation/Tests.antt =====
-- A revocation at a concrete history.
use ibctl.Base.{ℕ, ◌+◌, ◌≡◌, ◌≤◌, ◌↔◌, ◌⊎◌, refl, none, some, List, [], ◌∷◌}
use ibctl.Machine.Revocation.{
  login_form_visible, error_dialog, tag, debounce, observe, from_millis, get, tag_eq, clear,
}
use ibctl.Machine.Revocation.Debounce.{Event, observed, cleared, run, since, observe-run}

-- The login form since the second 10, an error dialog that went away.
abbrev history : List Event
history =
    observed login_form_visible (from_millis 10_500)
    ∷ cleared error_dialog
    ∷ observed (error_dialog []) (from_millis 10_200)
    ∷ observed login_form_visible (from_millis 10_000)
    ∷ []

matured_test :
    (observe (run history) login_form_visible (from_millis 11_000)).1 ≡ some login_form_visible
unfolding observe run clear get tag_eq tag debounce
matured_test = refl

observe-run_example :
    (((observe (run history) login_form_visible (from_millis 11_000)).1 ≡ some login_form_visible)
      ↔ ((debounce login_form_visible ≡ 0)
          ⊎ ((first : ℕ) × (since history (tag login_form_visible) ≡ some first)
              × (first + debounce login_form_visible ≤ from_millis 11_000))))
    × (((observe (run history) login_form_visible (from_millis 11_000)).1 ≡ none)
        ⊎ ((observe (run history) login_form_visible (from_millis 11_000)).1
            ≡ some login_form_visible))
observe-run_example = observe-run history login_form_visible (from_millis 11_000)

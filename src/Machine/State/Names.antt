-- ===== src/Machine/State/Names.antt =====
-- The names of the states, ibctl/src/state_machine/types.rs.
use ibctl.Base.{
  ℕ, ◌-◌, ◌≡◌, ◌↔◌, refl, sym, ap, ◌∙◌, true, false, some, List, [], ◌∷◌, ◌==◌, if◌then◌else◌,
  arith, All, ==_iff, Bool-cases, inl, inr,
}
use ibctl.Base.Text.{Text, text_eq, text_eq→eq, text_eq_self}
use ibctl.Machine.State.{
  State, waiting_for_launch, init, launching, waiting_for_agent, waiting_for_login, authenticating,
  waiting_for2fa, handling_session_conflict, dismissing_popups, waiting_for_api_ready,
  configuring_api, connected, reconnecting_session, restarting, waiting_for_ib, waiting_for_hitl2fa,
  shutdown, error, variant, message, state_eq, from_name, display, lookup, names,
}

unfoldable nth : ℕ → Text → List State → State
nth n msg [] = error msg
nth n msg (s ∷ ss) = if n == 0 then s else nth (n - 1) msg ss

abbrev unit_states : List State
unit_states =
    waiting_for_launch ∷ init ∷ launching ∷ waiting_for_agent ∷ waiting_for_login ∷ authenticating
    ∷ waiting_for2fa ∷ handling_session_conflict ∷ dismissing_popups ∷ waiting_for_api_ready
    ∷ configuring_api ∷ connected ∷ reconnecting_session ∷ restarting ∷ waiting_for_ib
    ∷ waiting_for_hitl2fa ∷ shutdown ∷ []

nth-variant : (s : State) → nth (variant s) (message s) unit_states ≡ s
unfolding nth
nth-variant waiting_for_launch = refl
nth-variant init = refl
nth-variant launching = refl
nth-variant waiting_for_agent = refl
nth-variant waiting_for_login = refl
nth-variant authenticating = refl
nth-variant waiting_for2fa = refl
nth-variant handling_session_conflict = refl
nth-variant dismissing_popups = refl
nth-variant waiting_for_api_ready = refl
nth-variant configuring_api = refl
nth-variant connected = refl
nth-variant reconnecting_session = refl
nth-variant restarting = refl
nth-variant waiting_for_ib = refl
nth-variant waiting_for_hitl2fa = refl
nth-variant shutdown = refl
nth-variant (error msg) = refl

state_eq_self : (s : State) → state_eq s s ≡ true
unfolding state_eq
state_eq_self s = ground (arith, text_eq_self (message s))

-- The derived equality decides equality.
pub state_eq_iff : (a b : State) → (state_eq a b ≡ true) ↔ (a ≡ b)
unfolding state_eq
state_eq_iff a b = (
  λ e.
      let (same, _) = ==_iff (variant a) (variant b) in
      sym (nth-variant a)
      ∙ ap (λ n. nth n (message a) unit_states) (same (ground arith))
      ∙ ap (λ m. nth (variant b) m unit_states) (text_eq→eq (message a) (message b) (ground arith))
      ∙ nth-variant b,
  λ e. ap (λ s. state_eq s b) e ∙ state_eq_self b,
)

-- The entry prints as its name, and is no error.
abbrev IsNamed : Text × State → Type 0
IsNamed (key, s) = (display s ≡ key) × ((variant s == 17) ≡ false)

lookup-IsNamed :
    (name : Text) (entries : List (Text × State)) (s : State)
    → All IsNamed entries
    → lookup name entries ≡ some s
    → (display s ≡ name) × ((variant s == 17) ≡ false)
lookup-IsNamed name [] s p e = ground arith
lookup-IsNamed name ((key, state) ∷ rest) s (p, ps) e = elim (Bool-cases (text_eq name key)) [
  | inl t ↦ ground (arith, t, text_eq→eq name key t)
  | inr f ↦ lookup-IsNamed name rest s ps (ground (arith, f))
]

names-IsNamed : All IsNamed names
unfolding display
names-IsNamed = ground arith

from_name-display : (s : State) → (variant s == 17) ≡ false → from_name (display s) ≡ some s
unfolding from_name display text_eq
from_name-display waiting_for_launch h = refl
from_name-display init h = refl
from_name-display launching h = refl
from_name-display waiting_for_agent h = refl
from_name-display waiting_for_login h = refl
from_name-display authenticating h = refl
from_name-display waiting_for2fa h = refl
from_name-display handling_session_conflict h = refl
from_name-display dismissing_popups h = refl
from_name-display waiting_for_api_ready h = refl
from_name-display configuring_api h = refl
from_name-display connected h = refl
from_name-display reconnecting_session h = refl
from_name-display restarting h = refl
from_name-display waiting_for_ib h = refl
from_name-display waiting_for_hitl2fa h = refl
from_name-display shutdown h = refl
from_name-display (error msg) h = ground arith

-- A text names a state exactly if it is what the state prints, except that no text names an error.
pub from_name_iff :
    (name : Text) (s : State)
    → (from_name name ≡ some s) ↔ ((display s ≡ name) × ((variant s == 17) ≡ false))
unfolding from_name
from_name_iff name s = (
  lookup-IsNamed name names s names-IsNamed,
  λ (p, q). ap from_name (sym p) ∙ from_name-display s q,
)

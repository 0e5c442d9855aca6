-- ===== src/Machine/Revocation.antt =====
-- ibctl/src/state_machine/revocation.rs: which evidence revokes the Connected state, and after how
-- long. The map from tags is an association list with one entry for a tag. An `Instant` is a number
-- of nanoseconds, which `observe` takes as an argument for `Instant::now()`.
pub mod Debounce
mod Tests
use ibctl.Base.{
  ℕ, ◌*◌, ◌-◌, Bool, true, false, not, Option, none, some, List, [], ◌∷◌, ◌==◌, leb, if◌then◌else◌,
  is_some,
}
use ibctl.Base.Text.{Text}
use ibctl.Machine.State.{
  State, restarting, reconnecting_session, handling_session_conflict, waiting_for_login,
}

pub data RevocationTag : Type 0 where
  jvm_died error_dialog relogin_dialog session_conflict login_form_visible : RevocationTag
  disconnected_label_stable connection_status_event window_class_morphed : RevocationTag
  api_port_listener_lost : RevocationTag

pub data RevocationSource : Type 0 where
  jvm_died relogin_dialog session_conflict login_form_visible : RevocationSource
  disconnected_label_stable connection_status_event api_port_listener_lost : RevocationSource
  error_dialog : Text → RevocationSource
  window_class_morphed : Text → Text → RevocationSource

abbrev pub tag_number : RevocationTag → ℕ
tag_number jvm_died = 0
tag_number error_dialog = 1
tag_number relogin_dialog = 2
tag_number session_conflict = 3
tag_number login_form_visible = 4
tag_number disconnected_label_stable = 5
tag_number connection_status_event = 6
tag_number window_class_morphed = 7
tag_number api_port_listener_lost = 8

-- The derived `==`
unfoldable pub tag_eq : RevocationTag → RevocationTag → Bool
tag_eq a b = tag_number a == tag_number b

unfoldable pub tag : RevocationSource → RevocationTag
tag jvm_died = jvm_died
tag (error_dialog _) = error_dialog
tag relogin_dialog = relogin_dialog
tag session_conflict = session_conflict
tag login_form_visible = login_form_visible
tag disconnected_label_stable = disconnected_label_stable
tag connection_status_event = connection_status_event
tag (window_class_morphed _ _) = window_class_morphed
tag api_port_listener_lost = api_port_listener_lost

-- `Duration::from_millis`
abbrev pub from_millis : ℕ → ℕ
from_millis ms = ms * 1_000_000

unfoldable pub debounce : RevocationSource → ℕ
debounce jvm_died = from_millis 0
debounce (error_dialog _) = from_millis 500
debounce relogin_dialog = from_millis 0
debounce session_conflict = from_millis 0
debounce login_form_visible = from_millis 1000
debounce disconnected_label_stable = from_millis 2000
debounce connection_status_event = from_millis 2000
debounce (window_class_morphed _ _) = from_millis 500
debounce api_port_listener_lost = from_millis 0

unfoldable pub next_state : RevocationSource → State
next_state jvm_died = restarting
next_state (error_dialog _) = restarting
next_state relogin_dialog = reconnecting_session
next_state session_conflict = handling_session_conflict
next_state login_form_visible = waiting_for_login
next_state disconnected_label_stable = reconnecting_session
next_state connection_status_event = reconnecting_session
next_state (window_class_morphed _ _) = waiting_for_login
next_state api_port_listener_lost = restarting

abbrev pub Tracker : Type 0
Tracker = List (RevocationTag × (ℕ × RevocationSource))

unfoldable pub get : Tracker → RevocationTag → Option (ℕ × RevocationSource)
unfolding tag_eq
get [] t = none
get ((t', v) ∷ rest) t = if tag_eq t' t then some v else get rest t

-- `observe` at the instant `now`: the tracker after it, and the source if it has matured.
unfoldable pub observe : Tracker → RevocationSource → ℕ → Tracker × Option RevocationSource
unfolding tag debounce get tag_eq
observe tracker source now = elim (get tracker (tag source)) [
  | some (first, _) ↦ (tracker, if leb (debounce source) (now - first) then some source else none)
  | none ↦
      ((tag source, (now, source)) ∷ tracker, if debounce source == 0 then some source else none)
]

unfoldable pub clear : Tracker → RevocationTag → Tracker
unfolding tag_eq
clear [] t = []
clear ((t', v) ∷ rest) t =
    let others = clear rest t in if tag_eq t' t then others else (t', v) ∷ others

abbrev pub clear_all : Tracker → Tracker
clear_all tracker = []

abbrev pub any_pending : Tracker → Bool
any_pending [] = false
any_pending (_ ∷ _) = true

abbrev pub is_pending : Tracker → RevocationTag → Bool
is_pending tracker t = is_some (get tracker t)

-- ===== src/Dialogs/ApiConfig/Pages.antt =====
-- ibctl/src/handlers/api_config.rs: the pages of the Gateway's dialog.
use ibctl.Base.{ℕ, ◌+◌, Bool, true, false, ◌||◌, Option, none, some, List, [], ◌∷◌, if◌then◌else◌}
use ibctl.Base.Text.{Text, codes}
use ibctl.Base.Decimal.{decimal}
use ibctl.Base.Words.{split_whitespace}
use ibctl.Dialogs.{
  AgentClient, Act, clicked, node_selected, typed, typed_by_label, chosen, checked, pure, ◌>>=◌,
  ◌>>◌, ask, agreed,
}
use ibctl.Dialogs.ApiConfig.Settings.{is_missing, precaution_labels}
use ibctl.Dialogs.ApiConfig.Screen.{dismiss_popups}

-- The labels that were answered as not found; an error counts for nothing.
unfoldable pub apply_precaution_labels : AgentClient → ℕ → Bool → List Text → ℕ → Act ℕ
unfolding ask ◌>>=◌
apply_precaution_labels client cid bypass [] missing = pure missing
apply_precaution_labels client cid bypass (label ∷ labels) missing =
    ask client (checked cid label bypass) >>= λ a.
    apply_precaution_labels client cid bypass labels (if is_missing a then missing + 1 else missing)

-- The field of the port is looked for by its label first.
unfoldable pub set_port : AgentClient → ℕ → Option ℕ → Act (Unit {0})
unfolding ask ◌>>=◌
set_port client cid none = pure tt
set_port client cid (some port) = do
  a ← ask client (typed_by_label cid (codes "Socket port") (decimal port))
  (if agreed a then pure tt else (ask client (typed cid 0 (decimal port)) >> pure tt))

unfoldable pub set_client_id : AgentClient → ℕ → Option Text → Act (Unit {0})
unfolding ask ◌>>=◌
set_client_id client cid none = pure tt
set_client_id client cid (some id) = ask client (typed cid 1 id) >> pure tt

abbrev pub read_only_label : Text
read_only_label = codes "Read-Only API"

abbrev pub counted : Bool → ℕ
counted true = 1
counted false = 0

-- A label that is missing in both steps of the toggle counts once.
unfoldable pub set_read_only : AgentClient → ℕ → Option Bool → Act ℕ
unfolding ask ◌>>=◌
set_read_only client cid none = pure 0
set_read_only client cid (some true) =
    ask client (checked cid read_only_label true) >>= λ a. pure (counted (is_missing a))
set_read_only client cid (some false) = do
  a ← ask client (checked cid read_only_label true)
  b ← ask client (checked cid read_only_label false)
  pure (counted (is_missing a || is_missing b))

unfoldable pub set_timezone : AgentClient → ℕ → Option Text → Act (Unit {0})
unfolding ask ◌>>=◌
set_timezone client cid none = pure tt
set_timezone client cid (some timezone) =
    ask client (
      chosen cid (codes "Send instrument-specific attributes for dual-mode API client in") timezone)
    >> pure tt

unfoldable pub set_precautions : AgentClient → ℕ → Option Bool → Act ℕ
unfolding apply_precaution_labels dismiss_popups ask ◌>>=◌
set_precautions client cid none = pure 0
set_precautions client cid (some bypass) = do
  ask client (node_selected cid (codes "Precautions"))
  missing ← apply_precaution_labels client cid bypass precaution_labels 0
  dismiss_popups client cid
  pure missing

-- The time and the half of the day, which is the afternoon if none is given.
unfoldable pub parse_time_with_ampm : Text → Text × Text
unfolding split_whitespace
parse_time_with_ampm input = elim (split_whitespace input) [
  | [] ↦ (input, codes "PM")
  | time ∷ [] ↦ (time, codes "PM")
  | time ∷ half ∷ _ ↦ (time, half)
]

abbrev pub enter_time : AgentClient → ℕ → Text → Text → Act (Unit {0})
enter_time client cid time button = do
  ask client (typed cid 0 (parse_time_with_ampm time).0)
  ask client (clicked cid (parse_time_with_ampm time).1)
  ask client (clicked cid button)
  pure tt

-- The restart's time goes before the logoff's.
unfoldable pub set_times : AgentClient → ℕ → Option Text → Option Text → Act (Unit {0})
unfolding parse_time_with_ampm dismiss_popups ask ◌>>=◌
set_times client cid (some restart) logoff = do
  ask client (node_selected cid (codes "Lock and Exit"))
  enter_time client cid restart (codes "Auto restart")
  dismiss_popups client cid
set_times client cid none (some logoff) = do
  ask client (node_selected cid (codes "Lock and Exit"))
  enter_time client cid logoff (codes "Auto logoff")
set_times client cid none none = pure tt

-- ===== src/Dialogs/ApiConfig/Marks.antt =====
-- ibctl/src/handlers/api_config.rs: what the log of requests says of the options that were set.
use ibctl.Base.{
  ℕ, ◌+◌, ◌≡◌, refl, Bool, true, false, ◌||◌, Option, none, some, List, [], ◌∷◌, All, ◌==◌, arith,
  if◌then◌else◌,
}
use ibctl.Base.Text.{Text, codes}
use ibctl.Machine.Handlers.{WindowInfo}
use ibctl.Dialogs.{
  Request, AgentClient, clicked, node_selected, typed, typed_by_label, typed_best, chosen, checked,
  key_sent, windows_listed, dumped, captured, menu_clicked, clicked_at, ask, list_windows,
}
use ibctl.Dialogs.Keeps.{
  Keeps, Grows, Keeps-pure, Keeps-bind, Keeps-if, Keeps-ask, Keeps-list_windows,
}
use ibctl.Dialogs.ApiConfig.Settings.{is_missing, precaution_labels}
use ibctl.Dialogs.ApiConfig.Screen.{sweep, dismiss_popups, or_no_windows}
use ibctl.Dialogs.ApiConfig.Pages.{
  apply_precaution_labels, set_port, set_client_id, set_read_only, set_timezone, set_precautions,
  set_times, enter_time, read_only_label, counted,
}

-- A request that sets an option.
abbrev pub sets : Request → Bool
sets (typed _ _ _) = true
sets (typed_by_label _ _ _) = true
sets (typed_best _ _) = true
sets (chosen _ _ _) = true
sets (checked _ _ _) = true
sets (key_sent _ _) = true
sets _ = false

-- A request that sets an option sets it in this window.
abbrev pub InWindow : ℕ → Request → Type 0
InWindow cid (typed id _ _) = id ≡ cid
InWindow cid (typed_by_label id _ _) = id ≡ cid
InWindow cid (typed_best id _) = id ≡ cid
InWindow cid (chosen id _ _) = id ≡ cid
InWindow cid (checked id _ _) = id ≡ cid
InWindow cid (key_sent id _) = id ≡ cid
InWindow cid _ = Unit {0}

-- Every way to set an option in the window but a checkbox keeps it.
pub record Tame (I : List Request → Type 0) (cid : ℕ) : Type 0 where
  pub quiet : (r : Request) → sets r ≡ false → Grows I r
  pub typing : (n : ℕ) (text : Text) → Grows I (typed cid n text)
  pub labelled : (label text : Text) → Grows I (typed_by_label cid label text)
  pub choosing : (label text : Text) → Grows I (chosen cid label text)

module _ {I : List Request → Type 0} (cid : ℕ) (tame : Tame I cid) (client : AgentClient) where
  pub ask_quiet : (r : Request) → sets r ≡ false → Keeps I (ask client r)
  ask_quiet r e = Keeps-ask client r (tame.quiet r e)

  ask_typed : (n : ℕ) (text : Text) → Keeps I (ask client (typed cid n text))
  ask_typed n text = Keeps-ask client _ (tame.typing n text)

  ask_labelled : (label text : Text) → Keeps I (ask client (typed_by_label cid label text))
  ask_labelled label text = Keeps-ask client _ (tame.labelled label text)

  ask_chosen : (label text : Text) → Keeps I (ask client (chosen cid label text))
  ask_chosen label text = Keeps-ask client _ (tame.choosing label text)

  list_quiet : Keeps I (list_windows client)
  list_quiet = Keeps-list_windows client (tame.quiet windows_listed refl)

  ruleset tame_rules =
      (Keeps-pure, Keeps-bind, Keeps-if, ask_quiet, ask_typed, ask_labelled, ask_chosen, list_quiet)

  Keeps-sweep : (ws : List WindowInfo) → Keeps I (sweep client cid ws)
  unfolding sweep
  Keeps-sweep [] = search tame_rules
  Keeps-sweep (w ∷ ws) =
      let rest = Keeps-sweep ws in
      Keeps-if (w.id == cid) _ _ rest (
        Keeps-bind _ _
          (Keeps-bind _ _ (ask_quiet (clicked w.id (codes "Yes")) refl)
            (λ _. ask_quiet (clicked w.id (codes "OK")) refl))
          (λ _. rest))

  pub Keeps-dismiss_popups : Keeps I (dismiss_popups client cid)
  unfolding dismiss_popups
  Keeps-dismiss_popups = Keeps-bind _ _ list_quiet (λ ws. Keeps-sweep (or_no_windows ws))

  pub Keeps-set_port : (port : Option ℕ) → Keeps I (set_port client cid port)
  unfolding set_port
  Keeps-set_port none = search tame_rules
  Keeps-set_port (some port) = search tame_rules

  pub Keeps-set_client_id : (id : Option Text) → Keeps I (set_client_id client cid id)
  unfolding set_client_id
  Keeps-set_client_id none = search tame_rules
  Keeps-set_client_id (some id) = search tame_rules

  pub Keeps-set_timezone : (timezone : Option Text) → Keeps I (set_timezone client cid timezone)
  unfolding set_timezone
  Keeps-set_timezone none = search tame_rules
  Keeps-set_timezone (some timezone) = search tame_rules

  Keeps-enter_time : (time button : Text) → Keeps I (enter_time client cid time button)
  Keeps-enter_time time button = search tame_rules

  pub Keeps-set_times :
      (restart logoff : Option Text) → Keeps I (set_times client cid restart logoff)
  unfolding set_times
  Keeps-set_times none none = search tame_rules
  Keeps-set_times none (some logoff) = search tame_rules
  Keeps-set_times (some restart) logoff =
      Keeps-bind _ _ (ask_quiet (node_selected cid (codes "Lock and Exit")) refl) (λ _.
        Keeps-bind _ _ (Keeps-enter_time restart (codes "Auto restart"))
          (λ _. Keeps-dismiss_popups))

pub quiet-InWindow : (cid : ℕ) (r : Request) → sets r ≡ false → InWindow cid r
quiet-InWindow cid windows_listed e = tt
quiet-InWindow cid (dumped _) e = tt
quiet-InWindow cid (captured _) e = tt
quiet-InWindow cid (clicked _ _) e = tt
quiet-InWindow cid (menu_clicked _ _) e = tt
quiet-InWindow cid (node_selected _ _) e = tt
quiet-InWindow cid (clicked_at _ _ _) e = tt
quiet-InWindow cid (typed _ _ _) e = ground (arith, e)
quiet-InWindow cid (typed_by_label _ _ _) e = ground (arith, e)
quiet-InWindow cid (typed_best _ _) e = ground (arith, e)
quiet-InWindow cid (chosen _ _ _) e = ground (arith, e)
quiet-InWindow cid (checked _ _ _) e = ground (arith, e)
quiet-InWindow cid (key_sent _ _) e = ground (arith, e)

pub checking-InWindow :
    (cid : ℕ) (label : Text) (b : Bool) → Grows (All (InWindow cid)) (checked cid label b)
checking-InWindow cid label b log h = (refl, h)

pub Tame-InWindow : (cid : ℕ) → Tame (All (InWindow cid)) cid
Tame-InWindow cid = record {
  quiet = λ r e log h. (quiet-InWindow cid r e, h);
  typing = λ n text log h. (refl, h);
  labelled = λ label text log h. (refl, h);
  choosing = λ label text log h. (refl, h);
}

module _ {I : List Request → Type 0} (cid : ℕ) (tame : Tame I cid)
    (checking : (label : Text) (b : Bool) → Grows I (checked cid label b))
    (client : AgentClient) where
  Keeps-checked : (label : Text) (b : Bool) → Keeps I (ask client (checked cid label b))
  Keeps-checked label b = Keeps-ask client _ (checking label b)

  pub Keeps-apply_precaution_labels :
      (bypass : Bool) (labels : List Text) (missing : ℕ)
      → Keeps I (apply_precaution_labels client cid bypass labels missing)
  unfolding apply_precaution_labels
  Keeps-apply_precaution_labels bypass [] missing = Keeps-pure missing
  Keeps-apply_precaution_labels bypass (label ∷ labels) missing =
      Keeps-bind _ _ (Keeps-checked label bypass) (λ a.
        Keeps-apply_precaution_labels bypass labels (if is_missing a then missing + 1 else missing))

  pub Keeps-set_precautions : (bypass : Option Bool) → Keeps I (set_precautions client cid bypass)
  unfolding set_precautions
  Keeps-set_precautions none = Keeps-pure 0
  Keeps-set_precautions (some bypass) =
      Keeps-bind _ _ (ask_quiet cid tame client (node_selected cid (codes "Precautions")) refl)
        (λ _. Keeps-bind _ _ (Keeps-apply_precaution_labels bypass precaution_labels 0) (λ missing.
          Keeps-bind _ _ (Keeps-dismiss_popups cid tame client) (λ _. Keeps-pure missing)))

  pub Keeps-set_read_only : (read_only : Option Bool) → Keeps I (set_read_only client cid read_only)
  unfolding set_read_only
  Keeps-set_read_only none = Keeps-pure 0
  Keeps-set_read_only (some true) =
      Keeps-bind _ _ (Keeps-checked read_only_label true) (λ a. Keeps-pure (counted (is_missing a)))
  Keeps-set_read_only (some false) = Keeps-bind _ _ (Keeps-checked read_only_label true) (λ a.
      Keeps-bind _ _ (Keeps-checked read_only_label false)
        (λ b. Keeps-pure (counted (is_missing a || is_missing b))))

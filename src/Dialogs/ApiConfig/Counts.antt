-- ===== src/Dialogs/ApiConfig/Counts.antt =====
-- ibctl/src/handlers/api_config.rs: the checkboxes that the agent answered as not found.
use ibctl.Base.{
  ℕ, ◌+◌, ◌≡◌, ◌∙◌, refl, Bool, true, false, ◌&&◌, Option, none, some, List, [], ◌∷◌, All, any,
  arith, min,
}
use ibctl.Base.Text.{Text, codes, text_eq}
use ibctl.Dialogs.{
  Request, AgentClient, Desk, clicked, node_selected, typed, typed_by_label, typed_best, chosen,
  checked, key_sent, windows_listed, dumped, captured, menu_clicked, clicked_at, ◌>>=◌, ask,
}
use ibctl.Dialogs.Keeps.{Grows}
use ibctl.Dialogs.ApiConfig.Settings.{is_missing, precaution_labels}
use ibctl.Dialogs.ApiConfig.Screen.{dismiss_popups}
use ibctl.Dialogs.ApiConfig.Pages.{
  apply_precaution_labels, set_read_only, set_precautions, read_only_label, counted,
}
use ibctl.Dialogs.ApiConfig.Marks.{sets, Tame, ask_quiet, Keeps-dismiss_popups}

-- A checkbox whose label is one of these.
abbrev checks : (Text → Bool) → Request → Bool
checks p (checked _ label _) = p label
checks p _ = false

-- How many of these checkboxes the agent answered as not found.
unfoldable pub not_found : AgentClient → (Text → Bool) → List Request → ℕ
not_found client p [] = 0
not_found client p (r ∷ log) =
    not_found client p log + counted (checks p r && is_missing (client.agrees log r))

abbrev pub is_precaution : Text → Bool
is_precaution label = any (text_eq label) precaution_labels

abbrev pub is_read_only : Text → Bool
is_read_only label = text_eq label read_only_label

-- Requests that check nothing leave the count as it was.
abbrev Counts : AgentClient → (Text → Bool) → ℕ → List Request → Type 0
Counts client p n log = not_found client p log ≡ n

module _ (client : AgentClient) (cid : ℕ) (p : Text → Bool) (n : ℕ) where
  unchecked : (r : Request) → sets r ≡ false → checks p r ≡ false
  unchecked windows_listed e = refl
  unchecked (dumped _) e = refl
  unchecked (captured _) e = refl
  unchecked (clicked _ _) e = refl
  unchecked (menu_clicked _ _) e = refl
  unchecked (node_selected _ _) e = refl
  unchecked (clicked_at _ _ _) e = refl
  unchecked (typed _ _ _) e = refl
  unchecked (typed_by_label _ _ _) e = refl
  unchecked (typed_best _ _) e = refl
  unchecked (chosen _ _ _) e = refl
  unchecked (checked _ _ _) e = ground (arith, e)
  unchecked (key_sent _ _) e = refl

  pub quiet-Counts : (r : Request) → sets r ≡ false → Grows (Counts client p n) r
  unfolding not_found
  quiet-Counts r e log h = ground (arith, h, unchecked r e)

  pub Tame-Counts : Tame (Counts client p n) cid
  unfolding not_found
  Tame-Counts = record {
    quiet = quiet-Counts;
    typing = λ k text log h. ground (arith, h);
    labelled = λ label text log h. ground (arith, h);
    choosing = λ label text log h. ground (arith, h);
  }

-- The labels that count add the ones that are reported as missing.
apply_precaution_labels-Counts :
    (client : AgentClient) (cid : ℕ) (p : Text → Bool) (bypass : Bool) (labels : List Text)
    (missing : ℕ) (d : Desk)
    → All (λ label. p label ≡ true) labels
    → let (k, d') = apply_precaution_labels client cid bypass labels missing d in
      not_found client p d'.log + missing ≡ not_found client p d.log + k
unfolding apply_precaution_labels ask ◌>>=◌ not_found
apply_precaution_labels-Counts client cid p bypass [] missing d h = refl
apply_precaution_labels-Counts client cid p bypass (label ∷ labels) missing d (l, h) = ground (
  arith,
  l,
  apply_precaution_labels-Counts client cid p bypass labels missing
      (ask client (checked cid label bypass) d).1 h,
  apply_precaution_labels-Counts client cid p bypass labels (missing + 1)
      (ask client (checked cid label bypass) d).1 h,
)

other_labels-Counts :
    (client : AgentClient) (cid : ℕ) (p : Text → Bool) (bypass : Bool) (labels : List Text)
    (missing : ℕ) (d : Desk)
    → All (λ label. p label ≡ false) labels
    → not_found client p (apply_precaution_labels client cid bypass labels missing d).1.log
      ≡ not_found client p d.log
unfolding apply_precaution_labels ask ◌>>=◌ not_found
other_labels-Counts client cid p bypass [] missing d h = refl
other_labels-Counts client cid p bypass (label ∷ labels) missing d (l, h) = ground (
  arith,
  l,
  other_labels-Counts client cid p bypass labels missing (ask client (checked cid label bypass) d).1
      h,
  other_labels-Counts client cid p bypass labels (missing + 1)
      (ask client (checked cid label bypass) d).1 h,
)

precautions : All (λ label. is_precaution label ≡ true) precaution_labels
unfolding text_eq
precautions = (refl, (refl, (refl, (refl, (refl, (refl, (refl, (refl, (refl, tt)))))))))

precautions_not_read_only : All (λ label. is_read_only label ≡ false) precaution_labels
unfolding text_eq
precautions_not_read_only =
    (refl, (refl, (refl, (refl, (refl, (refl, (refl, (refl, (refl, tt)))))))))

read_only_not_precaution : is_precaution read_only_label ≡ false
unfolding text_eq
read_only_not_precaution = refl

read_only_is : is_read_only read_only_label ≡ true
unfolding text_eq
read_only_is = refl

module _ (client : AgentClient) (cid : ℕ) where
  selected :
      (p : Text → Bool) (d : Desk)
      → not_found client p (ask client (node_selected cid (codes "Precautions")) d).1.log
        ≡ not_found client p d.log
  selected p d =
      (ask_quiet cid (Tame-Counts client cid p (not_found client p d.log)) client
          (node_selected cid (codes "Precautions")) refl).at
        d refl

  dismissed :
      (p : Text → Bool) (d : Desk)
      → not_found client p (dismiss_popups client cid d).1.log ≡ not_found client p d.log
  dismissed p d =
      (Keeps-dismiss_popups cid (Tame-Counts client cid p (not_found client p d.log)) client).at d
        refl

  pub set_precautions-not_found :
      (bypass : Option Bool) (d : Desk)
      → let (k, d') = set_precautions client cid bypass d in
        (not_found client is_precaution d'.log ≡ not_found client is_precaution d.log + k)
        × (not_found client is_read_only d'.log ≡ not_found client is_read_only d.log)
  unfolding set_precautions ◌>>=◌
  set_precautions-not_found none d = (omega arith, refl)
  set_precautions-not_found (some bypass) d =
      let page = (ask client (node_selected cid (codes "Precautions")) d).1 in
      let swept = (apply_precaution_labels client cid bypass precaution_labels 0 page).1 in
      let other = is_read_only in
      (
        ground (
          arith,
          selected is_precaution d,
          apply_precaution_labels-Counts client cid is_precaution bypass precaution_labels 0 page
              precautions,
          dismissed is_precaution swept,
        ),
        dismissed other swept
            ∙ other_labels-Counts client cid other bypass precaution_labels 0 page
                precautions_not_read_only
            ∙ selected other d,
      )

  pub set_read_only-not_found :
      (read_only : Option Bool) (d : Desk)
      → let (k, d') = set_read_only client cid read_only d in
        (not_found client is_precaution d'.log ≡ not_found client is_precaution d.log)
        × (not_found client is_read_only d.log ≡ 0
            → k ≡ min 1 (not_found client is_read_only d'.log))
  unfolding set_read_only ask ◌>>=◌ not_found
  set_read_only-not_found none d = (refl, λ e. ground (arith, e))
  set_read_only-not_found (some true) d =
      (ground (arith, read_only_not_precaution), λ e. ground (arith, e, read_only_is))
  set_read_only-not_found (some false) d =
      (ground (arith, read_only_not_precaution), λ e. ground (arith, e, read_only_is))

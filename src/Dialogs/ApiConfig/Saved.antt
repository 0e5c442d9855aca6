-- ===== src/Dialogs/ApiConfig/Saved.antt =====
-- ibctl/src/handlers/api_config.rs: the whole configuration, against the log of its requests.
use ibctl.Base.{
  ℕ, ◌≡◌, refl, Bool, true, false, not, ◌&&◌, Option, none, some, List, [], ◌∷◌, All, ◌==◌, min,
  ◌∙◌, sym, ap, find, arith, if◌then◌else◌, Bool-cases, inl, inr,
}
use ibctl.Base.Text.{Text, codes, text_eq}
use ibctl.Base.Words.{Casing}
use ibctl.Machine.Handlers.{WindowInfo}
use ibctl.Dialogs.{
  Request, AgentClient, Desk, Act, clicked, node_selected, ◌>>=◌, ask, list_windows,
}
use ibctl.Dialogs.Keeps.{Grows, Keeps-bind}
use ibctl.Dialogs.ApiConfig.Settings.{ApiConfigSettings, has_settings}
use ibctl.Dialogs.ApiConfig.Quiet.{
  ask_quiet, list_quiet, Keeps-open_config, Keeps-sweep_rest, Keeps-click_first_window,
}
use ibctl.Dialogs.ApiConfig.Asked.{
  AsksAll, Grows-Asked, AsksAll-kept, change_settings-AsksAll, none_given,
}
use ibctl.Dialogs.ApiConfig.Counts.{
  not_found, is_precaution, is_read_only, Tame-Counts, quiet-Counts, set_precautions-not_found,
  set_read_only-not_found,
}
use ibctl.Dialogs.ApiConfig.Marks.{
  sets, InWindow, Tame-InWindow, checking-InWindow, quiet-InWindow, Keeps-set_port,
  Keeps-set_client_id, Keeps-set_timezone, Keeps-set_times, Keeps-set_precautions,
  Keeps-set_read_only,
}
use ibctl.Dialogs.ApiConfig.Screen.{sweep_rest, save_and_close, or_no_windows, is_gateway}
use ibctl.Dialogs.ApiConfig.Pages.{
  set_port, set_client_id, set_read_only, set_timezone, set_precautions, set_times,
}
use ibctl.Dialogs.ApiConfig.{
  ApiConfigResult, failed, applied, change_settings, set_and_close, in_api, configure, in_dialog,
  in_gateway, in_windows, apply_api_config, or_failed,
}

-- A click on Apply in this window.
unfoldable pub applies : ℕ → Request → Bool
unfolding text_eq
applies cid (clicked id label) = id == cid && text_eq label (codes "Apply")
applies cid _ = false

-- Every request of the log that sets an option is older than a click on Apply in this window.
abbrev pub saved : ℕ → List Request → Bool
saved cid [] = true
saved cid (r ∷ log) = if applies cid r then true else not (sets r) && saved cid log

abbrev IsSaved : ℕ → List Request → Type 0
IsSaved cid log = saved cid log ≡ true

abbrev pub Unset : List Request → Type 0
Unset = All (λ r. sets r ≡ false)

Grows-IsSaved : (cid : ℕ) (r : Request) → sets r ≡ false → Grows (IsSaved cid) r
Grows-IsSaved cid r e log h = ground arith

Grows-Unset : (r : Request) → sets r ≡ false → Grows Unset r
Grows-Unset r e log h = (e, h)

Unset-InWindow : (cid : ℕ) (log : List Request) → Unset log → All (InWindow cid) log
Unset-InWindow cid [] h = tt
Unset-InWindow cid (r ∷ log) (e, h) = (quiet-InWindow cid r e, Unset-InWindow cid log h)

Unset-not_found :
    (client : AgentClient) (p : Text → Bool) (log : List Request)
    → Unset log
    → not_found client p log ≡ 0
unfolding not_found
Unset-not_found client p [] h = refl
Unset-not_found client p (r ∷ log) (e, h) =
    quiet-Counts client 0 p 0 r e log (Unset-not_found client p log h)

applied_click :
    (cid : ℕ) (log : List Request) → saved cid (clicked cid (codes "Apply") ∷ log) ≡ true
unfolding applies text_eq
applied_click cid log = ground arith

module _ (client : AgentClient) (cid : ℕ) where
  -- What quiet requests keep, a click on Apply makes or keeps, and the rest of the closing keeps.
  closing :
      {I : List Request → Type 0}
      → ((r : Request) → sets r ≡ false → Grows I r)
      → (d : Desk) → I (clicked cid (codes "Apply") ∷ d.log)
      → I (save_and_close client cid d).1.log
  unfolding save_and_close ask
  closing quiet d h =
      (Keeps-bind (ask client (clicked cid (codes "OK"))) _ (ask_quiet quiet client _ refl) (λ _.
          Keeps-bind (sweep_rest client 3) _ (Keeps-sweep_rest quiet client 3) (λ _.
            Keeps-bind (list_windows client) _ (list_quiet quiet client)
              (λ ws. Keeps-click_first_window quiet client (or_no_windows ws))))).at
        (ask client (clicked cid (codes "Apply")) d).1 h

  save_and_close-IsSaved : (d : Desk) → IsSaved cid (save_and_close client cid d).1.log
  save_and_close-IsSaved d = closing (Grows-IsSaved cid) d (applied_click cid d.log)

  save_and_close-InWindow :
      (d : Desk) → All (InWindow cid) d.log → All (InWindow cid) (save_and_close client cid d).1.log
  save_and_close-InWindow d h = closing (Tame-InWindow cid).quiet d (tt, h)

  save_and_close-not_found :
      (p : Text → Bool) (d : Desk)
      → not_found client p (save_and_close client cid d).1.log ≡ not_found client p d.log
  save_and_close-not_found p d =
      let quiet = quiet-Counts client cid p (not_found client p d.log) in
      closing quiet d (quiet (clicked cid (codes "Apply")) refl d.log refl)

  -- The settings are made in the window, and the report counts what was not found.
  change_settings-Marks :
      (s : ApiConfigSettings) (d : Desk)
      → All (InWindow cid) d.log
      → ((p : Text → Bool) → not_found client p d.log ≡ 0)
      → let (report, d') = change_settings client s cid d in
        All (InWindow cid) d'.log
        × (report.precaution_labels_not_found ≡ not_found client is_precaution d'.log)
        × (report.read_only_api_label_not_found ≡ min 1 (not_found client is_read_only d'.log))
  unfolding change_settings ◌>>=◌
  change_settings-Marks s d h zeros =
      let d1 = (set_port client cid s.socket_port d).1 in
      let d2 = (set_client_id client cid s.master_client_id d1).1 in
      let d3 = (set_read_only client cid s.read_only_api d2).1 in
      let d4 = (set_timezone client cid s.instrument_timezone d3).1 in
      let d5 = (set_precautions client cid s.bypass_order_precautions d4).1 in
      let tame = Tame-InWindow cid in
      let (read_only, missed) = set_read_only-not_found client cid s.read_only_api d2 in
      let (precautions, others) =
        set_precautions-not_found client cid s.bypass_order_precautions d4 in
      (
        (Keeps-set_times cid tame client s.auto_restart_time s.auto_logoff_time).at d5 (
            (Keeps-set_precautions cid tame (checking-InWindow cid) client
                s.bypass_order_precautions).at
              d4
              ((Keeps-set_timezone cid tame client s.instrument_timezone).at d3 (
                (Keeps-set_read_only cid tame (checking-InWindow cid) client s.read_only_api).at d2
                  ((Keeps-set_client_id cid tame client s.master_client_id).at d1
                    ((Keeps-set_port cid tame client s.socket_port).at d h))))),
        ground (
          arith,
          timed is_precaution d5,
          precautions,
          zoned is_precaution d3,
          read_only,
          begun is_precaution,
        ),
        missed (begun is_read_only)
            ∙ ap (min 1) (sym (timed is_read_only d5 ∙ others ∙ zoned is_read_only d3)),
      )
    where
      begun :
          (p : Text → Bool)
          → not_found client p
              (set_client_id client cid s.master_client_id
                (set_port client cid s.socket_port d).1).1.log
            ≡ 0
      begun p =
          (Keeps-set_client_id cid (Tame-Counts client cid p 0) client s.master_client_id).at
            (set_port client cid s.socket_port d).1
            ((Keeps-set_port cid (Tame-Counts client cid p 0) client s.socket_port).at d (zeros p))

      zoned :
          (p : Text → Bool) (d : Desk)
          → not_found client p (set_timezone client cid s.instrument_timezone d).1.log
            ≡ not_found client p d.log
      zoned p d =
          (Keeps-set_timezone cid (Tame-Counts client cid p (not_found client p d.log)) client
              s.instrument_timezone).at
            d refl

      timed :
          (p : Text → Bool) (d : Desk)
          → not_found client p (set_times client cid s.auto_restart_time s.auto_logoff_time d).1.log
            ≡ not_found client p d.log
      timed p d =
          (Keeps-set_times cid (Tame-Counts client cid p (not_found client p d.log)) client
              s.auto_restart_time s.auto_logoff_time).at
            d refl

-- What a configuration comes to: an error with nothing set; or a report, with every option set in
-- one window, all that are given among them, followed by a request for a click on Apply there, and with the labels of the
-- checkboxes that the agent answered as not found.
abbrev pub Outcome : AgentClient → ApiConfigSettings → ApiConfigResult × Desk → Type 0
Outcome client s (failed _, d) = Unset d.log
Outcome client s (applied report, d) =
    ((cid : ℕ) × All (InWindow cid) d.log × (saved cid d.log ≡ true) × AsksAll s cid d.log)
    × (report.precaution_labels_not_found ≡ not_found client is_precaution d.log)
    × (report.read_only_api_label_not_found ≡ min 1 (not_found client is_read_only d.log))

or_failed-Outcome :
    (client : AgentClient) (s : ApiConfigSettings) (message : Text) (answer : Option Bool)
    (next : Act ApiConfigResult) (d : Desk)
    → Unset d.log
    → Outcome client s (next d)
    → Outcome client s (or_failed message answer next d)
or_failed-Outcome client s message none next d unset h = unset
or_failed-Outcome client s message (some _) next d unset h = h

module _ (client : AgentClient) (s : ApiConfigSettings) (cid : ℕ) where
  set_and_close-Outcome : (d : Desk) → Unset d.log → Outcome client s (set_and_close client s cid d)
  unfolding set_and_close ◌>>=◌
  set_and_close-Outcome d unset =
      let d' = (change_settings client s cid d).1 in
      let (inside, precautions, read_only) =
        change_settings-Marks client cid s d (Unset-InWindow cid d.log unset)
          (λ p. Unset-not_found client p d.log unset) in
      (
        (
          cid,
          save_and_close-InWindow client cid d' inside,
          save_and_close-IsSaved client cid d',
          AsksAll-kept s cid d'.log (save_and_close client cid d').1.log
              (change_settings-AsksAll client cid s d)
              (λ r h. closing client cid (λ x e. Grows-Asked r x) d' (inr h)),
        ),
        precautions ∙ sym (save_and_close-not_found client cid is_precaution d'),
        read_only ∙ ap (min 1) (sym (save_and_close-not_found client cid is_read_only d')),
      )

  in_api-Outcome : (d : Desk) → Unset d.log → Outcome client s (in_api client s cid d)
  unfolding in_api ask ◌>>=◌
  in_api-Outcome d unset =
      let (answer, d') = ask client (node_selected cid (codes "Settings")) d in
      or_failed-Outcome client s (codes "Failed to navigate to API/Settings") answer
        (set_and_close client s cid) d' (refl, unset) (set_and_close-Outcome d' (refl, unset))

  configure-Outcome : (d : Desk) → Unset d.log → Outcome client s (configure client s cid d)
  unfolding configure ask ◌>>=◌
  configure-Outcome d unset =
      let (answer, d') = ask client (node_selected cid (codes "API")) d in
      or_failed-Outcome client s (codes "Failed to select API") answer (in_api client s cid) d'
        (refl, unset) (in_api-Outcome d' (refl, unset))

in_dialog-Outcome :
    (client : AgentClient) (s : ApiConfigSettings) (w : Option WindowInfo) (d : Desk)
    → Unset d.log
    → Outcome client s (in_dialog client s w d)
in_dialog-Outcome client s none d unset = unset
in_dialog-Outcome client s (some w) d unset = configure-Outcome client s w.id d unset

module _ (casing : Casing) (client : AgentClient) (s : ApiConfigSettings) where
  in_gateway-Outcome :
      (main : Option WindowInfo) (d : Desk)
      → Unset d.log
      → Outcome client s (in_gateway casing client s main d)
  unfolding ◌>>=◌
  in_gateway-Outcome none d unset = unset
  in_gateway-Outcome (some main) d unset =
      in_dialog-Outcome client s _ _
        ((Keeps-open_config Grows-Unset casing client main 3).at d unset)

  in_windows-Outcome :
      (ws : Option (List WindowInfo)) (d : Desk)
      → Unset d.log
      → Outcome client s (in_windows casing client s ws d)
  in_windows-Outcome none d unset = unset
  in_windows-Outcome (some ws) d unset = in_gateway-Outcome (find (is_gateway casing) ws) d unset

  -- Whatever the agent answers, a configuration that fails has set no option: nothing was typed,
  -- chosen or checked. One that returns a report has made all such requests of one window, among
  -- them one for every option that is given but blind trading, which no page sets (the restart's
  -- time goes before the logoff's), and after the last of them asked for a click on Apply in that
  -- window; its report has the number of checkboxes with a label of the precautions that the agent
  -- answered as not found, and whether it answered so for the read-only API's, as 0 or 1.
  pub apply_api_config-Outcome :
      (flag : Bool)
      → Outcome client s
          (apply_api_config casing client s (record { log = []; login_submitted = flag }))
  unfolding apply_api_config list_windows ◌>>=◌ not_found
  apply_api_config-Outcome flag =
      let d : Desk = record { log = []; login_submitted = flag } in
      elim (Bool-cases (has_settings s)) [
        | inl e ↦
            rw e (in_windows-Outcome (list_windows client d).0 (list_windows client d).1 (refl, tt))
        | inr e ↦ rw e ((0, tt, refl, none_given s 0 e), refl, refl)
      ]

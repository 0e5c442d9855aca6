-- ===== src/Dialogs/ApiConfig/Asked.antt =====
-- ibctl/src/handlers/api_config.rs: every option that is given is asked for.
use ibctl.Base.{
  ℕ, ◌+◌, ◌≡◌, ◌⊎◌, inl, inr, refl, Bool, true, false, Option, none, some, List, [], ◌∷◌, All, map,
  is_some, sym, subst, arith, if◌then◌else◌,
}
use ibctl.Base.Text.{Text, codes}
use ibctl.Base.Decimal.{decimal}
use ibctl.Dialogs.{
  Request, AgentClient, Desk, clicked, node_selected, typed, typed_by_label, chosen, checked, ◌>>=◌,
  ask, agreed,
}
use ibctl.Dialogs.Keeps.{Grows, Keeps-pure, Keeps-bind, Keeps-if, Keeps-ask}
use ibctl.Dialogs.ApiConfig.Settings.{
  ApiConfigSettings, is_missing, precaution_labels, has_settings,
}
use ibctl.Dialogs.ApiConfig.Screen.{dismiss_popups}
use ibctl.Dialogs.ApiConfig.Pages.{
  apply_precaution_labels, set_port, set_client_id, set_read_only, set_timezone, set_precautions,
  set_times, read_only_label, parse_time_with_ampm,
}
use ibctl.Dialogs.ApiConfig.{change_settings}
use ibctl.Dialogs.ApiConfig.Marks.{
  Tame, Keeps-set_client_id, Keeps-set_timezone, Keeps-set_times, Keeps-set_precautions,
  Keeps-set_read_only, Keeps-apply_precaution_labels, Keeps-dismiss_popups,
}

-- The request is in the log.
abbrev pub Asked : Request → List Request → Type 0
Asked r [] = ⊥
Asked r (x ∷ log) = (x ≡ r) ⊎ Asked r log

abbrev pub AllAsked : List Request → List Request → Type 0
AllAsked wanted log = All (λ r. Asked r log) wanted

pub Grows-Asked : (r x : Request) → Grows (Asked r) x
Grows-Asked r x log h = inr h

pub Tame-Asked : (r : Request) (cid : ℕ) → Tame (Asked r) cid
Tame-Asked r cid = record {
  quiet = λ x e. Grows-Asked r x;
  typing = λ n text. Grows-Asked r _;
  labelled = λ label text. Grows-Asked r _;
  choosing = λ label text. Grows-Asked r _;
}

pub checking-Asked :
    (r : Request) (cid : ℕ) (label : Text) (b : Bool) → Grows (Asked r) (checked cid label b)
checking-Asked r cid label b = Grows-Asked r (checked cid label b)

-- What was asked for stays so, after an action that keeps each request.
pub AllAsked-kept :
    (wanted log log' : List Request)
    → AllAsked wanted log
    → ((r : Request) → Asked r log → Asked r log')
    → AllAsked wanted log'
AllAsked-kept [] log log' h k = tt
AllAsked-kept (r ∷ wanted) log log' (h, hs) k = (k r h, AllAsked-kept wanted log log' hs k)

module _ (cid : ℕ) where
  abbrev pub wanted_port : Option ℕ → List Request
  wanted_port none = []
  wanted_port (some port) = typed_by_label cid (codes "Socket port") (decimal port) ∷ []

  abbrev pub wanted_id : Option Text → List Request
  wanted_id none = []
  wanted_id (some id) = typed cid 1 id ∷ []

  abbrev pub wanted_read_only : Option Bool → List Request
  wanted_read_only none = []
  wanted_read_only (some b) = checked cid read_only_label b ∷ []

  abbrev pub wanted_timezone : Option Text → List Request
  wanted_timezone none = []
  wanted_timezone (some timezone) =
      chosen cid (codes "Send instrument-specific attributes for dual-mode API client in") timezone
      ∷ []

  abbrev pub wanted_precautions : Option Bool → List Request
  wanted_precautions none = []
  wanted_precautions (some bypass) = map (λ label. checked cid label bypass) precaution_labels

  abbrev wanted_time : Text → Text → List Request
  wanted_time time button =
      typed cid 0 (parse_time_with_ampm time).0
      ∷ clicked cid (parse_time_with_ampm time).1
      ∷ clicked cid button
      ∷ []

  -- The restart's time is asked for, or else the logoff's.
  abbrev pub wanted_times : Option Text → Option Text → List Request
  wanted_times (some restart) logoff = wanted_time restart (codes "Auto restart")
  wanted_times none (some logoff) = wanted_time logoff (codes "Auto logoff")
  wanted_times none none = []

  module _ (client : AgentClient) where
    pub set_port-Asked :
        (port : Option ℕ) (d : Desk)
        → AllAsked (wanted_port port) (set_port client cid port d).1.log
    unfolding set_port ask ◌>>=◌
    set_port-Asked none d = tt
    set_port-Asked (some port) d =
        let r = typed_by_label cid (codes "Socket port") (decimal port) in
        let (a, d') = ask client r d in
        (
          (Keeps-if {I = Asked r} (agreed a) _ _ (Keeps-pure tt) (
                Keeps-bind _ _ (Keeps-ask client (typed cid 0 (decimal port)) (Grows-Asked r _))
                  (λ _. Keeps-pure tt))).at
              d' (inl refl),
          tt,
        )

    pub set_client_id-Asked :
        (id : Option Text) (d : Desk)
        → AllAsked (wanted_id id) (set_client_id client cid id d).1.log
    unfolding set_client_id ask ◌>>=◌
    set_client_id-Asked none d = tt
    set_client_id-Asked (some id) d = (inl refl, tt)

    pub set_read_only-Asked :
        (b : Option Bool) (d : Desk)
        → AllAsked (wanted_read_only b) (set_read_only client cid b d).1.log
    unfolding set_read_only ask ◌>>=◌
    set_read_only-Asked none d = tt
    set_read_only-Asked (some true) d = (inl refl, tt)
    set_read_only-Asked (some false) d = (inl refl, tt)

    pub set_timezone-Asked :
        (timezone : Option Text) (d : Desk)
        → AllAsked (wanted_timezone timezone) (set_timezone client cid timezone d).1.log
    unfolding set_timezone ask ◌>>=◌
    set_timezone-Asked none d = tt
    set_timezone-Asked (some timezone) d = (inl refl, tt)

    apply_precaution_labels-Asked :
        (bypass : Bool) (labels : List Text) (missing : ℕ) (d : Desk)
        → AllAsked
            (map (λ label. checked cid label bypass) labels)
            (apply_precaution_labels client cid bypass labels missing d).1.log
    unfolding apply_precaution_labels ask ◌>>=◌
    apply_precaution_labels-Asked bypass [] missing d = tt
    apply_precaution_labels-Asked bypass (label ∷ labels) missing d =
        let r = checked cid label bypass in
        let (a, d') = ask client r d in
        let missing' = if is_missing a then missing + 1 else missing in
        (
          (Keeps-apply_precaution_labels cid (Tame-Asked r cid) (checking-Asked r cid) client bypass
                labels missing').at
              d' (inl refl),
          apply_precaution_labels-Asked bypass labels missing' d',
        )

    dismissed :
        (r : Request) (d : Desk) → Asked r d.log → Asked r (dismiss_popups client cid d).1.log
    dismissed r d h = (Keeps-dismiss_popups cid (Tame-Asked r cid) client).at d h

    pub set_precautions-Asked :
        (bypass : Option Bool) (d : Desk)
        → AllAsked (wanted_precautions bypass) (set_precautions client cid bypass d).1.log
    unfolding set_precautions ◌>>=◌
    set_precautions-Asked none d = tt
    set_precautions-Asked (some bypass) d =
        let page = (ask client (node_selected cid (codes "Precautions")) d).1 in
        let d' = (apply_precaution_labels client cid bypass precaution_labels 0 page).1 in
        AllAsked-kept (wanted_precautions (some bypass)) d'.log (dismiss_popups client cid d').1.log
          (apply_precaution_labels-Asked bypass precaution_labels 0 page) (λ r. dismissed r d')

    pub set_times-Asked :
        (restart logoff : Option Text) (d : Desk)
        → AllAsked (wanted_times restart logoff) (set_times client cid restart logoff d).1.log
    unfolding set_times ask ◌>>=◌
    set_times-Asked none none d = tt
    set_times-Asked none (some logoff) d = (inr (inr (inl refl)), (inr (inl refl), (inl refl, tt)))
    set_times-Asked (some restart) logoff d = (
      dismissed _ _ (inr (inr (inl refl))),
      (dismissed _ _ (inr (inl refl)), (dismissed _ _ (inl refl), tt)),
    )

-- Every option that is given is asked for in the window, by its own request.
abbrev pub AsksAll : ApiConfigSettings → ℕ → List Request → Type 0
AsksAll s cid log =
    AllAsked (wanted_port cid s.socket_port) log
    × AllAsked (wanted_id cid s.master_client_id) log
    × AllAsked (wanted_read_only cid s.read_only_api) log
    × AllAsked (wanted_timezone cid s.instrument_timezone) log
    × AllAsked (wanted_precautions cid s.bypass_order_precautions) log
    × AllAsked (wanted_times cid s.auto_restart_time s.auto_logoff_time) log

pub AsksAll-kept :
    (s : ApiConfigSettings) (cid : ℕ) (log log' : List Request)
    → AsksAll s cid log
    → ((r : Request) → Asked r log → Asked r log')
    → AsksAll s cid log'
AsksAll-kept s cid log log' (port, id, read_only, timezone, precautions, times) k = (
  AllAsked-kept _ log log' port k,
  AllAsked-kept _ log log' id k,
  AllAsked-kept _ log log' read_only k,
  AllAsked-kept _ log log' timezone k,
  AllAsked-kept _ log log' precautions k,
  AllAsked-kept _ log log' times k,
)

pub change_settings-AsksAll :
    (client : AgentClient) (cid : ℕ) (s : ApiConfigSettings) (d : Desk)
    → AsksAll s cid (change_settings client s cid d).1.log
unfolding change_settings ◌>>=◌
change_settings-AsksAll client cid s d =
    let d1 = (set_port client cid s.socket_port d).1 in
    let d2 = (set_client_id client cid s.master_client_id d1).1 in
    let d3 = (set_read_only client cid s.read_only_api d2).1 in
    let d4 = (set_timezone client cid s.instrument_timezone d3).1 in
    let d5 = (set_precautions client cid s.bypass_order_precautions d4).1 in
    let d6 = (set_times client cid s.auto_restart_time s.auto_logoff_time d5).1 in
    let k5 : (r : Request) → Asked r d5.log → Asked r d6.log = λ r.
      (Keeps-set_times cid (Tame-Asked r cid) client s.auto_restart_time s.auto_logoff_time).at
        d5 in
    let k4 : (r : Request) → Asked r d4.log → Asked r d6.log = λ r h. k5 r (
      (Keeps-set_precautions cid (Tame-Asked r cid) (checking-Asked r cid) client
          s.bypass_order_precautions).at
        d4 h) in
    let k3 : (r : Request) → Asked r d3.log → Asked r d6.log = λ r h.
      k4 r ((Keeps-set_timezone cid (Tame-Asked r cid) client s.instrument_timezone).at d3 h) in
    let k2 : (r : Request) → Asked r d2.log → Asked r d6.log = λ r h. k3 r (
      (Keeps-set_read_only cid (Tame-Asked r cid) (checking-Asked r cid) client s.read_only_api).at
        d2 h) in
    let k1 : (r : Request) → Asked r d1.log → Asked r d6.log = λ r h.
      k2 r ((Keeps-set_client_id cid (Tame-Asked r cid) client s.master_client_id).at d1 h) in
    (
      AllAsked-kept _ d1.log d6.log (set_port-Asked cid client s.socket_port d) k1,
      AllAsked-kept _ d2.log d6.log (set_client_id-Asked cid client s.master_client_id d1) k2,
      AllAsked-kept _ d3.log d6.log (set_read_only-Asked cid client s.read_only_api d2) k3,
      AllAsked-kept _ d4.log d6.log (set_timezone-Asked cid client s.instrument_timezone d3) k4,
      AllAsked-kept _ d5.log d6.log (set_precautions-Asked cid client s.bypass_order_precautions d4)
          k5,
      set_times-Asked cid client s.auto_restart_time s.auto_logoff_time d5,
    )

unasked :
    {A : Type 0} (o : Option A) (all : Option A → List Request)
    → all none ≡ []
    → is_some o ≡ false
    → AllAsked (all o) []
unasked none all e h = subst (λ rs. AllAsked rs []) (sym e) tt
unasked (some a) all e h = ground (arith, h)

no_times :
    (cid : ℕ) (restart logoff : Option Text)
    → is_some restart ≡ false
    → is_some logoff ≡ false
    → AllAsked (wanted_times cid restart logoff) []
no_times cid none none h k = tt
no_times cid none (some logoff) h k = ground (arith, k)
no_times cid (some restart) logoff h k = ground (arith, h)

pub none_given : (s : ApiConfigSettings) (cid : ℕ) → has_settings s ≡ false → AsksAll s cid []
none_given s cid h = (
  unasked s.socket_port (wanted_port cid) refl (ground (arith, h)),
  unasked s.master_client_id (wanted_id cid) refl (ground (arith, h)),
  unasked s.read_only_api (wanted_read_only cid) refl (ground (arith, h)),
  unasked s.instrument_timezone (wanted_timezone cid) refl (ground (arith, h)),
  unasked s.bypass_order_precautions (wanted_precautions cid) refl (ground (arith, h)),
  no_times cid s.auto_restart_time s.auto_logoff_time (ground (arith, h)) (ground (arith, h)),
)

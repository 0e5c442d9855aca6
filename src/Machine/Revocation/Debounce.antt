-- ===== src/Machine/Revocation/Debounce.antt =====
-- The debounce of ibctl/src/state_machine/revocation.rs against a history of observations.
use ibctl.Base.{
  ℕ, ◌+◌, ◌-◌, ◌≡◌, ◌≤◌, ◌↔◌, ◌⊎◌, inl, inr, refl, sym, ap, ◌∙◌, Bool, true, false, Option, none,
  some, List, [], ◌∷◌, ◌==◌, leb, if◌then◌else◌, arith, Option-cases, ==_iff,
}
use ibctl.Machine.Revocation.{
  RevocationTag, RevocationSource, jvm_died, error_dialog, relogin_dialog, session_conflict,
  login_form_visible, disconnected_label_stable, connection_status_event, window_class_morphed,
  api_port_listener_lost, tag, tag_eq, tag_number, debounce, Tracker, get, observe, clear,
  clear_all,
}

pub data Event : Type 0 where
  observed : RevocationSource → ℕ → Event
  cleared : RevocationTag → Event
  all_cleared : Event

-- The tracker after a history, whose latest event is the head.
unfoldable pub run : List Event → Tracker
unfolding observe clear
run [] = []
run (observed s now ∷ earlier) = (observe (run earlier) s now).0
run (cleared t ∷ earlier) = clear (run earlier) t
run (all_cleared ∷ earlier) = clear_all (run earlier)

abbrev pub or_now : ℕ → Option ℕ → Option ℕ
or_now now none = some now
or_now now (some first) = some first

-- When the tag was observed first since it was last cleared.
unfoldable pub since : List Event → RevocationTag → Option ℕ
unfolding tag tag_eq
since [] t = none
since (observed s now ∷ earlier) t =
    let first = since earlier t in if tag_eq (tag s) t then or_now now first else first
since (cleared t' ∷ earlier) t = let first = since earlier t in if tag_eq t' t then none else first
since (all_cleared ∷ earlier) t = none

abbrev pub first_of : Option (ℕ × RevocationSource) → Option ℕ
first_of none = none
first_of (some (first, _)) = some first

unfoldable number_tag : ℕ → RevocationTag
number_tag n =
    if n == 0
    then jvm_died
    else if n == 1
    then error_dialog
    else if n == 2
    then relogin_dialog
    else if n == 3
    then session_conflict
    else if n == 4
    then login_form_visible
    else if n == 5
    then disconnected_label_stable
    else if n == 6
    then connection_status_event
    else if n == 7
    then window_class_morphed
    else api_port_listener_lost

number_tag-tag_number : (t : RevocationTag) → number_tag (tag_number t) ≡ t
unfolding number_tag
number_tag-tag_number jvm_died = refl
number_tag-tag_number error_dialog = refl
number_tag-tag_number relogin_dialog = refl
number_tag-tag_number session_conflict = refl
number_tag-tag_number login_form_visible = refl
number_tag-tag_number disconnected_label_stable = refl
number_tag-tag_number connection_status_event = refl
number_tag-tag_number window_class_morphed = refl
number_tag-tag_number api_port_listener_lost = refl

tag_eq→eq : (t u : RevocationTag) → tag_eq t u ≡ true → t ≡ u
unfolding tag_eq
tag_eq→eq t u e =
    let (same, _) = ==_iff (tag_number t) (tag_number u) in
    sym (number_tag-tag_number t) ∙ ap number_tag (same e) ∙ number_tag-tag_number u

tag_eq_self : (t : RevocationTag) → tag_eq t t ≡ true
unfolding tag_eq
tag_eq_self t = let (_, back) = ==_iff (tag_number t) (tag_number t) in back refl

tag_eq_comm : (t u : RevocationTag) → tag_eq t u ≡ tag_eq u t
unfolding tag_eq
tag_eq_comm t u = ground arith

if_none : (b : Bool) → none ≡ (if b then none else first_of none)
if_none true = refl
if_none false = refl

-- One entry of the tracker: whether it is cleared, whether the tag is, whether it has the tag.
clear_head :
    (a b c : Bool) (u : RevocationTag) (v : ℕ × RevocationSource) (t : RevocationTag)
    (others : Tracker)
    → (old : Option (ℕ × RevocationSource)) → c ≡ tag_eq u t
    → (a ≡ true → c ≡ b)
    → (c ≡ true → b ≡ true → a ≡ true)
    → first_of (get others t) ≡ (if b then none else first_of old)
    → first_of (get (if a then others else (u, v) ∷ others) t)
      ≡ (if b then none else first_of (if c then some v else old))
unfolding get
clear_head true true true u v t others old e same back h = h
clear_head true true false u v t others old e same back h = h
clear_head true false true u v t others old e same back h = absurd (ground (arith, same refl))
clear_head true false false u v t others old e same back h = h
clear_head false true true u v t others old e same back h = absurd (ground (arith, back refl refl))
clear_head false true false u v t others old e same back h =
    ap (λ k. first_of (if k then some v else get others t)) (sym e) ∙ h
clear_head false false true u v t others old e same back h =
    ap (λ k. first_of (if k then some v else get others t)) (sym e)
clear_head false false false u v t others old e same back h =
    ap (λ k. first_of (if k then some v else get others t)) (sym e) ∙ h

-- Of three tags, two pairs of equal ones make the third.
same_tag : (t u v : RevocationTag) → tag_eq t u ≡ true → tag_eq t v ≡ tag_eq u v
same_tag t u v e = ap (λ w. tag_eq w v) (tag_eq→eq t u e)

pub clear-get :
    (tracker : Tracker) (t t' : RevocationTag)
    → first_of (get (clear tracker t') t) ≡ (if tag_eq t' t then none else first_of (get tracker t))
unfolding clear get
clear-get [] t t' = if_none (tag_eq t' t)
clear-get ((u, v) ∷ rest) t t' =
    clear_head (tag_eq u t') (tag_eq t' t) (tag_eq u t) u v t (clear rest t') (get rest t) refl
      (same_tag u t' t) (λ e f. same_tag u t t' e ∙ tag_eq_comm t t' ∙ f) (clear-get rest t t')

pub observe-get :
    (tracker : Tracker) (s : RevocationSource) (now : ℕ) (t : RevocationTag)
    → first_of (get (observe tracker s now).0 t) ≡ (
        if tag_eq (tag s) t
        then or_now now (first_of (get tracker t))
        else first_of (get tracker t))
unfolding observe get
observe-get tracker s now t = ground (arith, tag_eq→eq (tag s) t)

first_of-run : (h : List Event) (t : RevocationTag) → first_of (get (run h) t) ≡ since h t
unfolding run since
first_of-run [] t = refl
first_of-run (observed s now ∷ h) t = ground (arith, observe-get (run h) s now t, first_of-run h t)
first_of-run (cleared t' ∷ h) t = ground (arith, clear-get (run h) t t', first_of-run h t)
first_of-run (all_cleared ∷ h) t = refl

long_enough : (d now first : ℕ) → leb d (now - first) ≡ true → (d ≡ 0) ⊎ (first + d ≤ now)
long_enough d now first h = ground arith

-- After any history of observations and clearings, an observation revokes exactly if its source has
-- no debounce, or its tag was observed since its last clearing and the first such observation is at
-- least the debounce ago. A revocation is of the source that was observed last.
pub observe-run :
    (h : List Event) (s : RevocationSource) (now : ℕ)
    → (((observe (run h) s now).1 ≡ some s) ↔ (
        (debounce s ≡ 0)
        ⊎ ((first : ℕ) × (since h (tag s) ≡ some first) × (first + debounce s ≤ now))))
      × (((observe (run h) s now).1 ≡ none) ⊎ ((observe (run h) s now).1 ≡ some s))
unfolding observe
observe-run h s now = elim (Option-cases (get (run h) (tag s))) [
  | inl e ↦ (
    (λ f. inl (ground (arith, e)), λ f. ground (arith, e, ap first_of e, first_of-run h (tag s))),
    ground (arith, e),
  )
  | inr ((first, s'), e) ↦ (
    (
      λ f. elim (long_enough (debounce s) now first (ground (arith, e))) [
        | inl z ↦ inl z
        | inr p ↦ inr (first, sym (first_of-run h (tag s)) ∙ ap first_of e, p)
      ],
      λ f. ground (arith, e, ap first_of e, first_of-run h (tag s)),
    ),
    ground (arith, e),
  )
]

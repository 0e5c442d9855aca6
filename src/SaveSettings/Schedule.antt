-- ===== src/SaveSettings/Schedule.antt =====
-- What the schedules of ibctl/src/save_settings.rs are.
use ibctl.Base.{
  ℕ, ◌≡◌, ◌<◌, refl, Bool, true, false, Option, none, some, List, [], ◌∷◌, ◌++◌, All, any, arith,
  Bool-cases, Option-cases, inl, inr, if◌then◌else◌, ◌||◌, ◌∙◌, ap, map,
}
use ibctl.Base.Text.{Text, split}
use ibctl.Base.Words.{split_whitespace, ascii_upper}
use ibctl.Base.Decimal.{parse_u32}
use ibctl.SaveSettings.{
  SaveSettingsTime, same_time, earlier, hour_of, parse_clock, parse_time, push_new, collect, insert,
  sort_by_key, parse_save_settings_schedule, candidates, parse_words, normalized,
}

abbrev pub IsTime : SaveSettingsTime → Type 0
IsTime t = (t.hour < 24) × (t.minute < 60)

-- Each time is earlier than all that follow it.
abbrev pub IsAscending : List SaveSettingsTime → Type 0
IsAscending [] = Unit
IsAscending (t ∷ ts) = All (λ u. earlier t u ≡ true) ts × IsAscending ts

abbrev IsNew : List SaveSettingsTime → Type 0
IsNew [] = Unit
IsNew (t ∷ ts) = (any (same_time t) ts ≡ false) × IsNew ts

hour_of-below : (h : ℕ) (ampm : Option Text) (hour : ℕ) → hour_of h ampm ≡ some hour → hour < 24
unfolding hour_of
hour_of-below h none hour e = ground arith
hour_of-below h (some ampm) hour e = ground arith

parse_clock-IsTime :
    (parts : List Text) (ampm : Option Text) (t : SaveSettingsTime)
    → parse_clock parts ampm ≡ some t
    → IsTime t
unfolding parse_clock
parse_clock-IsTime [] ampm t e = ground arith
parse_clock-IsTime (h ∷ []) ampm t e = ground arith
parse_clock-IsTime (h ∷ m ∷ x ∷ xs) ampm t e = ground arith
parse_clock-IsTime (h ∷ m ∷ []) ampm t e = elim (Option-cases (parse_u32 h)) [
  | inl a ↦ ground (arith, a, e)
  | inr (w, a) ↦ elim (Option-cases (parse_u32 m)) [
    | inl b ↦ ground (arith, a, b, e)
    | inr (n, b) ↦ elim (Option-cases (hour_of w ampm)) [
      | inl c ↦ ground (arith, a, b, c, e)
      | inr (k, c) ↦ ground (arith, a, b, c, e, hour_of-below w ampm k c)
    ]
  ]
]

parts_lem : (parts : List Text) (t : SaveSettingsTime) → parse_words parts ≡ some t → IsTime t
parts_lem [] t e = ground arith
parts_lem (p ∷ []) t e = parse_clock-IsTime (split b':' p) none t e
parts_lem (p ∷ a ∷ []) t e = parse_clock-IsTime (split b':' p) (some (map ascii_upper a)) t e
parts_lem (p ∷ a ∷ x ∷ xs) t e = ground arith

parse_time-IsTime : (value : Text) (t : SaveSettingsTime) → parse_time value ≡ some t → IsTime t
unfolding parse_time
parse_time-IsTime value t e = parts_lem (split_whitespace value) t e

All-insert :
    (P : SaveSettingsTime → Type 0) (t : SaveSettingsTime) (ts : List SaveSettingsTime)
    → P t
    → All P ts
    → All P (insert t ts)
unfolding insert
All-insert P t [] p ps = (p, tt)
All-insert P t (u ∷ us) p (q, qs) = elim (Bool-cases (earlier u t)) [
  | inl e ↦ rw (e, if◌then◌else◌) (q, All-insert P t us p qs)
  | inr e ↦ rw (e, if◌then◌else◌) (p, (q, qs))
]

All-earlier :
    (t u : SaveSettingsTime) (us : List SaveSettingsTime)
    → earlier t u ≡ true
    → All (λ v. earlier u v ≡ true) us
    → All (λ v. earlier t v ≡ true) us
All-earlier t u [] e h = tt
All-earlier t u (v ∷ vs) e (h, hs) = (ground arith, All-earlier t u vs e hs)

insert-IsAscending :
    (t : SaveSettingsTime) (ts : List SaveSettingsTime)
    → any (same_time t) ts ≡ false
    → IsAscending ts
    → IsAscending (insert t ts)
unfolding insert
insert-IsAscending t [] new h = (tt, tt)
insert-IsAscending t (u ∷ us) new (h, hs) = elim (Bool-cases (earlier u t)) [
  | inl e ↦
      rw (e, if◌then◌else◌)
        (All-insert (λ v. earlier u v ≡ true) t us e h, insert-IsAscending t us (ground arith) hs)
  | inr e ↦
      let first : earlier t u ≡ true = ground arith in
      rw (e, if◌then◌else◌) ((first, All-earlier t u us first h), (h, hs))
]

any-insert :
    (t u : SaveSettingsTime) (us : List SaveSettingsTime)
    → any (same_time t) (insert u us) ≡ (same_time t u || any (same_time t) us)
unfolding insert
any-insert t u [] = refl
any-insert t u (v ∷ vs) = ground (arith, any-insert t u vs)

any-sort_by_key :
    (t : SaveSettingsTime) (ts : List SaveSettingsTime)
    → any (same_time t) (sort_by_key ts) ≡ any (same_time t) ts
unfolding sort_by_key
any-sort_by_key t [] = refl
any-sort_by_key t (u ∷ us) =
    any-insert t u (sort_by_key us) ∙ ap (λ (b : Bool). same_time t u || b) (any-sort_by_key t us)

sort_by_key-IsAscending : (ts : List SaveSettingsTime) → IsNew ts → IsAscending (sort_by_key ts)
unfolding sort_by_key
sort_by_key-IsAscending [] h = tt
sort_by_key-IsAscending (t ∷ ts) (h, hs) =
    insert-IsAscending t (sort_by_key ts) (any-sort_by_key t ts ∙ h) (sort_by_key-IsAscending ts hs)

All-sort_by_key :
    (P : SaveSettingsTime → Type 0) (ts : List SaveSettingsTime) → All P ts → All P (sort_by_key ts)
unfolding sort_by_key
All-sort_by_key P [] h = tt
All-sort_by_key P (t ∷ ts) (h, hs) = All-insert P t (sort_by_key ts) h (All-sort_by_key P ts hs)

-- A time at the end of a list that does not have it is new to all before it.
any-append :
    (t u : SaveSettingsTime) (us : List SaveSettingsTime)
    → any (same_time t) (us ++ u ∷ []) ≡ (any (same_time t) us || same_time t u)
any-append t u [] = ground arith
any-append t u (v ∷ vs) = ground (arith, any-append t u vs)

append-IsNew :
    (u : SaveSettingsTime) (us : List SaveSettingsTime)
    → any (same_time u) us ≡ false
    → IsNew us
    → IsNew (us ++ u ∷ [])
append-IsNew u [] e h = (refl, tt)
append-IsNew u (v ∷ vs) e (h, hs) =
    (ground (arith, any-append v u vs), append-IsNew u vs (ground arith) hs)

All-append_one :
    (P : SaveSettingsTime → Type 0) (u : SaveSettingsTime) (us : List SaveSettingsTime)
    → P u
    → All P us
    → All P (us ++ u ∷ [])
All-append_one P u [] p h = (p, tt)
All-append_one P u (v ∷ vs) p (h, hs) = (h, All-append_one P u vs p hs)

abbrev IsGood : List SaveSettingsTime → Type 0
IsGood out = All IsTime out × IsNew out

push_new-IsGood :
    (out : List SaveSettingsTime) (t : Option SaveSettingsTime)
    → ((u : SaveSettingsTime) → t ≡ some u → IsTime u)
    → IsGood out
    → IsGood (push_new out t)
push_new-IsGood out none times h = h
push_new-IsGood out (some t) times (h, new) = elim (Bool-cases (any (same_time t) out)) [
  | inl e ↦ rw (e, if◌then◌else◌) (h, new)
  | inr e ↦
      rw (e, if◌then◌else◌) (All-append_one IsTime t out (times t refl) h, append-IsNew t out e new)
]

collect-IsGood :
    (out : List SaveSettingsTime) (cs : List Text) → IsGood out → IsGood (collect out cs)
unfolding collect
collect-IsGood out [] h = h
collect-IsGood out (c ∷ cs) h =
    collect-IsGood (push_new out (parse_time c)) cs
      (push_new-IsGood out (parse_time c) (parse_time-IsTime c) h)

-- The candidate is parsed to the time.
abbrev pub is_parsed : SaveSettingsTime → Option SaveSettingsTime → Bool
is_parsed t none = false
is_parsed t (some u) = same_time t u

any-same_time :
    (t u : SaveSettingsTime) (us : List SaveSettingsTime)
    → same_time t u ≡ true
    → any (same_time u) us ≡ true
    → any (same_time t) us ≡ true
any-same_time t u [] e h = h
any-same_time t u (v ∷ vs) e h = ground (arith, any-same_time t u vs)

any-push_new :
    (t : SaveSettingsTime) (out : List SaveSettingsTime) (p : Option SaveSettingsTime)
    → any (same_time t) (push_new out p) ≡ (any (same_time t) out || is_parsed t p)
any-push_new t out none = ground arith
any-push_new t out (some u) = elim (Bool-cases (any (same_time u) out)) [
  | inl e ↦ rw (e, if◌then◌else◌) (ground (arith, e, any-same_time t u out))
  | inr e ↦ rw (e, if◌then◌else◌) (any-append t u out)
]

any-collect :
    (t : SaveSettingsTime) (out : List SaveSettingsTime) (cs : List Text)
    → any (same_time t) (collect out cs)
      ≡ (any (same_time t) out || any (λ c. is_parsed t (parse_time c)) cs)
unfolding collect
any-collect t out [] = ground arith
any-collect t out (c ∷ cs) =
    ground
      (arith, any-collect t (push_new out (parse_time c)) cs, any-push_new t out (parse_time c))

-- Whatever text is configured, the schedule that it is parsed to has exactly the times that its
-- candidates are parsed to: each of them once, in their order, and all of them times of the day.
pub parse_save_settings_schedule-IsAscending :
    (input : Text)
    → let times = parse_save_settings_schedule input in
      All IsTime times
      × IsAscending times
      × ((t : SaveSettingsTime)
          → any (same_time t) times
            ≡ any
                (λ c. is_parsed t (parse_time c))
                (candidates (split_whitespace (map normalized input))))
unfolding parse_save_settings_schedule
parse_save_settings_schedule-IsAscending input =
    let cs = candidates (split_whitespace (map normalized input)) in
    let times = collect [] cs in
    let (h, new) = collect-IsGood [] cs (tt, tt) in
    (
      All-sort_by_key IsTime times h,
      sort_by_key-IsAscending times new,
      (λ t. any-sort_by_key t times ∙ any-collect t [] cs),
    )

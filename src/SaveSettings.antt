-- ===== src/SaveSettings.antt =====
-- ibctl/src/save_settings.rs: the times of the day at which the settings are saved, their parser, and
-- the loop that sends the command.
pub mod Schedule
mod Tests
use ibctl.Base.{
  ℕ, ◌+◌, Bool, true, false, not, ◌&&◌, ◌||◌, Option, none, some, List, [], ◌∷◌, ◌++◌, map, any,
  find, ltb, leb, ◌==◌, if◌then◌else◌, ◌>>=◌,
}
use ibctl.Base.Text.{Text, codes, text_eq, split}
use ibctl.Base.Words.{ascii_upper, split_whitespace}
use ibctl.Base.Int.{ℤ}
use ibctl.Base.Decimal.{decimal, show_int, parse_u32}

pub record SaveSettingsTime : Type 0 where
  pub hour : ℕ
  pub minute : ℕ

abbrev pub same_time : SaveSettingsTime → SaveSettingsTime → Bool
same_time a b = a.hour == b.hour && a.minute == b.minute

-- The order of the pairs of hour and minute.
abbrev pub earlier : SaveSettingsTime → SaveSettingsTime → Bool
earlier a b = ltb a.hour b.hour || (a.hour == b.hour && ltb a.minute b.minute)

unfoldable pub is_ampm : Text → Bool
unfolding text_eq
is_ampm value =
    text_eq (map ascii_upper value) (codes "AM") || text_eq (map ascii_upper value) (codes "PM")

-- The hour of the day that a written hour stands for: the third argument is the marker in upper case.
unfoldable pub hour_of : ℕ → Option Text → Option ℕ
unfolding text_eq
hour_of hour none = if ltb 23 hour then none else some hour
hour_of hour (some ampm) =
    if text_eq ampm (codes "AM")
    then if hour == 12 then some 0 else if ltb 11 hour then none else some hour
    else if text_eq ampm (codes "PM")
    then if hour == 12 then some hour else if leb hour 11 then some (hour + 12) else none
    else none

-- The hour and the minute are the only parts.
unfoldable pub parse_clock : List Text → Option Text → Option SaveSettingsTime
unfolding hour_of
parse_clock (h ∷ m ∷ []) ampm = do
  written ← parse_u32 h
  minute ← parse_u32 m
  hour ← if ltb 59 minute then none else hour_of written ampm
  some (record { hour = hour; minute = minute })
parse_clock _ ampm = none

abbrev pub parse_words : List Text → Option SaveSettingsTime
parse_words (time_part ∷ []) = parse_clock (split b':' time_part) none
parse_words (time_part ∷ ampm ∷ []) =
    parse_clock (split b':' time_part) (some (map ascii_upper ampm))
parse_words _ = none

unfoldable pub parse_time : Text → Option SaveSettingsTime
unfolding parse_clock split_whitespace
parse_time value = parse_words (split_whitespace value)

-- A token with the AM or PM that follows it is one candidate.
unfoldable pub candidates : List Text → List Text
unfolding is_ampm
candidates [] = []
candidates (token ∷ []) = token ∷ []
candidates (token ∷ next ∷ rest) =
    let joined = candidates rest in
    let alone = candidates (next ∷ rest) in
    if is_ampm next then (token ++ b' ' ∷ next) ∷ joined else token ∷ alone

abbrev pub push_new : List SaveSettingsTime → Option SaveSettingsTime → List SaveSettingsTime
push_new out none = out
push_new out (some t) = if any (same_time t) out then out else out ++ t ∷ []

unfoldable pub collect : List SaveSettingsTime → List Text → List SaveSettingsTime
unfolding parse_time
collect out [] = out
collect out (c ∷ cs) = collect (push_new out (parse_time c)) cs

-- `sort_by_key`
unfoldable pub insert : SaveSettingsTime → List SaveSettingsTime → List SaveSettingsTime
insert t [] = t ∷ []
insert t (u ∷ us) = let rest = insert t us in if earlier u t then u ∷ rest else t ∷ u ∷ us

unfoldable pub sort_by_key : List SaveSettingsTime → List SaveSettingsTime
unfolding insert
sort_by_key [] = []
sort_by_key (t ∷ ts) = insert t (sort_by_key ts)

-- `,` and `;` separate like spaces.
abbrev pub normalized : ℕ → ℕ
normalized c = if c == b',' || c == b';' then b' ' else c

unfoldable pub parse_save_settings_schedule : Text → List SaveSettingsTime
unfolding sort_by_key collect candidates split_whitespace
parse_save_settings_schedule input =
    sort_by_key (collect [] (candidates (split_whitespace (map normalized input))))

-- `{:02}`
abbrev two_digits : ℕ → Text
two_digits n = if ltb n 10 then b'0' ∷ decimal n else decimal n

unfoldable pub key : SaveSettingsTime → ℤ → ℕ → Text
unfolding decimal
key t year day_of_year =
    show_int year
    ++ b'-' ∷ decimal day_of_year
    ++ b'-' ∷ two_digits t.hour
    ++ b':' ∷ two_digits t.minute

-- What a turn of the loop reads of the clock.
pub record Sample : Type 0 where
  pub year : ℤ
  pub day_of_year : ℕ
  pub hour : ℕ
  pub minute : ℕ

abbrev is_last : Option Text → Text → Bool
is_last none k = false
is_last (some last) k = text_eq last k

-- One turn of the loop: whether the command is sent, and the key that is remembered.
abbrev pub fired : Option Text → Text → Bool × Option Text
fired last k = if is_last last k then (false, last) else (true, some k)

abbrev pub due : Sample → Option Text → Option SaveSettingsTime → Bool × Option Text
due now last none = (false, last)
due now last (some target) = fired last (key target now.year now.day_of_year)

unfoldable pub save_settings_turn :
    List SaveSettingsTime → Sample → Option Text → Bool × Option Text
unfolding key text_eq
save_settings_turn times now last =
    due now last (find (λ t. t.hour == now.hour && t.minute == now.minute) times)

-- The turns at which the command is sent, while its channel is open.
unfoldable pub sent : List SaveSettingsTime → List Sample → Option Text → List Sample
unfolding save_settings_turn
sent times [] last = []
sent times (now ∷ rest) last =
    let turn = save_settings_turn times now last in
    let later = sent times rest turn.1 in if turn.0 then now ∷ later else later

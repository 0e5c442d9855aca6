-- ===== src/TimeSync.antt =====
-- ibctl/src/time_sync.rs: the login delay that Gateway's texts ask for.
pub mod Corrected
pub mod Delay
pub mod Median
pub mod Offset
mod Tests
use ibctl.Base.{
  ℕ, ◌+◌, ◌-◌, ◌*◌, ◌^◌, ◌≡◌, ◌≤◌, refl, Bool, true, false, not, ◌&&◌, ◌||◌, Option, none, some,
  List, [], ◌∷◌, map, min, ◌==◌, ltb, leb, if◌then◌else◌, arith, Option-cases, inl, inr,
}
use ibctl.Base.Text.{Text, codes, is_whitespace}
use ibctl.Base.Decimal.{parse_u64, is_digit}
use ibctl.Base.Words.{
  ascii_lower, contains, contains_any, split_on, split_once, split_whitespace, words_from,
  starts_with, trim_matches,
}

unfoldable pub is_twofa_failure : Text → Bool
unfolding contains starts_with
is_twofa_failure text =
    let lower = map ascii_lower text in
    contains_any lower (
      codes "security code"
      ∷ codes "authentication code"
      ∷ codes "verification code"
      ∷ codes "2fa"
      ∷ codes "two-factor"
      ∷ codes "second factor"
      ∷ [])
    && contains_any lower (
        codes "incorrect"
        ∷ codes "invalid"
        ∷ codes "failed"
        ∷ codes "not valid"
        ∷ codes "try again"
        ∷ codes "retry"
        ∷ [])

abbrev u64_max : ℕ
u64_max = 2 ^ 64 - 1

abbrev pub saturating_add : ℕ → ℕ → ℕ
saturating_add a b = min (a + b) u64_max

abbrev saturating_mul : ℕ → ℕ → ℕ
saturating_mul a b = min (a * b) u64_max

abbrev pub ends_segment : ℕ → Bool
ends_segment c = c == b'.' || c == b'!' || c == 10 || c == b';'

abbrev pub not_clock : ℕ → Bool
not_clock c = not (is_digit c) && not (c == b':')

abbrev pub clock_time : Option ℕ → Option ℕ → Option ℕ
clock_time (some minutes) (some seconds) =
    if ltb seconds 60
    then some (min (saturating_add (saturating_mul minutes 60) seconds) 3600)
    else none
clock_time _ _ = none

unfoldable pub clock_parts : Option (Text × Text) → Option ℕ
unfolding parse_u64
clock_parts none = none
clock_parts (some (minutes, seconds)) = clock_time (parse_u64 minutes) (parse_u64 seconds)

-- A countdown as mm:ss.
unfoldable pub clock : Text → Option ℕ
unfolding trim_matches split_once clock_parts
clock token = clock_parts (split_once b':' (trim_matches not_clock token))

unfoldable pub first_clock : List Text → Option ℕ
unfolding clock
first_clock [] = none
first_clock (token ∷ tokens) = elim (clock token) [ some n ↦ some n | none ↦ first_clock tokens ]

abbrev is_alphanumeric : ℕ → Bool
is_alphanumeric c = is_digit c || (leb b'A' c && leb c b'Z') || (leb b'a' c && leb c b'z')

abbrev pub spaced : ℕ → ℕ
spaced c = if is_alphanumeric c then c else 32

abbrev next_word : List Text → Text
next_word [] = []
next_word (word ∷ words) = word

-- One number with its unit.
abbrev count : ℕ × Bool → Option ℕ → Text → ℕ × Bool
count (total, found) none unit = (total, found)
count (total, found) (some value) unit =
    let (after_sec, found_sec) =
      if starts_with unit (codes "sec")
      then (saturating_add total value, true)
      else (total, found) in
    if starts_with unit (codes "min")
    then (saturating_add after_sec (saturating_mul value 60), true)
    else (after_sec, found_sec)

unfoldable pub totals : ℕ × Bool → List Text → ℕ × Bool
unfolding parse_u64 starts_with
totals acc [] = acc
totals acc (word ∷ words) = totals (count acc (parse_u64 word) (next_word words)) words

abbrev pub retry_context : Text → Bool
retry_context segment = contains_any segment (
    codes "retry"
    ∷ codes "try again"
    ∷ codes "wait"
    ∷ codes "attempt again"
    ∷ codes "until retry"
    ∷ [])

abbrev pub found_total : ℕ × Bool → Option ℕ
found_total (total, true) = some (min total 3600)
found_total (total, false) = none

-- What one sentence says.
unfoldable pub segment_delay : Text → Option ℕ
unfolding first_clock totals contains split_whitespace
segment_delay segment =
    if not (retry_context segment) then none else elim (first_clock (split_whitespace segment)) [
      | some n ↦ some n
      | none ↦ found_total (totals (0, false) (split_whitespace (map spaced segment)))
    ]

unfoldable pub first_delay : List Text → Option ℕ
unfolding segment_delay
first_delay [] = none
first_delay (segment ∷ segments) = elim (segment_delay segment) [
  | some n ↦ some n
  | none ↦ first_delay segments
]

unfoldable pub parse_retry_seconds : Text → Option ℕ
unfolding first_delay split_on
parse_retry_seconds text = first_delay (split_on ends_segment (map ascii_lower text))

-- ===== src/TimeSync/Delay.antt =====
-- The delays that ibctl/src/time_sync.rs reads.
use ibctl.Base.{ℕ, ◌≡◌, ◌≤◌, refl, Bool, true, false, Option, none, some, List, [], ◌∷◌, map, arith}
use ibctl.Base.Text.{Text, codes}
use ibctl.Base.Decimal.{parse_u64}
use ibctl.Base.Words.{ascii_lower, split_on, split_once, split_whitespace, trim_matches}
use ibctl.TimeSync.{
  clock_time, clock_parts, clock, first_clock, totals, segment_delay, first_delay,
  parse_retry_seconds, ends_segment, not_clock, spaced, found_total,
}

-- The texts of the source's own test.
countdown :
    parse_retry_seconds (codes "Incorrect security code. Try again in 43 seconds.") ≡ some 43
unfolding parse_retry_seconds
countdown = refl

minutes_and_seconds : parse_retry_seconds (codes "Try again in 1 minute 23 seconds") ≡ some 83
unfolding parse_retry_seconds
minutes_and_seconds = refl

clock_text : parse_retry_seconds (codes "Retry available in 01:17") ≡ some 77
unfolding parse_retry_seconds
clock_text = refl

no_context : parse_retry_seconds (codes "Session duration 2 minutes") ≡ none
unfolding parse_retry_seconds
no_context = refl

-- No delay, or one of at most an hour.
abbrev pub WithinHour : Option ℕ → Type 0
WithinHour none = Unit
WithinHour (some n) = n ≤ 3600

clock_time-WithinHour : (m s : Option ℕ) → WithinHour (clock_time m s)
clock_time-WithinHour (some m) (some s) = ground arith
clock_time-WithinHour none s = tt
clock_time-WithinHour (some m) none = tt

clock_parts-WithinHour : (parts : Option (Text × Text)) → WithinHour (clock_parts parts)
unfolding clock_parts
clock_parts-WithinHour none = tt
clock_parts-WithinHour (some (m, s)) = clock_time-WithinHour (parse_u64 m) (parse_u64 s)

clock-WithinHour : (token : Text) → WithinHour (clock token)
unfolding clock
clock-WithinHour token = clock_parts-WithinHour (split_once b':' (trim_matches not_clock token))

first_clock-WithinHour : (tokens : List Text) → WithinHour (first_clock tokens)
unfolding first_clock
first_clock-WithinHour [] = tt
first_clock-WithinHour (token ∷ tokens) =
    ground (arith, clock-WithinHour token, first_clock-WithinHour tokens)

found_total-WithinHour : (acc : ℕ × Bool) → WithinHour (found_total acc)
found_total-WithinHour (total, true) = omega arith
found_total-WithinHour (total, false) = tt

segment_delay-WithinHour : (segment : Text) → WithinHour (segment_delay segment)
unfolding segment_delay
segment_delay-WithinHour segment = ground (
  arith,
  first_clock-WithinHour (split_whitespace segment),
  found_total-WithinHour (totals (0, false) (split_whitespace (map spaced segment))),
)

first_delay-WithinHour : (segments : List Text) → WithinHour (first_delay segments)
unfolding first_delay
first_delay-WithinHour [] = tt
first_delay-WithinHour (segment ∷ segments) =
    ground (arith, segment_delay-WithinHour segment, first_delay-WithinHour segments)

pub parse_retry_seconds-WithinHour : (text : Text) → WithinHour (parse_retry_seconds text)
unfolding parse_retry_seconds
parse_retry_seconds-WithinHour text =
    first_delay-WithinHour (split_on ends_segment (map ascii_lower text))

-- ===== src/TimeSync/Tests.antt =====
-- The clock's offset at concrete samples.
use ibctl.Base.{
  ℕ, ◌+◌, ◌/◌, ◌≡◌, ◌≤◌, true, false, refl, Option, none, some, List, [], ◌∷◌, if◌then◌else◌, ◌==◌,
}
use ibctl.Base.Int.{ℤ, pos, negsuc}
use ibctl.Base.Text.{Text, codes, trim, trim_start, is_whitespace, split}
use ibctl.TimeSync.Median.{IsMedian, accepted_offsets, verify_servers-IsMedian}
use ibctl.TimeSync.Offset.{verify_servers}
use ibctl.TimeSync.Corrected.{
  Verification, verifications, verify_now, ntp_servers, unverified, corrected_unix_seconds,
  corrected_unix_seconds-verifications,
}

-- Three servers, one of which is two hours off, and one that does not answer.
abbrev sample : ℕ → Text → Option ℤ
sample n [] = none
sample n (c ∷ cs) =
    if c == b'a'
    then some (negsuc 39)
    else if c == b'b'
    then some (pos 25)
    else if c == b'c'
    then some (pos 7200000)
    else none

abbrev servers : List Text
servers = codes "a:123" ∷ codes "b:123" ∷ codes "c:123" ∷ codes "d:123" ∷ []

verify_servers-IsMedian_example :
    IsMedian (accepted_offsets sample servers) (record { offset_ms = pos 25; samples = 2 })
unfolding verify_servers
verify_servers-IsMedian_example =
    verify_servers-IsMedian sample servers (record { offset_ms = pos 25; samples = 2 }) refl

abbrev started : Verification
started = record {
  sample_ntp = sample;
  setting = some (codes "a:123, ,b:123");
  task_fails = false;
  now_secs = 1700;
}

corrected_unix_seconds-verifications_example :
    (s : ℕ) × (corrected_unix_seconds
        (some 1_700_000)
        (verifications (started ∷ record started { task_fails = true } ∷ []) unverified)
      ≡ some s)
    × (s ≤ 1_700_000 / 1000 + 120)
    × (1_700_000 / 1000 ≤ s + 120)
corrected_unix_seconds-verifications_example =
    corrected_unix_seconds-verifications (started ∷ record started { task_fails = true } ∷ [])
      1_700_000

-- The offset of 25 ms takes the last millisecond of a second into the next one.
corrected_test :
    corrected_unix_seconds (some 1_699_980) (verifications (started ∷ []) unverified) ≡ some 1700
unfolding corrected_unix_seconds verifications verify_now ntp_servers verify_servers trim trim_start
    is_whitespace split
corrected_test = refl

-- ===== src/TimeSync/Corrected.antt =====
-- The offset that ibctl/src/time_sync.rs keeps between verifications, and the time that codes are
-- generated for. The request for the host's own synchronisation is left out: it is a file that the
-- program never reads.
use ibctl.Base.{
  ℕ, ◌+◌, ◌-◌, ◌/◌, ◌≡◌, ◌≤◌, refl, Bool, not, Option, none, some, List, [], ◌∷◌, map, filter_by,
  arith, Bool-cases, inl, inr, true, false, if◌then◌else◌,
}
use ibctl.Base.Text.{Text, codes, trim, split}
use ibctl.Base.Int.{ℤ, pos, negsuc, pos_part, neg_part}
use ibctl.TimeSync.Offset.{TimeSyncResult, abs, verify_servers}
use ibctl.TimeSync.Median.{verify_servers-IsMedian}

-- The two atomics.
pub record Clock : Type 0 where
  pub verified_offset_ms : ℤ
  pub last_verified_unix_secs : ℕ

abbrev pub unverified : Clock
unverified = record { verified_offset_ms = pos 0; last_verified_unix_secs = 0 }

-- The local time in milliseconds since 1970, `none` if the clock is before that.
unfoldable pub corrected_unix_seconds : Option ℕ → Clock → Option ℕ
corrected_unix_seconds none clock = none
corrected_unix_seconds (some local_ms) clock =
    some ((local_ms + pos_part clock.verified_offset_ms - neg_part clock.verified_offset_ms) / 1000)

abbrev default_servers : List Text
default_servers =
    codes "time.cloudflare.com:123" ∷ codes "time.google.com:123" ∷ codes "pool.ntp.org:123" ∷ []

abbrev is_blank : Text → Bool
is_blank [] = true
is_blank (_ ∷ _) = false

abbrev or_default : List Text → List Text
or_default [] = default_servers
or_default (s ∷ ss) = s ∷ ss

-- `IBCTL_NTP_SERVERS`; a list of blanks counts for none.
unfoldable pub ntp_servers : Option Text → List Text
unfolding trim split
ntp_servers none = default_servers
ntp_servers (some value) =
    or_default (filter_by (λ s. not (is_blank s)) (map trim (split b',' value)))

-- What one verification meets: the servers' samples, the setting, whether its task fails, and the
-- seconds of the local clock after it.
pub record Verification : Type 0 where
  pub sample_ntp : ℕ → Text → Option ℤ
  pub setting : Option Text
  pub task_fails : Bool
  pub now_secs : ℕ

abbrev stored : ℕ → Option TimeSyncResult → Clock → Clock
stored now_secs none clock = clock
stored now_secs (some r) clock = record {
  verified_offset_ms = r.offset_ms;
  last_verified_unix_secs = now_secs;
}

unfoldable pub verify_now : Verification → Clock → Clock
unfolding ntp_servers verify_servers
verify_now v clock =
    if v.task_fails
    then clock
    else stored v.now_secs (verify_servers v.sample_ntp (ntp_servers v.setting)) clock

-- `start_periodic_verifier` and every other verification, in turn.
unfoldable pub verifications : List Verification → Clock → Clock
unfolding verify_now
verifications [] clock = clock
verifications (v ∷ vs) clock = verifications vs (verify_now v clock)

-- The kept offset is one that a verification may settle on.
abbrev IsBounded : Clock → Type 0
IsBounded clock = abs clock.verified_offset_ms ≤ 120000

stored-IsBounded :
    (v : Verification) (servers : List Text) (r : Option TimeSyncResult) (clock : Clock)
    → verify_servers v.sample_ntp servers ≡ r
    → IsBounded clock
    → IsBounded (stored v.now_secs r clock)
stored-IsBounded v servers none clock e h = h
stored-IsBounded v servers (some r) clock e h = (verify_servers-IsMedian v.sample_ntp servers r e).0

verify_now-IsBounded :
    (v : Verification) (clock : Clock) → IsBounded clock → IsBounded (verify_now v clock)
unfolding verify_now
verify_now-IsBounded v clock h = elim (Bool-cases v.task_fails) [
  | inl e ↦ rw (e, if◌then◌else◌) h
  | inr e ↦
      rw (e, if◌then◌else◌)
        (stored-IsBounded v (ntp_servers v.setting)
          (verify_servers v.sample_ntp (ntp_servers v.setting)) clock refl h)
]

verifications-IsBounded :
    (vs : List Verification) (clock : Clock) → IsBounded clock → IsBounded (verifications vs clock)
unfolding verifications
verifications-IsBounded [] clock h = h
verifications-IsBounded (v ∷ vs) clock h =
    verifications-IsBounded vs (verify_now v clock) (verify_now-IsBounded v clock h)

corrected_near :
    (local_ms : ℕ) (offset : ℤ)
    → abs offset ≤ 120000
    → ((local_ms + pos_part offset - neg_part offset) / 1000 ≤ local_ms / 1000 + 120)
      × (local_ms / 1000 ≤ (local_ms + pos_part offset - neg_part offset) / 1000 + 120)
corrected_near local_ms (pos n) h = omega arith
corrected_near local_ms (negsuc n) h = omega arith

-- Whatever the servers answer, the settings say and the tasks come to, after any number of
-- verifications since the start of the program there is a time that codes are generated for, and it
-- is within two minutes of the local clock's.
pub corrected_unix_seconds-verifications :
    (vs : List Verification) (local_ms : ℕ)
    → (s : ℕ) × (corrected_unix_seconds (some local_ms) (verifications vs unverified) ≡ some s)
      × (s ≤ local_ms / 1000 + 120)
      × (local_ms / 1000 ≤ s + 120)
unfolding corrected_unix_seconds
corrected_unix_seconds-verifications vs local_ms =
    let offset = (verifications vs unverified).verified_offset_ms in
    let near =
      corrected_near local_ms offset (verifications-IsBounded vs unverified (omega arith)) in
    ((local_ms + pos_part offset - neg_part offset) / 1000, refl, near.0, near.1)

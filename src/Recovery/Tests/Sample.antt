-- ===== src/Recovery/Tests/Sample.antt =====
-- A concrete platform: instants are seconds, a marker is a list of numbers, the digest is the nonce
-- with the second before it.
use ibctl.Base.{ℕ, zero, suc, ◌≡◌, refl, true, false, Option, none, some, [], ◌∷◌, arith}
use ibctl.Base.Int.{pos, pos_part}
use ibctl.Base.Text.{Text, codes}
use ibctl.Recovery.Decision.{
  Phase, aggressive, backoff_every_15min, given_up, as_str, default_config, ResumeToken,
}
use ibctl.Recovery.Disk.{Fs, missing}
use ibctl.Recovery.Persist.{RecoveryPersistedState, Json, IsFaithful}
use ibctl.Recovery.Coordinator.{Platform, RecoveryCoordinator}

abbrev phase_code : Phase → ℕ
phase_code aggressive = 0
phase_code backoff_every_15min = 1
phase_code given_up = 2

abbrev phase_of : ℕ → Phase
phase_of zero = aggressive
phase_of (suc zero) = backoff_every_15min
phase_of (suc (suc _)) = given_up

abbrev flag : Option ℕ → ℕ
flag none = 0
flag (some _) = 1

abbrev value : Option ℕ → ℕ
value none = 0
value (some n) = n

abbrev option_of : ℕ → ℕ → Option ℕ
option_of zero n = none
option_of (suc _) n = some n

abbrev text_cells : Option Text → Text
text_cells none = 0 ∷ []
text_cells (some t) = 1 ∷ t

abbrev text_of : Text → Option Text
text_of [] = none
text_of (zero ∷ t) = none
text_of (suc _ ∷ t) = some t

abbrev pub write_state : RecoveryPersistedState ℕ ℕ → Text
write_state s =
    s.schema_version
    ∷ phase_code s.phase
    ∷ s.phase_entered_at
    ∷ s.phase_entered_at_monotonic_secs_since_boot
    ∷ flag s.last_full_success_at
    ∷ value s.last_full_success_at
    ∷ flag s.giveup_alert_sent_at
    ∷ value s.giveup_alert_sent_at
    ∷ phase_code s.last_known_phase
    ∷ text_cells s.resumed_by_token_hash

abbrev pub read_state : Text → Option (RecoveryPersistedState ℕ ℕ)
read_state (v ∷ p ∷ e ∷ m ∷ sf ∷ s ∷ af ∷ a ∷ k ∷ rest) = some (record {
  schema_version = v;
  phase = phase_of p;
  phase_entered_at = e;
  phase_entered_at_monotonic_secs_since_boot = m;
  last_full_success_at = option_of sf s;
  giveup_alert_sent_at = option_of af a;
  resumed_by_token_hash = text_of rest;
  last_known_phase = phase_of k;
})
read_state _ = none

abbrev peek_state : Text → Option Text
peek_state (v ∷ p ∷ e ∷ m ∷ sf ∷ s ∷ af ∷ a ∷ k ∷ rest) = some (as_str (phase_of k))
peek_state _ = none

abbrev pub sample_json : Json ℕ ℕ
sample_json = record { encode = λ s. some (write_state s); decode = read_state; peek = peek_state }

abbrev pub sample_platform : Platform ℕ ℕ
sample_platform = record {
  json = sample_json;
  timestamp = λ w. w;
  as_second = pos;
  digest = λ mode second nonce. pos_part second ∷ nonce;
}

phase_back : (p : Phase) → phase_of (phase_code p) ≡ p
phase_back aggressive = refl
phase_back backoff_every_15min = refl
phase_back given_up = refl

option_back : (o : Option ℕ) → option_of (flag o) (value o) ≡ o
option_back none = refl
option_back (some n) = refl

text_back : (o : Option Text) → text_of (text_cells o) ≡ o
text_back none = refl
text_back (some t) = refl

pub sample-IsFaithful : IsFaithful sample_json
sample-IsFaithful = record {
  decode-encode = λ s t e. ground (
    arith,
    phase_back s.phase,
    phase_back s.last_known_phase,
    option_back s.last_full_success_at,
    option_back s.giveup_alert_sent_at,
    text_back s.resumed_by_token_hash,
  );
}

abbrev pub empty_dir : Fs
empty_dir _ = missing

abbrev pub paper : Text
paper = codes "paper"

-- In backoff since second 1000.
abbrev pub in_backoff : RecoveryCoordinator ℕ ℕ
in_backoff = record {
  mode = paper;
  config = default_config;
  phase = backoff_every_15min;
  phase_entered_at_wall = 1000;
  phase_entered_at_mono = 0;
  last_full_success_at = none;
  last_full_success_mono = none;
  giveup_alert_sent_at = none;
  resumed_by_token_hash = none;
  blocked_awaiting_resume = false;
  giveup_signal_tx = true;
}

-- Given up at second 11800.
abbrev pub halted : RecoveryCoordinator ℕ ℕ
halted = record in_backoff {
  phase = given_up;
  phase_entered_at_wall = 11800;
  giveup_alert_sent_at = some 11800;
}

abbrev pub tap : ResumeToken ℕ
tap = record { mode = paper; minted_at = 20000; nonce_material = codes "url" }

-- ===== src/TimeSync/Offset.antt =====
-- The clock of ibctl/src/time_sync.rs. What a sample gives is a parameter, of its number and
-- its server: the offset in milliseconds, or none where the sample fails.
use ibctl.Base.{
  ℕ, suc, ◌+◌, ◌/◌, Bool, true, false, Option, none, some, List, [], ◌∷◌, leb, length, get_elem?,
  filter_by, if◌then◌else◌,
}
use ibctl.Base.Text.{Text}
use ibctl.Base.Int.{ℤ, pos, negsuc}

pub record TimeSyncResult : Type 0 where
  pub offset_ms : ℤ
  pub samples : ℕ

abbrev pub abs : ℤ → ℕ
abs (pos n) = n
abs (negsuc n) = suc n

abbrev pub int_leb : ℤ → ℤ → Bool
int_leb (pos m) (pos n) = leb m n
int_leb (pos m) (negsuc n) = false
int_leb (negsuc m) (pos n) = true
int_leb (negsuc m) (negsuc n) = leb n m

abbrev max_accepted_offset_ms : ℕ
max_accepted_offset_ms = 120000

abbrev pub accepted : ℤ → Bool
accepted offset = leb (abs offset) max_accepted_offset_ms

abbrev pub insert : ℤ → List ℤ → List ℤ
insert x [] = x ∷ []
insert x (y ∷ ys) = if int_leb x y then x ∷ y ∷ ys else y ∷ insert x ys

abbrev pub sort_unstable : List ℤ → List ℤ
sort_unstable [] = []
sort_unstable (x ∷ xs) = insert x (sort_unstable xs)

abbrev pub successes : {A : Type 0} → List (Option A) → List A
successes [] = []
successes (none ∷ xs) = successes xs
successes (some x ∷ xs) = x ∷ successes xs

abbrev pub median : List ℤ → Option TimeSyncResult
median offsets = elim (get_elem? (sort_unstable offsets) (length (sort_unstable offsets) / 2)) [
  | none ↦ none
  | some offset ↦ some (record { offset_ms = offset; samples = length offsets })
]

-- Each server's sample, from the one with this number on.
unfoldable pub sampled : (ℕ → Text → Option ℤ) → ℕ → List Text → List (Option ℤ)
sampled sample_ntp n [] = []
sampled sample_ntp n (server ∷ servers) = sample_ntp n server ∷ sampled sample_ntp (n + 1) servers

unfoldable pub verify_servers : (ℕ → Text → Option ℤ) → List Text → Option TimeSyncResult
unfolding sampled
verify_servers sample_ntp servers =
    median (filter_by accepted (successes (sampled sample_ntp 0 servers)))

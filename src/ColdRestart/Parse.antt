-- ===== src/ColdRestart/Parse.antt =====
-- The texts of TWS_COLD_RESTART that ibctl/src/cold_restart.rs accepts.
use ibctl.Base.{
  ℕ, ◌≡◌, ◌≢◌, ◌<◌, refl, ap, ◌∙◌, none, some, List, [], ◌∷◌, ◌++◌, arith, Option-cases, inl, inr,
  All,
}
use ibctl.Base.Text.{Text, trim, split, is_whitespace}
use ibctl.Base.Decimal.{
  decimal, parse_u32, parse_u32-decimal, split-digits, split-append, decimal-IsDigit, trim-IsSolid,
  All-append, IsSolid, IsDigit-IsSolid,
}
use ibctl.ColdRestart.{SchedulerConfig, parse_parts, parse_cold_restart_time}
use ibctl.ColdRestart.Laws.{IsValidTarget}
use ibctl.ColdRestart.Scheduler.{cold_restart_scheduler}

parsed_lem : (parts : List Text) (h m : ℕ) → parse_parts parts ≡ some (h, m) → (h < 24) × (m < 60)
unfolding parse_parts
parsed_lem [] h m e = ground arith
parsed_lem (p ∷ []) h m e = ground arith
parsed_lem (p ∷ q ∷ r ∷ rs) h m e = ground arith
parsed_lem (p ∷ q ∷ []) h m e = elim (Option-cases (parse_u32 p)) [
  | inl n ↦ ground (arith, n)
  | inr (a, f) ↦ elim (Option-cases (parse_u32 q)) [
    | inl n ↦ ground (arith, f, n)
    | inr (b, g) ↦ ground (arith, f, g)
  ]
]

parsed_time_lem :
    (s : Text) (h m : ℕ) → parse_cold_restart_time s ≡ some (h, m) → (h < 24) × (m < 60)
unfolding parse_cold_restart_time
parsed_time_lem s h m =
    elim (trim s)
      as (λ (t : Text).
        elim t [ [] ↦ none | c ∷ cs ↦ parse_parts (split b':' (c ∷ cs)) ] ≡ some (h, m)
        → (h < 24) × (m < 60)) [
          | [] ↦ λ e. ground arith
          | c ∷ cs ↦ λ e. parsed_lem (split b':' (c ∷ cs)) h m e
        ]

-- Whatever the configured texts are, a scheduler that runs has a target that can be met: an hour
-- and a minute of the day, and a weekday.
pub cold_restart_scheduler-IsValidTarget :
    {Zoned : Type 0} (time_str : Text) (day : ℕ) (now : Zoned) (cfg : SchedulerConfig Zoned)
    → cold_restart_scheduler time_str day now ≡ some cfg
    → IsValidTarget cfg × (cfg.target_dow < 7)
unfolding cold_restart_scheduler
cold_restart_scheduler-IsValidTarget time_str day now cfg e =
    elim (Option-cases (parse_cold_restart_time time_str)) [
      | inl n ↦ ground (arith, n)
      | inr ((h, m), f) ↦ ground (arith, f, parsed_time_lem time_str h m f)
    ]

parse_trimmed :
    (s t : Text) → trim s ≡ t → t ≢ [] → parse_cold_restart_time s ≡ parse_parts (split b':' t)
unfolding parse_cold_restart_time
parse_trimmed s [] e n = absurd (n refl)
parse_trimmed s (c ∷ cs) e n = ground (arith, e)

clock_text-IsSolid : (h m : ℕ) → All IsSolid (decimal h ++ (b':' ∷ decimal m))
unfolding is_whitespace
clock_text-IsSolid h m =
    All-append IsSolid (decimal h) (b':' ∷ decimal m)
      (IsDigit-IsSolid (decimal h) (decimal-IsDigit h))
      (refl, IsDigit-IsSolid (decimal m) (decimal-IsDigit m))

append-nonempty : (s t : Text) (c : ℕ) → s ++ (c ∷ t) ≢ []
append-nonempty [] t c = λ e. ground arith
append-nonempty (d ∷ s) t c = λ e. ground arith

-- A time of day printed without padding is parsed to itself.
parse_cold_restart_time-decimal :
    (h m : ℕ)
    → h < 24
    → m < 60
    → parse_cold_restart_time (decimal h ++ (b':' ∷ decimal m)) ≡ some (h, m)
unfolding parse_parts
parse_cold_restart_time-decimal h m hb mb =
    let text = decimal h ++ (b':' ∷ decimal m) in
    parse_trimmed text text (trim-IsSolid text (clock_text-IsSolid h m))
      (append-nonempty (decimal h) (decimal m) b':')
    ∙ ap parse_parts (
        split-append b':' (decimal h) (decimal m) (decimal-IsDigit h) refl
        ∙ ap (λ u. decimal h ∷ u) (split-digits b':' (decimal m) (decimal-IsDigit m) refl))
    ∙ ground (arith, parse_u32-decimal h (omega arith), parse_u32-decimal m (omega arith))

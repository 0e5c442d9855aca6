-- ===== src/SaveSettings/Tests.antt =====
-- Schedules of texts, and a run of the loop.
use ibctl.Base.{ℕ, ◌≡◌, any, map, refl, none, [], ◌∷◌, All}
use ibctl.Base.Text.{Text, codes, text_eq, split, is_whitespace}
use ibctl.Base.Int.{pos}
use ibctl.Base.Words.{split_whitespace}
use ibctl.Base.Decimal.{parse_u32, parse_below, parse_digits, digits, decimal, show_int}
use ibctl.SaveSettings.{
  parse_save_settings_schedule, sort_by_key, insert, collect, candidates, parse_time, parse_clock,
  hour_of, is_ampm, SaveSettingsTime, same_time, normalized, Sample, sent, save_settings_turn, key,
}
use ibctl.SaveSettings.Schedule.{
  IsTime, IsAscending, is_parsed, parse_save_settings_schedule-IsAscending,
}

-- An invalid hour is passed over, and a time that is given twice is taken once.
schedule_test :
    parse_save_settings_schedule (codes "5:30 pm, 08:00;25:00 17:30 12:05 AM")
    ≡ record { hour = 0; minute = 5 }
      ∷ record { hour = 8; minute = 0 }
      ∷ record { hour = 17; minute = 30 }
      ∷ []
unfolding parse_save_settings_schedule sort_by_key insert collect candidates parse_time parse_clock
    hour_of is_ampm text_eq split is_whitespace split_whitespace parse_u32 parse_below parse_digits
    digits
schedule_test = refl

abbrev configured : Text
configured = codes "5:30 pm, 08:00;25:00 17:30 12:05 AM"

parse_save_settings_schedule-IsAscending_example :
    All IsTime (parse_save_settings_schedule configured)
    × IsAscending (parse_save_settings_schedule configured)
    × ((t : SaveSettingsTime)
        → any (same_time t) (parse_save_settings_schedule configured)
          ≡ any
              (λ c. is_parsed t (parse_time c))
              (candidates (split_whitespace (map normalized configured))))
parse_save_settings_schedule-IsAscending_example =
    parse_save_settings_schedule-IsAscending configured

abbrev at : ℕ → ℕ → Sample
at day minute = record { year = pos 2026; day_of_year = day; hour = 8; minute = minute }

-- Two samples in one minute send the command once, and the next day sends it again.
sent_test :
    sent (record { hour = 8; minute = 0 } ∷ []) (at 7 0 ∷ at 7 0 ∷ at 7 1 ∷ at 8 0 ∷ []) none
    ≡ at 7 0 ∷ at 8 0 ∷ []
unfolding sent save_settings_turn key text_eq decimal show_int
sent_test = refl

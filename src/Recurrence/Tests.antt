-- ===== src/Recurrence/Tests.antt =====
-- Patterns followed by hand, and the theorems about them there.
use planer.Prelude.{
  ◌+◌, ◌-◌, ◌*◌, ◌/◌, ◌<◌, ◌≡◌, ◌↔◌, refl, true, false, some, List, [], ◌∷◌, Pairs, In,
}
use planer.Errors.{ok, raise, value_error, error, occurrence_too_long}
use planer.Clock.{Zone, Date, minute}
use planer.Models.{Period, validate_time_window}
use planer.Recurrence.{
  Weekday, Frequency, RecurrenceValues, validate_values, unique_sorted_weekdays, occurrence_dates,
  occurrence_window,
}
use planer.Recurrence.Dates.{Selected, occurrence_dates_exact}
use planer.Recurrence.Windows.{occurrence_window_lem}

-- Monday 2026-03-02
abbrev monday : Date
monday = 739_677

abbrev pattern_of : Frequency → List Weekday → RecurrenceValues
pattern_of frequency days = record {
  title = "swim";
  description = "";
  duration_minutes = 30;
  priority = 5;
  splittable = false;
  preferred_period = Period.any;
  frequency = frequency;
  weekdays = days;
  start_date = monday;
  end_date = some (monday + 9);
  active = true;
}

abbrev pattern : RecurrenceValues
pattern = pattern_of Frequency.weekdays (Weekday.mon ∷ Weekday.thu ∷ [])

pattern_valid : validate_values pattern ≡ true
unfolding validate_values
pattern_valid = refl

sorted_days :
    unique_sorted_weekdays (Weekday.thu ∷ Weekday.mon ∷ []) ≡ ok (Weekday.mon ∷ Weekday.thu ∷ [])
unfolding unique_sorted_weekdays
sorted_days = refl

repeated_days : unique_sorted_weekdays (Weekday.mon ∷ Weekday.mon ∷ []) ≡ raise value_error
unfolding unique_sorted_weekdays
repeated_days = refl

dates_run : occurrence_dates pattern (monday - 3) 7 ≡ ok (monday ∷ (monday + 3) ∷ [])
unfolding occurrence_dates
dates_run = refl

weekly_run :
    occurrence_dates (pattern_of Frequency.weekly []) (monday + 3) 7 ≡ ok ((monday + 7) ∷ [])
unfolding occurrence_dates
weekly_run = refl

two_days : occurrence_dates pattern monday 2 ≡ raise value_error
unfolding occurrence_dates
two_days = refl

occurrence_dates_exact_example :
    Pairs ◌<◌ (monday ∷ (monday + 3) ∷ [])
    × ((day : Date)
        → In (monday ∷ (monday + 3) ∷ []) day
          ↔ ((pattern.active ≡ true) × Selected pattern (monday - 3) 7 day))
occurrence_dates_exact_example =
    occurrence_dates_exact pattern (monday - 3) 7 (monday ∷ (monday + 3) ∷ []) dates_run

-- Days of forty minutes.
abbrev short_zone : Zone
short_zone = record {
  midnight = λ d. d * (40 * minute);
  local_date = λ t. t / (40 * minute);
  local_hour = λ t. 0;
}

window_run : occurrence_window short_zone 5 30 ≡ ok (5 * (40 * minute), 6 * (40 * minute))
unfolding occurrence_window
window_run = refl

next_run : occurrence_window short_zone 6 40 ≡ ok (6 * (40 * minute), 7 * (40 * minute))
unfolding occurrence_window
next_run = refl

long_run : occurrence_window short_zone 5 41 ≡ raise (error 422 occurrence_too_long)
unfolding occurrence_window
long_run = refl

occurrence_window_lem_example :
    (6 * (40 * minute) ≡ 6 * (40 * minute))
    × (short_zone.local_date (5 * (40 * minute)) ≡ 5)
    × (validate_time_window
          (record {
            earliest_start = some (5 * (40 * minute));
            deadline = some (6 * (40 * minute));
          })
          30
        ≡ true)
occurrence_window_lem_example =
    occurrence_window_lem short_zone 5 30 40 (5 * (40 * minute), 6 * (40 * minute))
      (6 * (40 * minute), 7 * (40 * minute)) window_run next_run

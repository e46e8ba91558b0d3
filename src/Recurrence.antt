-- ===== src/Recurrence.antt =====
-- src/smartplanner/recurrence_models.py and src/smartplanner/recurrence.py: the pattern of a
-- recurring activity, its dates in a horizon, and the instants between which a day lies.
-- Parsing a date from a text, and the conversion of a year and a month, happen before.
pub mod Dates
pub mod Windows
mod Tests
use planer.Prelude.{
  ℕ, zero, suc, ◌+◌, ◌-◌, ◌*◌, ◌%◌, Bool, true, false, not, ◌&&◌, ◌||◌, String, Option, none, some,
  List, [], ◌∷◌, map, length, filter_if, contains, ltb, leb, ◌==◌, if◌then◌else◌,
}
use planer.Errors.{
  Result, ok, raise, value_error, error, raise_if, ◌>>=◌, ◌>>◌, nonexistent_occurrence_day,
  occurrence_too_long,
}
use planer.Clock.{Instant, Date, Zone, minute}
use planer.Models.{Period, is_title, is_description, is_priority, within}
use planer.Planning.{all_distinct}

pub data Weekday : Type 0 where
  mon tue wed thu fri sat sun : Weekday

pub data Frequency : Type 0 where
  daily weekdays weekly : Frequency

-- `WEEKDAYS`, and the place of a day in it
abbrev pub week : List Weekday
week =
    Weekday.mon ∷ Weekday.tue ∷ Weekday.wed ∷ Weekday.thu ∷ Weekday.fri ∷ Weekday.sat ∷ Weekday.sun
    ∷ []

unfoldable pub number : Weekday → ℕ
number Weekday.mon = 0
number Weekday.tue = 1
number Weekday.wed = 2
number Weekday.thu = 3
number Weekday.fri = 4
number Weekday.sat = 5
number Weekday.sun = 6

-- `date.weekday`: the first of January of the year 1, whose ordinal is 1, was a Monday.
unfoldable pub weekday : Date → ℕ
weekday day = (day + 6) % 7

pub record RecurrenceValues : Type 0 where
  pub title : String
  pub description : String
  pub duration_minutes : ℕ
  pub priority : ℕ
  pub splittable : Bool
  pub preferred_period : Period
  pub frequency : Frequency
  pub weekdays : List Weekday
  pub start_date : Date
  pub end_date : Option Date
  pub active : Bool

-- `calendar_day` of a date: from 2000-01-01 to 2100-12-31.
unfoldable pub calendar_day : Date → Bool
unfolding within
calendar_day day = within 730_120 767_009 day

-- `day in value`
unfoldable pub has_weekday : ℕ → List Weekday → Bool
unfolding contains number
has_weekday day days = contains day (map number days)

-- `unique_sorted_weekdays`
unfoldable pub unique_sorted_weekdays : List Weekday → Result (List Weekday)
unfolding all_distinct number filter_if has_weekday
unique_sorted_weekdays days =
    if all_distinct (map number days)
    then ok (filter_if (λ day. has_weekday (number day) days) week)
    else raise value_error

unfoldable pub is_weekdays : Frequency → Bool
is_weekdays Frequency.daily = false
is_weekdays Frequency.weekdays = true
is_weekdays Frequency.weekly = false

abbrev same : Bool → Bool → Bool
same true b = b
same false b = not b

-- `day is not None and ...`
abbrev pub if_some {ℓ} : {A : Type ℓ} → (A → Bool) → Option A → Bool
if_some test none = false
if_some test (some a) = test a

-- `consistent_pattern`
unfoldable pub consistent_pattern : RecurrenceValues → Bool
unfolding is_weekdays
consistent_pattern values =
    same (is_weekdays values.frequency) (ltb 0 (length values.weekdays))
    && not (if_some (λ day. ltb day values.start_date) values.end_date)

unfoldable pub validate_values : RecurrenceValues → Bool
unfolding is_title is_description is_priority within calendar_day consistent_pattern
validate_values values =
    is_title values.title
    && is_description values.description
    && within 1 1440 values.duration_minutes
    && is_priority values.priority
    && calendar_day values.start_date
    && not (if_some (λ day. not (calendar_day day)) values.end_date)
    && consistent_pattern values

-- The tests of the loop over the days, each of which passes over the day.
unfoldable pub is_outside : RecurrenceValues → Date → Bool
is_outside values day = ltb day values.start_date || if_some (λ last. ltb last day) values.end_date

unfoldable pub is_off_week : Frequency → Date → Date → Bool
unfolding weekday
is_off_week Frequency.daily first day = false
is_off_week Frequency.weekdays first day = false
is_off_week Frequency.weekly first day = not (weekday day == weekday first)

unfoldable pub is_off_weekdays : Frequency → List Weekday → Date → Bool
unfolding weekday has_weekday
is_off_weekdays Frequency.daily selected day = false
is_off_weekdays Frequency.weekdays selected day = not (has_weekday (weekday day) selected)
is_off_weekdays Frequency.weekly selected day = false

-- The loop, with the number of days that are left.
unfoldable pub select_days : RecurrenceValues → ℕ → Date → List Date
unfolding is_outside is_off_week is_off_weekdays
select_days values zero day = []
select_days values (suc left) day =
    let rest = select_days values left (day + 1) in
    if is_outside values day
    then rest
    else if is_off_week values.frequency values.start_date day
    then rest
    else if is_off_weekdays values.frequency values.weekdays day
    then rest
    else day ∷ rest

unfoldable pub occurrence_dates : RecurrenceValues → Date → ℕ → Result (List Date)
unfolding select_days
occurrence_dates values start days = do
  raise_if (not (days == 1 || days == 7)) value_error
  if values.active then ok (select_days values days start) else ok []

unfoldable pub occurrence_window : Zone → Date → ℕ → Result (Instant × Instant)
occurrence_window zone day duration = do
  let start = zone.midnight day
  let end = zone.midnight (day + 1)
  raise_if (leb end start || not (zone.local_date start == day))
      (error 422 nonexistent_occurrence_day)
  raise_if (ltb (end - start) (duration * minute)) (error 422 occurrence_too_long)
  ok (start, end)

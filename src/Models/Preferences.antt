-- ===== src/Models/Preferences.antt =====
-- src/smartplanner/models.py: `PreferenceValues`
use planer.Prelude.{ℕ, ◌%◌, Bool, not, ◌&&◌, ◌||◌, ◌==◌, leb}
use planer.Clock.{minute}

pub data DayPart : Type 0 where
  morning afternoon evening : DayPart

pub data Chronotype : Type 0 where
  morning neutral evening : Chronotype

pub data Flexibility : Type 0 where
  low medium high : Flexibility

pub data Workload : Type 0 where
  light medium intense : Workload

-- A `time`: microseconds since midnight, and whether it has a timezone.
pub record TimeOfDay : Type 0 where
  pub since_midnight : ℕ
  pub has_zone : Bool

pub record PreferenceValues : Type 0 where
  pub chronotype : Chronotype
  pub focus_block_minutes : ℕ
  pub break_minutes : ℕ
  pub flexibility : Flexibility
  pub workload : Workload
  pub deep_work_period : DayPart
  pub activity_start : TimeOfDay
  pub activity_end : TimeOfDay

unfoldable pub whole_minute_clock : TimeOfDay → Bool
whole_minute_clock t = not t.has_zone && t.since_midnight % minute == 0

unfoldable pub positive_activity_window : PreferenceValues → Bool
positive_activity_window p = not (leb p.activity_end.since_midnight p.activity_start.since_midnight)

unfoldable pub supported_focus_length : ℕ → Bool
supported_focus_length n = n == 25 || n == 45 || n == 60 || n == 90

unfoldable pub validate_preferences : PreferenceValues → Bool
unfolding whole_minute_clock positive_activity_window supported_focus_length
validate_preferences p =
    supported_focus_length p.focus_block_minutes
    && leb p.break_minutes 60
    && whole_minute_clock p.activity_start
    && whole_minute_clock p.activity_end
    && positive_activity_window p

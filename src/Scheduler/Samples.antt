-- ===== src/Scheduler/Samples.antt =====
-- A small planning problem on which the planner can be followed by hand: days of ten minutes.
use planer.Prelude.{ℕ, ◌+◌, ◌-◌, ◌*◌, ◌/◌, ◌%◌, Bool, true, false, none, some, List, [], ◌∷◌}
use planer.Clock.{Zone, minute}
use planer.Models.{TaskRecord, Period, Status}
use planer.Models.Preferences.{PreferenceValues, Chronotype, Flexibility, Workload, DayPart}
use planer.Planning.{TimeWindow, FixedEvent, PlanBlock, PreviewRequest}

abbrev pub base : ℕ
base = 63_000_000_000_000_000

abbrev pub day : ℕ
day = 600_000_000

abbrev pub short_days : Zone
short_days = record {
  midnight = λ d. base + d * day;
  local_date = λ t. (t - base) / day;
  local_hour = λ t. (t - base) / minute % 10 + 8;
}

abbrev pub date : ℕ
date = 730_200

-- minute i of the day
abbrev pub at : ℕ → ℕ
at i = base + date * day + i * minute

abbrev pub window : ℕ → ℕ → TimeWindow
window left right = record { start = at left; end = at right }

abbrev pub task : ℕ → ℕ → Bool → TaskRecord
task id duration splittable = record {
  created = record {
    times = record { earliest_start = none; deadline = some (at 9) };
    client_request_id = id;
    title = "task";
    description = "";
    duration_minutes = duration;
    priority = 5;
    splittable = splittable;
    preferred_period = Period.morning;
  };
  id = id;
  user_id = 1;
  status = Status.pending;
  version = 1;
  created_at = base;
  updated_at = base;
  recurrence_id = none;
  occurrence_date = none;
}

abbrev pub preferences : PreferenceValues
preferences = record {
  chronotype = Chronotype.neutral;
  focus_block_minutes = 25;
  break_minutes = 1;
  flexibility = Flexibility.medium;
  workload = Workload.medium;
  deep_work_period = DayPart.afternoon;
  activity_start = record { since_midnight = 0; has_zone = false };
  activity_end = record { since_midnight = minute; has_zone = false };
}

abbrev pub event : FixedEvent
event = record { window = window 2 4; title = "class" }

abbrev pub locked_block : PlanBlock
locked_block = record { window = window 7 9; task_id = 3; locked = true }

abbrev pub tasks : List TaskRecord
tasks = task 1 2 true ∷ task 2 6 false ∷ task 3 2 false ∷ []

abbrev pub request : PreviewRequest
request = record {
  planning = record {
    start_date = date;
    days = 1;
    task_ids = 1 ∷ 2 ∷ 3 ∷ [];
    availability = window 0 10 ∷ [];
    fixed_events = event ∷ [];
  };
  previous_blocks = locked_block ∷ [];
}

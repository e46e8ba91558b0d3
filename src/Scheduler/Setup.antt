-- ===== src/Scheduler/Setup.antt =====
-- src/smartplanner/scheduler.py: `_Planner.__init__`. `Setup` holds the fields that nothing writes
-- after it; `busy`, which grows later, is returned beside it.
use planer.Prelude.{
  ℕ, zero, suc, ◌+◌, ◌-◌, ◌*◌, ◌/◌, min, max, Bool, true, false, not, ◌&&◌, ◌||◌, Option, none,
  some, List, [], ◌∷◌, ◌++◌, map, take, drop, replicate, filter_if, all_of, sum_of, contains, ltb,
  leb, ◌==◌, str_lt, if◌then◌else◌, ℤ, pos, pos_part, ltb_ℤ, sort_by,
}
use planer.Errors.{
  Result, ok, error, raise_if, ◌>>=◌, ◌>>◌, value_error, past_planning_date, invalid_local_day,
  unsupported_time_boundary, availability_outside_horizon, event_outside_horizon,
  fixed_event_conflict,
}
use planer.Clock.{Instant, Date, Zone, minute, second_of, int_minutes, ceil_minutes, floor_minutes}
use planer.Models.{TaskRecord, is_pending}
use planer.Models.Preferences.{PreferenceValues, DayPart, Workload}
use planer.Planning.{TimeWindow, FixedEvent, PreviewRequest, all_distinct}
use planer.Scheduler.Mask.{Mask, Interval, fill}

pub record Setup : Type 0 where
  pub request : PreviewRequest
  pub preferences : PreferenceValues
  pub now : Instant
  pub start : Instant
  pub end : Instant
  pub size : ℕ
  pub floor : ℕ
  pub tasks : List TaskRecord
  pub pending : List TaskRecord
  pub available : Mask
  pub day_ranges : List Interval
  pub period_prefix : DayPart → List ℕ
  pub targets : List ℕ

-- `indices`, with the planner's start.
unfoldable pub indices : Instant → TimeWindow → ℤ × ℤ
unfolding int_minutes
indices start window = (int_minutes window.start start, int_minutes window.end start)

-- `indices` where it is known not to be negative.
unfoldable pub interval : Instant → TimeWindow → Interval
unfolding indices
interval start window = let (left, right) = indices start window in (pos_part left, pos_part right)

-- The loop over `request.availability`.
unfoldable pub open_windows : Instant → ℕ → List TimeWindow → Mask → Result Mask
unfolding indices
open_windows start size [] mask = ok mask
open_windows start size (window ∷ rest) mask =
    let (left, right) = indices start window in
    raise_if (ltb_ℤ left (pos 0) || ltb_ℤ (pos size) right) (error 422 availability_outside_horizon)
    >> open_windows start size rest (fill true (pos_part left) (pos_part right) mask)

-- `(event.start, event.end, event.title)` in the order of Python's tuples
unfoldable pub event_before : FixedEvent → FixedEvent → Bool
unfolding str_lt
event_before a b =
    ltb a.start b.start
    || (a.start == b.start && (ltb a.end b.end || (a.end == b.end && str_lt a.title b.title)))

-- `self.busy[-1][1]`, 0 where there is none
unfoldable pub last_end : List Interval → ℕ
last_end [] = 0
last_end (interval ∷ []) = interval.1
last_end (interval ∷ next ∷ rest) = last_end (next ∷ rest)

-- `max(0, left), min(self.size, right)`
unfoldable pub clip : Instant → ℕ → TimeWindow → Interval
unfolding interval
clip start size window = let (left, right) = interval start window in (left, min size right)

-- The loop over the sorted fixed events.
unfoldable pub block_events :
    Instant → ℕ → List FixedEvent → List Interval → Mask → Result (List Interval × Mask)
unfolding clip last_end
block_events start size [] busy mask = ok (busy, mask)
block_events start size (event ∷ rest) busy mask =
    let (left, right) = clip start size event.window in
    raise_if (leb right left) (error 422 event_outside_horizon)
    >> raise_if (ltb left (last_end busy)) (error 409 fixed_event_conflict)
    >> block_events start size rest (busy ++ (left, right) ∷ []) (fill false left right mask)

-- `self.day_ranges[-1][1] = index`
unfoldable pub close_last : ℕ → List Interval → List Interval
close_last index [] = []
close_last index ((left, right) ∷ []) = (left, index) ∷ []
close_last index (first ∷ next ∷ rest) = first ∷ close_last index (next ∷ rest)

abbrev pub same_date : Option Date → Date → Bool
same_date none d = false
same_date (some c) d = c == d

-- The day ranges of the loop over all minutes.
unfoldable pub day_ranges_from :
    (ℕ → Date) → ℕ → ℕ → ℕ → Option Date → List Interval → List Interval
unfolding close_last
day_ranges_from date_at size zero index previous ranges = ranges
day_ranges_from date_at size (suc rounds) index previous ranges =
    day_ranges_from date_at size rounds (index + 1) (some (date_at index)) (
      if same_date previous (date_at index)
      then ranges
      else close_last index ranges ++ (index, size) ∷ [])

-- The period of an hour; before six there is none.
unfoldable pub period_of_hour : ℕ → Option DayPart
period_of_hour hour =
    if leb 6 hour && ltb hour 12
    then some DayPart.morning
    else if leb 12 hour && ltb hour 18
    then some DayPart.afternoon
    else if leb 18 hour
    then some DayPart.evening
    else none

abbrev pub same_part : DayPart → DayPart → Bool
same_part DayPart.morning DayPart.morning = true
same_part DayPart.afternoon DayPart.afternoon = true
same_part DayPart.evening DayPart.evening = true
same_part _ _ = false

abbrev pub outside : Option DayPart → DayPart → ℕ
outside none name = 1
outside (some period) name = if same_part period name then 0 else 1

-- The prefix sums of one period: at i, the minutes before i that lie outside of it.
unfoldable pub prefix_from : (ℕ → ℕ) → DayPart → ℕ → ℕ → ℕ → List ℕ
unfolding period_of_hour
prefix_from hour_at name zero index total = total ∷ []
prefix_from hour_at name (suc rounds) index total =
    total
    ∷ prefix_from hour_at name rounds (index + 1)
        (total + outside (period_of_hour (hour_at index)) name)

unfoldable pub fraction : Workload → ℕ
fraction Workload.light = 50
fraction Workload.medium = 75
fraction Workload.intense = 100

-- `max(1, sum(self.available[left:right]) * fraction // 100)`
unfoldable pub target : Mask → ℕ → Interval → ℕ
unfolding sum_of
target available percent (left, right) =
    max 1
      (sum_of (λ b. if b then 1 else 0) (take (right - left) (drop left available)) * percent / 100)

unfoldable pub same_ids : List ℕ → List ℕ → Bool
unfolding all_of contains
same_ids a b = all_of (λ x. contains x b) a && all_of (λ x. contains x a) b

abbrev pub horizon_start : PreviewRequest → Zone → Instant
horizon_start request zone = zone.midnight request.start_date

abbrev pub horizon_end : PreviewRequest → Zone → Instant
horizon_end request zone = zone.midnight (request.start_date + request.days)

-- `int((self.end - self.start) / MINUTE)`; 0 stands for what is not positive
abbrev pub horizon_size : PreviewRequest → Zone → ℕ
horizon_size request zone = floor_minutes (horizon_end request zone) (horizon_start request zone)

abbrev pub horizon_floor : PreviewRequest → Zone → Instant → ℕ
horizon_floor request zone now =
    min (horizon_size request zone) (ceil_minutes now (horizon_start request zone))

abbrev pub ids_of : List TaskRecord → List ℕ
ids_of tasks = map (λ (task : TaskRecord). task.id) tasks

-- The checks of `__init__` before it builds the mask.
unfoldable pub check_request : PreviewRequest → List TaskRecord → Zone → Instant → Result (Unit {0})
unfolding same_ids all_distinct
check_request request tasks zone now = do
  let size = horizon_size request zone
  raise_if (ltb request.start_date (zone.local_date now)) (error 422 past_planning_date)
  raise_if
      (not (leb 1 size && leb size (8 * 1440))
        || not (zone.local_date (horizon_start request zone) == request.start_date))
      (error 422 invalid_local_day)
  raise_if
      (not (second_of (horizon_start request zone) == 0)
        || not (second_of (horizon_end request zone) == 0))
      (error 422 unsupported_time_boundary)
  raise_if (not (all_distinct (ids_of tasks)) || not (same_ids (ids_of tasks) request.task_ids))
      value_error

unfoldable pub pending_of : List TaskRecord → List TaskRecord
unfolding filter_if is_pending
pending_of tasks = filter_if (λ task. is_pending task.status) tasks

-- The fields that `__init__` derives once the mask is built.
unfoldable pub make_setup :
    PreviewRequest → List TaskRecord → PreferenceValues → Zone → Instant → Mask → Setup
unfolding pending_of day_ranges_from prefix_from target fraction
make_setup request tasks preferences zone now available =
    let start = horizon_start request zone in
    let size = horizon_size request zone in
    let ranges = day_ranges_from (λ i. zone.local_date (start + i * minute)) size size 0 none [] in
    record {
      request = request;
      preferences = preferences;
      now = now;
      start = start;
      end = horizon_end request zone;
      size = size;
      floor = horizon_floor request zone now;
      tasks = tasks;
      pending = pending_of tasks;
      available = available;
      day_ranges = ranges;
      period_prefix = λ name. prefix_from (λ i. zone.local_hour (start + i * minute)) name size 0 0;
      targets = map (target available (fraction preferences.workload)) ranges;
    }

unfoldable pub init :
    PreviewRequest
    → List TaskRecord
    → PreferenceValues
    → Zone
    → Instant
    → Result (Setup × List Interval)
unfolding check_request open_windows sort_by block_events event_before make_setup
init request tasks preferences zone now = do
  let start = horizon_start request zone
  let size = horizon_size request zone
  check_request request tasks zone now
  opened ← open_windows start size request.availability (replicate size false)
  (busy, available) ←
      block_events start size (sort_by event_before request.fixed_events) []
        (fill false 0 (horizon_floor request zone now) opened)
  ok (make_setup request tasks preferences zone now available, busy)

-- ===== src/Planning.antt =====
-- src/smartplanner/planning_models.py: the contracts of a preview, with their validators as tests.
pub mod Grid
use planer.Prelude.{
  ℕ, ◌%◌, String, Bool, true, not, ◌&&◌, ◌||◌, List, [], ◌∷◌, leb, ltb, ◌==◌, length, all_of,
  any_of, contains,
}
use planer.Clock.{Instant, Date, minute}
use planer.Models.{is_title}

pub record TimeWindow : Type 0 where
  pub start : Instant
  pub end : Instant

-- 2000-01-01T00:00Z and 2102-01-01T00:00Z
abbrev pub first_instant : Instant
first_instant = 63_082_281_600_000_000

abbrev pub after_last_instant : Instant
after_last_instant = 66_301_113_600_000_000

-- `minute_in_utc`: a whole minute of the years 2000 to 2101.
unfoldable pub minute_in_utc : Instant → Bool
minute_in_utc t = leb first_instant t && ltb t after_last_instant && t % minute == 0

unfoldable pub validate_window : TimeWindow → Bool
unfolding minute_in_utc
validate_window w = minute_in_utc w.start && minute_in_utc w.end && not (leb w.end w.start)

pub record FixedEvent : Type 0 where
  pub window : TimeWindow
  pub open window use *
  pub title : String

pub record PlanBlock : Type 0 where
  pub window : TimeWindow
  pub open window use *
  pub task_id : ℕ
  pub locked : Bool

pub record PlanningWindow : Type 0 where
  pub start_date : Date
  pub days : ℕ
  pub task_ids : List ℕ
  pub availability : List TimeWindow
  pub fixed_events : List FixedEvent

-- `supported_date`: 2000-01-01 to 2100-12-24, as ordinals.
unfoldable pub supported_date : Date → Bool
supported_date d = leb 730_120 d && leb d 767_002

unfoldable pub daily_or_weekly : ℕ → Bool
daily_or_weekly days = days == 1 || days == 7

-- `unique_tasks`
unfoldable pub all_distinct : List ℕ → Bool
unfolding contains
all_distinct [] = true
all_distinct (x ∷ xs) = not (contains x xs) && all_distinct xs

unfoldable pub validate_planning_window : PlanningWindow → Bool
unfolding supported_date daily_or_weekly all_distinct validate_window is_title all_of
validate_planning_window w =
    supported_date w.start_date
    && daily_or_weekly w.days
    && leb (length w.task_ids) 100
    && leb (length w.availability) 28
    && all_of validate_window w.availability
    && leb (length w.fixed_events) 100
    && all_of (λ event. validate_window event.window && is_title event.title) w.fixed_events
    && all_distinct w.task_ids

pub record PreviewRequest : Type 0 where
  pub planning : PlanningWindow
  pub open planning use *
  pub previous_blocks : List PlanBlock

-- `known_blocks`
unfoldable pub known_blocks : List ℕ → List PlanBlock → Bool
unfolding contains any_of
known_blocks task_ids blocks = not (any_of (λ block. not (contains block.task_id task_ids)) blocks)

unfoldable pub validate_request : PreviewRequest → Bool
unfolding validate_planning_window known_blocks validate_window all_of
validate_request r =
    validate_planning_window r.planning
    && leb (length r.previous_blocks) 512
    && all_of (λ block. validate_window block.window) r.previous_blocks
    && known_blocks r.task_ids r.previous_blocks

pub data Reason : Type 0 where
  deadline_passed no_slot_found search_limit_reason not_scheduled : Reason

pub record UnscheduledTask : Type 0 where
  pub task_id : ℕ
  pub title : String
  pub remaining_minutes : ℕ
  pub reason : Reason

pub data Warning : Type 0 where
  break_preference_not_met workload_preference_not_met : Warning
  unsplittable_task_exceeds_focus_preference : Warning

pub record PlanPreview : Type 0 where
  pub horizon : TimeWindow
  pub timezone : String
  pub planned_at : Instant
  pub blocks : List PlanBlock
  pub fixed_events : List FixedEvent
  pub unscheduled : List UnscheduledTask
  pub ignored_task_ids : List ℕ
  pub task_versions : List (ℕ × ℕ)
  pub preference_version : ℕ
  pub warnings : List Warning

-- ===== src/Schedules.antt =====
-- src/smartplanner/schedule_models.py: saved layouts and the views of them, with their validators
-- as tests. The children are about src/smartplanner/schedule_repository.py. The values that a view
-- is made of come from the tables, and its own validators are left out.
pub mod Store
pub mod Checks
pub mod Views
pub mod Commands
use planer.Prelude.{
  ℕ, String, Bool, ◌&&◌, not, List, [], ◌∷◌, map, length, leb, any_of, all_of, contains,
}
use planer.Clock.{Instant}
use planer.Models.{is_title, is_version}
use planer.Planning.{
  TimeWindow, PlanBlock, PlanningWindow, UnscheduledTask, Warning, known_blocks, validate_window,
  validate_planning_window,
}
use planer.Scheduler.Setup.{same_ids}

pub record ScheduleContent : Type 0 where
  pub planning : PlanningWindow
  pub open planning use *
  pub blocks : List PlanBlock

-- `selected_blocks`, with the ranges of the fields
unfoldable pub validate_content : ScheduleContent → Bool
unfolding validate_planning_window validate_window all_of known_blocks
validate_content content =
    validate_planning_window content.planning
    && leb (length content.blocks) 512
    && all_of (λ block. validate_window block.window) content.blocks
    && known_blocks content.task_ids content.blocks

-- What a saved layout is made of, and what a request for one gives. A dictionary is a list of keys
-- and values.
pub record Draft : Type 0 where
  pub title : String
  pub content : ScheduleContent
  pub task_versions : List (ℕ × ℕ)
  pub preference_version : ℕ

abbrev pub keys : List (ℕ × ℕ) → List ℕ
keys = map (λ (entry : ℕ × ℕ). entry.0)

pub record ScheduleCreate : Type 0 where
  pub client_request_id : ℕ
  pub draft : Draft

-- `exact_source_versions`, with the ranges of the fields
unfoldable pub validate_draft : Draft → Bool
unfolding is_title is_version validate_content all_of same_ids
validate_draft draft =
    is_title draft.title
    && validate_content draft.content
    && leb (length draft.task_versions) 100
    && all_of (λ (entry : ℕ × ℕ). is_version entry.1) draft.task_versions
    && is_version draft.preference_version
    && same_ids (keys draft.task_versions) draft.content.task_ids

pub record ScheduleReplace : Type 0 where
  pub create : ScheduleCreate
  pub open create use *
  pub expected_version : ℕ

pub record HistoryCommand : Type 0 where
  pub client_request_id : ℕ
  pub expected_version : ℕ

pub record SavedState : Type 0 where
  pub draft : Draft
  pub open draft use *
  pub task_titles : List (ℕ × String)
  pub unscheduled : List UnscheduledTask
  pub ignored_task_ids : List ℕ
  pub warnings : List Warning

-- `SavedState.model_validate`, which does not compare the keys with the selected tasks
unfoldable pub validate_state : SavedState → Bool
unfolding is_title is_version validate_content all_of
validate_state state =
    is_title state.title
    && validate_content state.content
    && all_of (λ (entry : ℕ × ℕ). is_version entry.1) state.task_versions
    && is_version state.preference_version
    && all_of (λ (entry : ℕ × String). is_title entry.1) state.task_titles

pub record SourceStatus : Type 0 where
  pub stale : Bool
  pub changed_task_ids : List ℕ
  pub missing_task_ids : List ℕ
  pub preferences_changed : Bool

pub record SavedSchedule : Type 0 where
  pub id : ℕ
  pub version : ℕ
  pub history_revision : ℕ
  pub timezone : String
  pub horizon : TimeWindow
  pub state : SavedState
  pub sources : SourceStatus
  pub can_undo : Bool
  pub can_redo : Bool
  pub created_at : Instant
  pub updated_at : Instant

pub record ScheduleResult : Type 0 where
  pub schedule : SavedSchedule
  pub replayed : Bool
  pub applied_version : ℕ

pub record ScheduleSummary : Type 0 where
  pub id : ℕ
  pub title : String
  pub version : ℕ
  pub timezone : String
  pub horizon : TimeWindow
  pub updated_at : Instant

pub record HistoryEntry : Type 0 where
  pub revision : ℕ
  pub title : String
  pub current : Bool
  pub created_at : Instant

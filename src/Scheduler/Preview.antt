-- ===== src/Scheduler/Preview.antt =====
-- src/smartplanner/scheduler.py: `warnings`, `build_preview` and `inspect_layout`.
-- An `Instant` is always aware, so `build_preview` has no test for a naive `now`.
use planer.Prelude.{
  ℕ, ◌-◌, String, Bool, true, false, not, ◌&&◌, ◌||◌, List, [], ◌∷◌, ◌++◌, map, filter_if, any_of,
  contains, ltb, leb, ◌==◌, if◌then◌else◌, sort_by,
}
use planer.Errors.{
  Code, Exception, app_error, Result, ok, raise, error, raise_if, ◌>>=◌, ◌>>◌, inactive_task_block,
  locked_block_conflict, locked_duration_conflict, invalid_schedule_layout, validation_error,
}
use planer.Clock.{Instant, Zone}
use planer.Models.{TaskRecord, is_pending}
use planer.Models.Preferences.{PreferenceValues}
use planer.Planning.{
  TimeWindow, PlanBlock, PlanningWindow, PreviewRequest, UnscheduledTask, not_scheduled, Warning,
  break_preference_not_met, workload_preference_not_met, unsplittable_task_exceeds_focus_preference,
  PlanPreview, validate_request,
}
use planer.Scheduler.Mask.{Interval}
use planer.Scheduler.Setup.{Setup, interval, event_before, init}
use planer.Scheduler.Planner.{State, of_task, minutes_of, ordered_tasks, preserve_previous}
use planer.Scheduler.Search.{usage}
use planer.Scheduler.Allocate.{allocate_all}

-- The default of `search_budget`.
abbrev pub max_candidates : ℕ
max_candidates = 250_000

unfoldable pub interval_before : Interval → Interval → Bool
interval_before (left, right) (left', right') =
    ltb left left' || (left == left' && ltb right right')

-- Whether some interval starts less than the pause behind the one before it.
unfoldable pub has_short_break : ℕ → List Interval → Bool
has_short_break pause [] = false
has_short_break pause (previous ∷ []) = false
has_short_break pause (previous ∷ following ∷ rest) =
    (leb previous.1 following.0 && ltb (following.0 - previous.1) pause)
    || has_short_break pause (following ∷ rest)

unfoldable pub exceeds_target : List ℕ → List ℕ → Bool
exceeds_target [] targets = false
exceeds_target (minutes ∷ used) [] = false
exceeds_target (minutes ∷ used) (target ∷ targets) =
    ltb target minutes || exceeds_target used targets

abbrev warn_if : Bool → Warning → List Warning
warn_if test warning = if test then warning ∷ [] else []

abbrev pub ids_by_order : List ℕ → List ℕ
ids_by_order = sort_by ltb

module _ (planner : Setup) where
  open planner use {preferences}

  unfoldable pub warnings : State → List Warning
  unfolding has_short_break exceeds_target sort_by interval_before usage any_of interval
  warnings s =
      warn_if
        (ltb 0 preferences.break_minutes
          && has_short_break preferences.break_minutes (sort_by interval_before s.busy))
        break_preference_not_met
      ++ warn_if
          (exceeds_target
            (usage planner
              (map (λ (block : PlanBlock). interval planner.start block.window) s.blocks))
            planner.targets)
          workload_preference_not_met
      ++ warn_if
          (any_of
            (λ (task : TaskRecord).
              not task.splittable
              && ltb preferences.focus_block_minutes task.duration_minutes
              && any_of (of_task task.id) s.blocks)
            planner.pending)
          unsplittable_task_exceeds_focus_preference

  -- `sorted(set(planner.tasks) - set(planner.pending), key=str)`
  unfoldable pub ignored_ids : List ℕ
  unfolding sort_by filter_if is_pending
  ignored_ids = ids_by_order (
      map (λ (task : TaskRecord). task.id)
        (filter_if (λ task. not (is_pending task.status)) planner.tasks))

  unfoldable pub task_versions : List (ℕ × ℕ)
  unfolding sort_by
  task_versions =
      map (λ (task : TaskRecord). (task.id, task.version))
        (sort_by (λ (a b : TaskRecord). ltb a.id b.id) planner.tasks)

-- The key `(block.start, str(block.task_id))` of the blocks of a preview.
unfoldable pub block_before : PlanBlock → PlanBlock → Bool
block_before a b = ltb a.start b.start || (a.start == b.start && ltb a.task_id b.task_id)

abbrev pub begin : List Interval → ℕ → State
begin busy budget = record { blocks = []; busy = busy; unscheduled = []; budget = budget }

-- The planner at the end of `build_preview`, and the plan that it holds.
unfoldable pub plan :
    PreviewRequest
    → List TaskRecord
    → PreferenceValues
    → Zone
    → Instant
    → ℕ
    → Result (Setup × State)
unfolding init preserve_previous ordered_tasks allocate_all
plan request tasks preferences zone now budget = do
  (planner, busy) ← init request tasks preferences zone now
  s ← preserve_previous planner (begin busy budget)
  ok (planner, allocate_all planner (ordered_tasks planner) s)

-- The preview of a planner that has finished.
unfoldable pub finish_preview : PreviewRequest → String → ℕ → Setup → State → PlanPreview
unfolding sort_by block_before event_before ignored_ids task_versions warnings
finish_preview request timezone preference_version planner s = record {
  horizon = record { start = planner.start; end = planner.end };
  timezone = timezone;
  planned_at = planner.now;
  blocks = sort_by block_before s.blocks;
  fixed_events = sort_by event_before request.fixed_events;
  unscheduled = s.unscheduled;
  ignored_task_ids = ignored_ids planner;
  task_versions = task_versions planner;
  preference_version = preference_version;
  warnings = warnings planner s;
}

unfoldable pub build_preview :
    PreviewRequest
    → List TaskRecord
    → PreferenceValues
    → String
    → Zone
    → Instant
    → ℕ
    → ℕ
    → Result PlanPreview
unfolding plan finish_preview
build_preview request tasks preferences timezone zone now preference_version budget = do
  (planner, s) ← plan request tasks preferences zone now budget
  ok (finish_preview request timezone preference_version planner s)

-- `except AppError`
abbrev relabel : Code → Exception → Exception
relabel locked_block_conflict e = error 409 invalid_schedule_layout
relabel locked_duration_conflict e = error 409 invalid_schedule_layout
relabel _ e = e

abbrev pub as_layout_error : Exception → Exception
as_layout_error (app_error e) = relabel e.code (app_error e)
as_layout_error e = e

abbrev pub catch_layout {ℓ} : {A : Type ℓ} → Result A → Result A
catch_layout (ok a) = ok a
catch_layout (raise e) = raise (as_layout_error e)

-- The pending tasks with less time than they last.
unfoldable pub missing_tasks : List PlanBlock → List TaskRecord → List UnscheduledTask
unfolding minutes_of
missing_tasks blocks [] = []
missing_tasks blocks (task ∷ rest) =
    let used = minutes_of task.id blocks in
    (if ltb used task.duration_minutes
      then (record {
        task_id = task.id;
        title = task.title;
        remaining_minutes = task.duration_minutes - used;
        reason = not_scheduled;
      })
        ∷ []
      else [])
    ++ missing_tasks blocks rest

pub record Layout : Type 0 where
  pub horizon : TimeWindow
  pub missing : List UnscheduledTask
  pub ignored : List ℕ
  pub warned : List Warning

abbrev pub lock : PlanBlock → PlanBlock
lock block = record block { locked = true }

-- The planner that `inspect_layout` ends with.
unfoldable pub inspect :
    PlanningWindow
    → List PlanBlock
    → List TaskRecord
    → PreferenceValues
    → Zone
    → Result (Setup × State)
unfolding any_of filter_if is_pending contains validate_request init preserve_previous
inspect window blocks tasks preferences zone = do
  let pending_ids =
      map (λ (task : TaskRecord). task.id) (filter_if (λ task. is_pending task.status) tasks)
  raise_if (any_of (λ block. not (contains block.task_id pending_ids)) blocks)
      (error 409 inactive_task_block)
  let request : PreviewRequest = record { planning = window; previous_blocks = map lock blocks }
  raise_if (not (validate_request request)) validation_error
  (planner, busy) ← init request tasks preferences zone (zone.midnight request.start_date)
  s ← catch_layout (preserve_previous planner (begin busy 0))
  ok (planner, s)

unfoldable pub inspect_layout :
    PlanningWindow → List PlanBlock → List TaskRecord → PreferenceValues → Zone → Result Layout
unfolding inspect missing_tasks ordered_tasks ignored_ids warnings
inspect_layout window blocks tasks preferences zone = do
  (planner, s) ← inspect window blocks tasks preferences zone
  ok (record {
    horizon = record { start = planner.start; end = planner.end };
    missing = missing_tasks blocks (ordered_tasks planner);
    ignored = ignored_ids planner;
    warned = warnings planner s;
  })

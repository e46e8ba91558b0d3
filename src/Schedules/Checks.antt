-- ===== src/Schedules/Checks.antt =====
-- src/smartplanner/schedule_repository.py: what a layout must satisfy to be saved.
pub mod Placements
pub mod Layouts
use planer.Prelude.{
  ℕ, ◌+◌, String, Bool, true, false, not, ◌&&◌, ◌||◌, Option, none, some, List, [], ◌∷◌, ◌++◌, map,
  any_of, filter_if, find_if, contains, ltb, ◌==◌, if◌then◌else◌,
}
use planer.Errors.{
  AppError, Exception, Result, ok, raise, error, raise_if, ◌>>=◌, ◌>>◌, key_error,
  schedule_sources_changed, locked_block_conflict, started_block_conflict, past_block,
  past_planning_date, schedule_horizon_changed, fixed_event_outside_saved_horizon,
}
use planer.Clock.{Instant, Date, Zone}
use planer.Models.{TaskRecord, is_pending}
use planer.Planning.{TimeWindow, FixedEvent, PlanBlock}
use planer.Scheduler.Preview.{Layout, inspect_layout}
use planer.Repository.{TaskRow, validated}
use planer.Repository.Preferences.{PreferenceRecord, validated_preferences}
use planer.Schedules.{Draft, SavedState}
use planer.Schedules.Store.{Store}

abbrev pub stale_sources : Exception
stale_sources = error 409 schedule_sources_changed

-- Equality of `block_key`
abbrev pub same_key : PlanBlock → PlanBlock → Bool
same_key a b = a.task_id == b.task_id && a.start == b.start && a.end == b.end

-- `block_key(block) in {...}`
unfoldable pub has_key : PlanBlock → List PlanBlock → Bool
unfolding any_of
has_key block blocks = any_of (same_key block) blocks

abbrev pub is_row : ℕ → TaskRow → Bool
is_row id row = row.task.id == id

-- A task that neither is deleted nor is done: `live_rows.get(...)`
unfoldable pub is_live_pending : List TaskRow → ℕ → Bool
unfolding find_if is_pending
is_live_pending rows id = elim (find_if (is_row id) rows) [
  | none ↦ false
  | some row ↦ not row.deleted && is_pending row.task.status
]

-- The loop over the previous blocks.
unfoldable pub protect_previous :
    List PlanBlock → List PlanBlock → List TaskRow → Instant → Result (Unit {0})
unfolding has_key is_live_pending
protect_previous [] candidate rows now = ok tt
protect_previous (block ∷ rest) candidate rows now =
    let gone = is_live_pending rows block.task_id && not (has_key block candidate) in
    raise_if (gone && block.locked) (error 409 locked_block_conflict)
    >> raise_if (gone && ltb block.start now) (error 409 started_block_conflict)
    >> protect_previous rest candidate rows now

unfoldable pub protect_placements :
    List PlanBlock → List PlanBlock → List TaskRow → Instant → Result (Unit {0})
unfolding protect_previous any_of has_key
protect_placements previous candidate rows now = do
  protect_previous previous candidate rows now
  raise_if (any_of (λ block. ltb block.start now && not (has_key block previous)) candidate)
      (error 409 past_block)

abbrev ids_of_previous : Option Draft → List ℕ
ids_of_previous none = []
ids_of_previous (some previous) = previous.content.task_ids

-- The query of `_sources`, as the dictionary that it is made into.
unfoldable pub live_rows : ℕ → List ℕ → List TaskRow → List TaskRow
unfolding filter_if contains
live_rows owner ids rows =
    filter_if (λ row. row.task.user_id == owner && contains row.task.id ids) rows

-- `key not in live or ...`
unfoldable pub is_current : List TaskRow → ℕ × ℕ → Bool
unfolding find_if
is_current rows (key, version) = elim (find_if (is_row key) rows) [
  | none ↦ false
  | some row ↦ not row.deleted && row.task.version == version
]

-- `live[task_id]`, validated, for each of the identifiers
unfoldable pub selected_tasks : List TaskRow → List ℕ → Result (List TaskRecord)
unfolding find_if validated
selected_tasks rows [] = ok []
selected_tasks rows (id ∷ rest) = elim (find_if (is_row id) rows) [
  | none ↦ raise key_error
  | some row ↦ do task ← validated row.task; tasks ← selected_tasks rows rest; ok (task ∷ tasks)
]

pub record Sources : Type 0 where
  pub tasks : List TaskRecord
  pub preferences : PreferenceRecord
  pub live : List TaskRow

-- `_sources`
unfoldable pub sources : ℕ → Draft → Option Draft → Store → Result Sources
unfolding find_if live_rows any_of is_current selected_tasks validated_preferences
sources owner candidate previous store =
    let live =
      live_rows owner (candidate.content.task_ids ++ ids_of_previous previous) store.tasks in
    elim (find_if (λ (row : PreferenceRecord). row.user_id == owner) store.preferences) [
      | none ↦ raise stale_sources
      | some row ↦ do
        raise_if (not (row.version == candidate.preference_version)) stale_sources
        raise_if (any_of (λ entry. not (is_current live entry)) candidate.task_versions)
            stale_sources
        tasks ← selected_tasks live candidate.content.task_ids
        preferences ← validated_preferences row
        ok (record { tasks = tasks; preferences = preferences; live = live })
    ]

abbrev blocks_of_previous : Option Draft → List PlanBlock
blocks_of_previous none = []
blocks_of_previous (some previous) = previous.content.blocks

-- The tests of the dates: of a new layout against today, of another against the one before it.
unfoldable pub check_dates : Draft → Option Draft → Date → Result (Unit {0})
check_dates candidate none today =
    raise_if (ltb candidate.content.start_date today) (error 422 past_planning_date)
check_dates candidate (some previous) today =
    raise_if
      (not (
        candidate.content.start_date == previous.content.start_date
        && candidate.content.days == previous.content.days))
      (error 409 schedule_horizon_changed)

-- `_validate`, with the clock of its inner call
unfoldable pub validate :
    ℕ → Draft → Zone → Option Draft → Instant → Store → Result (SavedState × TimeWindow)
unfolding sources check_dates protect_placements inspect_layout any_of
validate owner candidate zone previous now store = do
  found ← sources owner candidate previous store
  check_dates candidate previous (zone.local_date now)
  protect_placements (blocks_of_previous previous) candidate.content.blocks found.live now
  layout ←
      inspect_layout candidate.content.planning candidate.content.blocks found.tasks
        found.preferences.values zone
  raise_if
      (any_of
        (λ (event : FixedEvent).
          ltb event.start layout.horizon.start || ltb layout.horizon.end event.end)
        candidate.content.fixed_events)
      (error 422 fixed_event_outside_saved_horizon)
  ok (
    record {
      draft = candidate;
      task_titles = map (λ (task : TaskRecord). (task.id, task.title)) found.tasks;
      unscheduled = layout.missing;
      ignored_task_ids = layout.ignored;
      warnings = layout.warned;
    },
    layout.horizon,
  )

-- ===== src/Schedules/Views.antt =====
-- src/smartplanner/schedule_repository.py: the views of saved layouts, and the replay of a command
-- from its receipt.
use planer.Prelude.{
  ℕ, Bool, true, false, not, ◌&&◌, ◌||◌, Option, none, some, List, [], ◌∷◌, map, take, drop, length,
  filter_if, find_if, sort_by, ltb, ◌==◌,
}
use planer.Errors.{Result, ok, error, raise_if, ◌>>=◌, ◌>>◌, validation_error, request_id_conflict}
use planer.Repository.{TaskRow}
use planer.Repository.Preferences.{PreferenceRecord}
use planer.Schedules.{
  SavedState, SourceStatus, SavedSchedule, ScheduleResult, ScheduleSummary, HistoryEntry, keys,
  validate_state,
}
use planer.Schedules.Store.{Schedule, Version, Receipt, Store, header, is_version_at}
use planer.Schedules.Checks.{is_row, live_rows}

-- `SavedState.model_validate(row["state"])`
unfoldable pub validated_state : SavedState → Result SavedState
unfolding validate_state
validated_state state = do raise_if (not (validate_state state)) validation_error; ok state

abbrev ids_by_order : List ℕ → List ℕ
ids_by_order = sort_by ltb

-- `key not in live or live[key]["deleted_at"] is not None`
unfoldable pub is_missing : List TaskRow → ℕ → Bool
unfolding find_if
is_missing live key = elim (find_if (is_row key) live) [ none ↦ true | some row ↦ row.deleted ]

-- `live[key]["version"] != version`, of a key that is not missing
unfoldable pub is_changed : List TaskRow → ℕ × ℕ → Bool
unfolding find_if
is_changed live (key, version) = elim (find_if (is_row key) live) [
  | none ↦ false
  | some row ↦ not row.deleted && not (row.task.version == version)
]

-- The sources of `_view`. The join starts from the preferences: without them it finds no task.
unfoldable pub source_status : ℕ → SavedState → Store → SourceStatus
unfolding find_if live_rows filter_if sort_by is_missing is_changed
source_status owner state store =
    let found = find_if (λ (row : PreferenceRecord). row.user_id == owner) store.preferences in
    let live : List TaskRow = elim found [
      | none ↦ []
      | some row ↦ live_rows owner (keys state.task_versions) store.tasks
    ] in
    let missing = ids_by_order (filter_if (is_missing live) (keys state.task_versions)) in
    let changed = ids_by_order (keys (filter_if (is_changed live) state.task_versions)) in
    let preferences_changed : Bool = elim found [
      | none ↦ true
      | some row ↦ not (row.version == state.preference_version)
    ] in
    record {
      stale = ltb 0 (length missing) || ltb 0 (length changed) || preferences_changed;
      changed_task_ids = changed;
      missing_task_ids = missing;
      preferences_changed = preferences_changed;
    }

-- `_view`, and `get`, which is `_view` in a transaction of its own
unfoldable pub view : ℕ → ℕ → Store → Result SavedSchedule
unfolding header validated_state source_status
view owner id store = do
  row ← header owner id store
  state ← validated_state row.state
  ok (record {
    id = row.id;
    version = row.version;
    history_revision = row.current_revision;
    timezone = row.timezone;
    horizon = record { start = row.start_at; end = row.end_at };
    state = state;
    sources = source_status owner state store;
    can_undo = row.can_undo;
    can_redo = row.can_redo;
    created_at = row.created_at;
    updated_at = row.updated_at;
  })

-- The rows of `list`: a schedule is joined with its current version.
unfoldable pub summaries : List Version → List Schedule → List ScheduleSummary
unfolding find_if
summaries versions [] = []
summaries versions (schedule ∷ rest) =
    let others = summaries versions rest in
    elim (find_if (is_version_at schedule.id schedule.current_revision) versions) [
      | none ↦ others
      | some row ↦
          record {
            id = schedule.id;
            title = row.state.title;
            version = schedule.version;
            timezone = schedule.timezone;
            horizon = record { start = schedule.start_at; end = schedule.end_at };
            updated_at = schedule.updated_at;
          }
          ∷ others
    ]

abbrev latest_first : ScheduleSummary → ScheduleSummary → Bool
latest_first a b = ltb b.updated_at a.updated_at || (b.updated_at == a.updated_at && ltb b.id a.id)

unfoldable pub list_schedules : ℕ → ℕ → ℕ → Store → List ScheduleSummary
unfolding summaries filter_if sort_by
list_schedules owner limit offset store = take limit (
    drop offset (
      sort_by latest_first (
        summaries store.versions
          (filter_if (λ (schedule : Schedule). schedule.user_id == owner) store.schedules))))

unfoldable pub history : ℕ → ℕ → Store → Result (List HistoryEntry)
unfolding header filter_if sort_by
history owner id store = do
  row ← header owner id store
  ok (
      map
        (λ (version : Version). record {
          revision = version.revision;
          title = version.state.title;
          current = version.revision == row.current_revision;
          created_at = version.created_at;
        })
        (sort_by (λ (a b : Version). ltb a.revision b.revision)
          (filter_if (λ (version : Version). version.schedule_id == id && version.user_id == owner)
            store.versions)))

abbrev pub is_receipt : ℕ → ℕ → Receipt → Bool
is_receipt owner request receipt = receipt.user_id == owner && receipt.client_request_id == request

-- `_replay`: none if there is no receipt of the request
unfoldable pub replay : ℕ → ℕ → ℕ → Store → Result (Option ScheduleResult)
unfolding find_if view
replay owner request digest store = elim (find_if (is_receipt owner request) store.commands) [
  | none ↦ ok none
  | some receipt ↦ do
    raise_if (not (receipt.request_digest == digest)) (error 409 request_id_conflict)
    schedule ← view owner receipt.schedule_id store
    ok (
        some (record {
          schedule = schedule;
          replayed = true;
          applied_version = receipt.applied_version;
        }))
]

-- ===== src/Repository.antt =====
-- src/smartplanner/repository.py: the tasks of the users, as a table of rows. A transaction that
-- raises is rolled back, so an operation returns the new table only when it returns. What the
-- database and the libraries choose is a parameter: the new identifier, the clock, and the digest
-- of a creation. Preferences and sessions are children.
pub mod Tasks
pub mod Edits
pub mod Preferences
pub mod Sessions
mod Tests
use planer.Prelude.{
  find_if, update_if, ℕ, ◌+◌, max, Bool, true, false, not, ◌&&◌, ◌||◌, Option, none, some, List, [],
  ◌∷◌, ◌++◌, map, take, drop, length, filter_if, contains, sort_by, ltb, ◌==◌, if◌then◌else◌,
}
use planer.Errors.{
  Exception, Result, ok, raise, error, raise_if, ◌>>=◌, ◌>>◌, not_found, stale_version,
  stale_task_version, validation_error, request_id_conflict, request_already_deleted,
  invalid_task_change,
}
use planer.Clock.{Instant}
use planer.Models.{TaskCreate, TaskRecord, TaskPatch, Status, validate_record}
use planer.TaskChanges.{prepare_task_change}

pub record TaskRow : Type 0 where
  pub task : TaskRecord
  pub creation_digest : ℕ
  pub deleted : Bool

-- `TaskRecord.model_validate(row)`
unfoldable pub validated : TaskRecord → Result TaskRecord
unfolding validate_record
validated task = do raise_if (not (validate_record task)) validation_error; ok task

-- `WHERE user_id = ... AND client_request_id = ...`, which a unique index covers
abbrev pub is_request : ℕ → ℕ → TaskRow → Bool
is_request owner request row = row.task.user_id == owner && row.task.client_request_id == request

-- `WHERE id = ... AND user_id = ... AND deleted_at IS NULL`
abbrev pub is_live : ℕ → ℕ → TaskRow → Bool
is_live owner id row = row.task.id == id && row.task.user_id == owner && not row.deleted

abbrev pub is_version_of : ℕ → ℕ → ℕ → TaskRow → Bool
is_version_of owner id version row = is_live owner id row && row.task.version == version

-- The defaults of the table.
unfoldable pub new_row : (TaskCreate → ℕ) → ℕ → TaskCreate → ℕ → Instant → TaskRow
new_row digest owner task id now = record {
  task = record {
    created = task;
    id = id;
    user_id = owner;
    status = Status.pending;
    version = 1;
    created_at = now;
    updated_at = now;
    recurrence_id = none;
    occurrence_date = none;
  };
  creation_digest = digest task;
  deleted = false;
}

unfoldable pub create_task :
    (TaskCreate → ℕ)
    → ℕ
    → TaskCreate
    → ℕ
    → Instant
    → List TaskRow
    → Result ((TaskRecord × Bool) × List TaskRow)
unfolding new_row validated find_if
create_task digest owner task id now rows =
    elim (find_if (is_request owner task.client_request_id) rows) [
      | none ↦ do
        result ← validated (new_row digest owner task id now).task
        ok ((result, false), rows ++ new_row digest owner task id now ∷ [])
      | some existing ↦ do
        raise_if (not (existing.creation_digest == digest task)) (error 409 request_id_conflict)
        raise_if existing.deleted (error 409 request_already_deleted)
        result ← validated existing.task
        ok ((result, true), rows)
    ]

unfoldable pub get_task : ℕ → ℕ → List TaskRow → Result TaskRecord
unfolding validated find_if
get_task owner id rows = elim (find_if (is_live owner id) rows) [
  | none ↦ raise not_found
  | some row ↦ validated row.task
]

unfoldable pub validated_all : List TaskRow → Result (List TaskRecord)
unfolding validated
validated_all [] = ok []
validated_all (row ∷ rest) = do
  task ← validated row.task
  tasks ← validated_all rest
  ok (task ∷ tasks)

-- `ORDER BY created_at DESC, id DESC`
abbrev newest_first : TaskRow → TaskRow → Bool
newest_first a b =
    ltb b.task.created_at a.task.created_at
    || (b.task.created_at == a.task.created_at && ltb b.task.id a.task.id)

unfoldable pub list_tasks : ℕ → ℕ → ℕ → List TaskRow → Result (List TaskRecord)
unfolding validated_all sort_by filter_if
list_tasks owner limit offset rows = validated_all (
    take limit (
      drop offset (
        sort_by newest_first
          (filter_if (λ row. row.task.user_id == owner && not row.deleted) rows))))

-- The tasks of `planning_inputs`, which reads tasks and preferences from one snapshot.
unfoldable pub planning_tasks : ℕ → List ℕ → List TaskRow → Result (List TaskRecord)
unfolding validated_all sort_by filter_if contains
planning_tasks owner ids rows = do
  let found =
      sort_by (λ (a b : TaskRow). ltb a.task.id b.task.id)
        (filter_if (λ row. row.task.user_id == owner && contains row.task.id ids && not row.deleted)
          rows)
  raise_if (not (length found == length ids)) not_found
  validated_all found

-- `except StaleTaskVersion` and `except ValidationError`
abbrev pub as_update_error : Exception → Exception
as_update_error stale_task_version = stale_version
as_update_error validation_error = error 422 invalid_task_change
as_update_error e = e

abbrev pub catch_update {ℓ} : {A : Type ℓ} → Result A → Result A
catch_update (ok a) = ok a
catch_update (raise e) = raise (as_update_error e)

-- The row after `update_task`: the database counts the version and keeps the clock from going back.
unfoldable pub changed_row : TaskRecord → Instant → TaskRow → TaskRow
changed_row prepared clock row = record row {
  task = record row.task {
    created = record prepared.created { client_request_id = row.task.client_request_id };
    status = prepared.status;
    version = row.task.version + 1;
    updated_at = max clock row.task.updated_at;
  };
}

-- The `UPDATE` with its `RETURNING`.
unfoldable pub write_task :
    (TaskRow → Bool) → TaskRecord → Instant → List TaskRow → Result (TaskRecord × List TaskRow)
unfolding find_if validated update_if changed_row
write_task selected prepared clock rows = elim (find_if selected rows) [
  | none ↦ raise stale_version
  | some row ↦ do
    result ← validated (changed_row prepared clock row).task
    ok (result, update_if selected (changed_row prepared clock) rows)
]

unfoldable pub update_task :
    ℕ → ℕ → TaskPatch → Instant → List TaskRow → Result (TaskRecord × List TaskRow)
unfolding get_task prepare_task_change write_task
update_task owner id patch clock rows = do
  current ← get_task owner id rows
  prepared ← catch_update (prepare_task_change current patch current.updated_at)
  write_task (is_version_of prepared.user_id prepared.id patch.expected_version) prepared clock rows

unfoldable pub deleted_row : Instant → TaskRow → TaskRow
deleted_row clock row = record row {
  task = record row.task {
    version = row.task.version + 1;
    updated_at = max clock row.task.updated_at;
  };
  deleted = true;
}

unfoldable pub delete_task : ℕ → ℕ → ℕ → Instant → List TaskRow → Result (List TaskRow)
unfolding get_task find_if update_if deleted_row
delete_task owner id expected clock rows = do
  current ← get_task owner id rows
  raise_if (not (current.version == expected)) stale_version
  let selected = is_version_of owner id expected
  elim (find_if selected rows) [
    | none ↦ raise stale_version
    | some row ↦ ok (update_if selected (deleted_row clock) rows)
  ]

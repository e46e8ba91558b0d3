-- ===== src/TaskChanges.antt =====
-- src/smartplanner/task_changes.py: `prepare_task_change`. The instant of the edit is a parameter.
pub mod Edits
mod Tests
use planer.Prelude.{ℕ, ◌+◌, Bool, true, false, not, Option, none, some, ◌==◌, if◌then◌else◌}
use planer.Errors.{Result, ok, raise, raise_if, stale_task_version, validation_error, ◌>>=◌, ◌>>◌}
use planer.Clock.{Instant}
use planer.Models.{TaskCreate, TaskRecord, TaskPatch, Given, unset, null, value, validate_record}

-- `data.update(...)` for a field that may be null.
unfoldable pub set_option {ℓ} : {A : Type ℓ} → Given A → Option A → Option A
set_option unset old = old
set_option null old = none
set_option (value new) old = some new

-- The same for a field that may not: `model_validate` refuses a null.
unfoldable pub set_value {ℓ} : {A : Type ℓ} → Given A → A → Result A
set_value unset old = ok old
set_value null old = raise validation_error
set_value (value new) old = ok new

-- The fields of the patch over those of the task.
unfoldable pub update_created : TaskPatch → TaskCreate → Result TaskCreate
unfolding set_option set_value
update_created patch task = do
  title ← set_value patch.title task.title
  description ← set_value patch.description task.description
  duration_minutes ← set_value patch.duration_minutes task.duration_minutes
  priority ← set_value patch.priority task.priority
  splittable ← set_value patch.splittable task.splittable
  preferred_period ← set_value patch.preferred_period task.preferred_period
  ok (record {
    times = record {
      earliest_start = set_option patch.earliest_start task.earliest_start;
      deadline = set_option patch.deadline task.deadline;
    };
    client_request_id = task.client_request_id;
    title = title;
    description = description;
    duration_minutes = duration_minutes;
    priority = priority;
    splittable = splittable;
    preferred_period = preferred_period;
  })

unfoldable pub prepare_task_change : TaskRecord → TaskPatch → Instant → Result TaskRecord
unfolding update_created set_value validate_record
prepare_task_change current patch now = do
  raise_if (not (current.version == patch.expected_version)) stale_task_version
  created ← update_created patch current.created
  status ← set_value patch.status current.status
  let next : TaskRecord = record current {
    created = created;
    status = status;
    version = current.version + 1;
    updated_at = now;
  }
  raise_if (not (validate_record next)) validation_error
  ok next

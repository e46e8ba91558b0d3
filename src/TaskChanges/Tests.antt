-- ===== src/TaskChanges/Tests.antt =====
-- Edits of a task, and the theorems about them there.
use planer.Prelude.{ℕ, ◌≡◌, refl, true, none, some}
use planer.Errors.{ok, raise, stale_task_version, validation_error}
use planer.Models.{Period, Status, TaskRecord, TaskPatch, unset, null, value}
use planer.TaskChanges.{prepare_task_change}
use planer.TaskChanges.Edits.{IsEdited, prepare_task_change-IsEdited, prepare_task_change_twice}

abbrev old : TaskRecord
old = record {
  created = record {
    times = record { earliest_start = some 0; deadline = some 3_600_000_000 };
    client_request_id = 9;
    title = "write";
    description = "";
    duration_minutes = 30;
    priority = 5;
    splittable = true;
    preferred_period = Period.any;
  };
  id = 1;
  user_id = 2;
  status = Status.pending;
  version = 3;
  created_at = 10;
  updated_at = 20;
  recurrence_id = none;
  occurrence_date = none;
}

abbrev patch_of : ℕ → ℕ → TaskPatch
patch_of version duration = record {
  expected_version = version;
  earliest_start = null;
  deadline = unset;
  title = unset;
  description = value "a page";
  duration_minutes = value duration;
  priority = unset;
  splittable = unset;
  preferred_period = unset;
  status = value Status.completed;
}

abbrev new : TaskRecord
new = record old {
  created = record old.created {
    times = record { earliest_start = none; deadline = some 3_600_000_000 };
    description = "a page";
    duration_minutes = 60;
  };
  status = Status.completed;
  version = 4;
  updated_at = 50;
}

edit_runs : prepare_task_change old (patch_of 3 60) 50 ≡ ok new
unfolding prepare_task_change
edit_runs = refl

too_long : prepare_task_change old (patch_of 3 10_081) 50 ≡ raise validation_error
unfolding prepare_task_change
too_long = refl

before_creation : prepare_task_change old (patch_of 3 60) 9 ≡ raise validation_error
unfolding prepare_task_change
before_creation = refl

prepare_task_change-IsEdited_example : IsEdited (patch_of 3 60) 50 old new
prepare_task_change-IsEdited_example =
    prepare_task_change-IsEdited old new (patch_of 3 60) 50 edit_runs

prepare_task_change_twice_example :
    prepare_task_change new (patch_of 3 45) 60 ≡ raise stale_task_version
prepare_task_change_twice_example =
    prepare_task_change_twice old new (patch_of 3 60) (patch_of 3 45) 50 60 edit_runs refl

-- ===== src/Schedules/Commands/Tests.antt =====
-- A store with one user, tasks of ten minutes a day, and the commands there.
use planer.Prelude.{
  length, ◌≤◌, ◌↔◌, All, arith, ℕ, ◌≡◌, refl, String, find_if, true, false, some, List, [], ◌∷◌,
}
use planer.Errors.{Result, ok, raise, error, stale_schedule_version}
use planer.Clock.{Zone, HasWholeSeconds}
use planer.Planning.{TimeWindow, PlanBlock}
use planer.Scheduler.Samples.{base, at, window, task, preferences, event, short_days, date}
use planer.Schedules.{
  SavedState, Draft, ScheduleCreate, ScheduleReplace, HistoryCommand, ScheduleResult, SavedSchedule,
}
use planer.Schedules.Store.{Version, Store}
use planer.Schedules.Views.{view}
use planer.Schedules.Commands.{
  undo, redo, Command, creates, replaces, travels, create, replace, travel,
}
use planer.Schedules.Commands.Replays.{create_again, replace_again, travel_again}
use planer.Schedules.Commands.Versions.{IsNext, replace_then_replace, travel_then_travel}
use planer.Schedules.Checks.{validate, protect_placements}
use planer.Schedules.Checks.Placements.{IsKept, IsOld, protect_placements_iff}
use planer.Schedules.Checks.Layouts.{IsAccepted, validate-IsAccepted}
use planer.Schedules.Commands.Histories.{IsKeyed, own_versions, replace-history_limit}
use planer.Schedules.Commands.Consistent.{IsConsistent, IsExclusive}
use planer.Schedules.Commands.Reachable.{
  Reaches, start, next, by_create, by_replace, Reaches-IsConsistent,
}
use planer.Schedules.Commands.Travels.{undo_then_redo}

abbrev store : Store
store = record {
  users = record { id = 1; timezone = "UTC" } ∷ [];
  tasks =
      record { task = task 1 2 true; creation_digest = 0; deleted = false }
      ∷ record { task = task 2 3 false; creation_digest = 0; deleted = false }
      ∷ [];
  preferences = record { user_id = 1; values = preferences; version = 1; updated_at = base } ∷ [];
  schedules = [];
  versions = [];
  commands = [];
  allocations = [];
}

-- Stands for a digest: the request's identifier.
abbrev digest : Command → ℕ
digest (creates request) = request.client_request_id
digest (replaces id request) = request.client_request_id
digest (travels direction id request) = request.client_request_id

abbrev block : ℕ → ℕ → ℕ → PlanBlock
block id left right = record { window = window left right; task_id = id; locked = false }

abbrev draft : List PlanBlock → Draft
draft blocks = record {
  title = "week";
  content = record {
    planning = record {
      start_date = date;
      days = 1;
      task_ids = 1 ∷ 2 ∷ [];
      availability = window 0 10 ∷ [];
      fixed_events = event ∷ [];
    };
    blocks = blocks;
  };
  task_versions = (1, 1) ∷ (2, 1) ∷ [];
  preference_version = 1;
}

abbrev creation : ScheduleCreate
creation = record { client_request_id = 7; draft = draft (block 1 5 7 ∷ []) }

-- What a run ends with, where it returns.
abbrev nothing : ScheduleResult
nothing = record {
  schedule = record {
    id = 0;
    version = 0;
    history_revision = 0;
    timezone = "";
    horizon = window 0 1;
    state = record {
      draft = draft [];
      task_titles = [];
      unscheduled = [];
      ignored_task_ids = [];
      warnings = [];
    };
    sources = record {
      stale = false;
      changed_task_ids = [];
      missing_task_ids = [];
      preferences_changed = false;
    };
    can_undo = false;
    can_redo = false;
    created_at = 0;
    updated_at = 0;
  };
  replayed = false;
  applied_version = 0;
}

abbrev ending : Result (ScheduleResult × Store) → ScheduleResult × Store
ending (ok end) = end
ending (raise e) = (nothing, store)

abbrev state_of : Result (SavedState × TimeWindow) → SavedState × TimeWindow
state_of (ok end) = end
state_of (raise e) = (nothing.schedule.state, window 0 1)

abbrev view_of : Result SavedSchedule → SavedSchedule
view_of (ok schedule) = schedule
view_of (raise e) = nothing.schedule

abbrev zone_of : String → Zone
zone_of name = short_days

abbrev created : ScheduleResult × Store
created = ending (create digest zone_of 1 creation 3 (at 0) store)

create_runs : create digest zone_of 1 creation 3 (at 0) store ≡ ok created
unfolding create
create_runs = refl

create_again_example :
    create digest zone_of 1 creation 4 (at 5) created.1
    ≡ ok (record created.0 { replayed = true }, created.1)
unfolding create
create_again_example =
    create_again digest zone_of 1 creation 3 4 (at 0) (at 5) store created.0 created.1 create_runs
      refl

-- A second layout of the same days
abbrev change_at : ℕ → ℕ → ScheduleReplace
change_at request version = record {
  create = record { client_request_id = request; draft = draft (block 1 4 6 ∷ block 2 6 9 ∷ []) };
  expected_version = version;
}

abbrev change : ℕ → ScheduleReplace
change request = change_at request 1

abbrev changed : ScheduleResult × Store
changed = ending (replace digest zone_of 1 3 (change 8) (at 0) created.1)

replace_runs : replace digest zone_of 1 3 (change 8) (at 0) created.1 ≡ ok changed
unfolding create replace
replace_runs = refl

replace_again_example :
    replace digest zone_of 1 3 (change 8) (at 5) changed.1
    ≡ ok (record changed.0 { replayed = true }, changed.1)
unfolding create replace
replace_again_example =
    replace_again digest zone_of 1 3 (change 8) (at 0) (at 5) created.1 changed.0 changed.1
      replace_runs refl

replace_then_replace_example :
    IsNext 1 3 1 changed.1
    × (replace digest zone_of 1 3 (change 9) (at 1) changed.1
        ≡ raise (error 409 stale_schedule_version))
unfolding create replace find_if
replace_then_replace_example =
    replace_then_replace digest zone_of 1 3 (change 8) (change 9) (at 0) (at 1) created.1 changed.0
      changed.1 replace_runs refl refl refl

abbrev command : ℕ → ℕ → HistoryCommand
command request version = record { client_request_id = request; expected_version = version }

-- A schedule that was replaced once
abbrev version : ℕ → List PlanBlock → Version
version revision blocks = record {
  schedule_id = 3;
  user_id = 1;
  revision = revision;
  state = record {
    draft = draft blocks;
    task_titles = (1, "task") ∷ (2, "task") ∷ [];
    unscheduled = [];
    ignored_task_ids = [];
    warnings = [];
  };
  created_at = at 0;
}

abbrev saved : Store
saved = record store {
  schedules =
      (record {
        id = 3;
        user_id = 1;
        start_at = at 0;
        end_at = at 10;
        timezone = "UTC";
        version = 2;
        current_revision = 2;
        created_at = at 0;
        updated_at = at 0;
      })
      ∷ [];
  versions = version 1 (block 1 5 7 ∷ []) ∷ version 2 (block 1 4 6 ∷ block 2 6 9 ∷ []) ∷ [];
}

abbrev undone : ScheduleResult × Store
undone = ending (travel digest zone_of undo 1 3 (command 10 2) (at 0) saved)

undo_runs : travel digest zone_of undo 1 3 (command 10 2) (at 0) saved ≡ ok undone
unfolding travel
undo_runs = refl

travel_again_example :
    travel digest zone_of undo 1 3 (command 10 2) (at 2) undone.1
    ≡ ok (record undone.0 { replayed = true }, undone.1)
unfolding travel
travel_again_example =
    travel_again digest zone_of undo 1 3 (command 10 2) (at 0) (at 2) saved undone.0 undone.1
      undo_runs refl

travel_then_travel_example :
    IsNext 1 3 2 undone.1
    × (travel digest zone_of redo 1 3 (command 11 2) (at 0) undone.1
        ≡ raise (error 409 stale_schedule_version))
unfolding travel find_if
travel_then_travel_example =
    travel_then_travel digest zone_of undo redo 1 3 (command 10 2) (command 11 2) (at 0) (at 0)
      saved undone.0 undone.1 undo_runs refl refl refl

abbrev redone : ScheduleResult × Store
redone = ending (travel digest zone_of redo 1 3 (command 11 3) (at 0) undone.1)

redo_runs : travel digest zone_of redo 1 3 (command 11 3) (at 0) undone.1 ≡ ok redone
unfolding travel
redo_runs = refl

abbrev first_view : SavedSchedule
first_view = view_of (view 1 3 saved)

saved_runs : view 1 3 saved ≡ ok first_view
unfolding view
saved_runs = refl

redo_new : redone.0.replayed ≡ false
unfolding travel
redo_new = refl

undo_then_redo_example :
    (redone.0.schedule.history_revision ≡ first_view.history_revision)
    × (redone.0.schedule.state ≡ first_view.state)
    × (redone.1.versions ≡ saved.versions)
unfolding travel
undo_then_redo_example =
    undo_then_redo digest zone_of 1 3 (command 10 2) (command 11 3) (at 0) (at 0) saved first_view
      undone.0 redone.0 undone.1 redone.1 saved_runs undo_runs refl redo_runs redo_new

store-IsConsistent : IsConsistent store
store-IsConsistent = record {
  apart = tt;
  once = tt;
  timed = tt;
  within = tt;
  schedule_keys = tt;
  version_keys = tt;
}

changed-Reaches : Reaches digest zone_of store changed.1
changed-Reaches =
    next store created.1 changed.1
      (next store store created.1 (start store)
        (by_create 1 creation 3 (at 0) store created.0 created.1 create_runs (tt, tt)))
      (by_replace 1 3 (change 8) (at 0) created.1 changed.0 changed.1 replace_runs)

Reaches-IsConsistent_example : IsConsistent changed.1 × IsExclusive changed.1
Reaches-IsConsistent_example =
    Reaches-IsConsistent digest zone_of store changed.1 changed-Reaches store-IsConsistent

short_days-HasWholeSeconds : HasWholeSeconds short_days
short_days-HasWholeSeconds = record { midnight_second = λ d. omega arith }

abbrev accepted : SavedState × TimeWindow
accepted = state_of (
    validate 1 (draft (block 1 4 6 ∷ [])) short_days (some (draft (block 1 5 7 ∷ []))) (at 0) store)

accepted_runs :
    validate 1 (draft (block 1 4 6 ∷ [])) short_days (some (draft (block 1 5 7 ∷ []))) (at 0) store
    ≡ ok accepted
unfolding validate
accepted_runs = refl

validate-IsAccepted_example :
    IsAccepted 1
      (draft (block 1 4 6 ∷ []))
      short_days
      (some (draft (block 1 5 7 ∷ [])))
      (at 0)
      store
      accepted.0
      accepted.1
validate-IsAccepted_example =
    validate-IsAccepted 1 (draft (block 1 4 6 ∷ [])) short_days (some (draft (block 1 5 7 ∷ [])))
      (at 0) store accepted.0 accepted.1 short_days-HasWholeSeconds accepted_runs

-- The block that has started is kept.
protect_placements_iff_example :
    (protect_placements (block 1 5 7 ∷ []) (block 1 5 7 ∷ block 2 7 9 ∷ []) store.tasks (at 6)
      ≡ ok tt)
    ↔ (All (IsKept store.tasks (at 6) (block 1 5 7 ∷ block 2 7 9 ∷ [])) (block 1 5 7 ∷ [])
        × All (IsOld (at 6) (block 1 5 7 ∷ [])) (block 1 5 7 ∷ block 2 7 9 ∷ []))
protect_placements_iff_example =
    protect_placements_iff (block 1 5 7 ∷ []) (block 1 5 7 ∷ block 2 7 9 ∷ []) store.tasks (at 6)

-- A second replacement
abbrev longer : ScheduleResult × Store
longer = ending (replace digest zone_of 1 3 (change_at 12 2) (at 0) saved)

longer_runs : replace digest zone_of 1 3 (change_at 12 2) (at 0) saved ≡ ok longer
unfolding replace
longer_runs = refl

longer_new : longer.0.replayed ≡ false
unfolding replace
longer_new = refl

longer-IsKeyed : IsKeyed longer.1
unfolding replace
longer-IsKeyed = ((λ k. refl, (λ k. refl, tt)), ((λ k. refl, tt), (tt, tt)))

replace-history_limit_example : length (own_versions 3 longer.1) ≤ 20
replace-history_limit_example =
    replace-history_limit digest zone_of 1 3 (change_at 12 2) (at 0) saved longer.0 longer.1
      longer_runs longer_new longer-IsKeyed

-- ===== src/Scheduler/Tests.antt =====
-- Runs of the planner on the sample, and the theorems about it there.
use planer.Prelude.{ℕ, ◌≤◌, ◌<◌, none, some, List, All, ◌≡◌, refl, true, false, [], ◌∷◌, arith}
use planer.Errors.{ok, raise, search_limit}
use planer.Scheduler.Mask.{Mask, bit, gaps}
use planer.Scheduler.Mask.Gaps.{IsRun, Covers, gaps_exact}
use planer.Scheduler.Setup.{Setup, make_setup}
use planer.Scheduler.Search.{piece, pauses, find_slot}
use planer.Models.{TaskRecord, is_pending}
use planer.Scheduler.Account.Allocated.{IsAccounted}
use planer.Scheduler.Account.Preview.{build_preview-IsAccounted}
use planer.Scheduler.Sound.FindSlot.{Explains, find_slot-Explains}
use planer.Clock.{HasWholeSeconds}
use planer.Planning.{
  PlanBlock, PlanPreview, validate_request, no_slot_found, not_scheduled, break_preference_not_met,
}
use planer.Scheduler.Preview.{Layout, build_preview, inspect_layout}
use planer.Scheduler.Samples.{
  short_days, at, window, task, preferences, event, locked_block, tasks, request,
}
use planer.Scheduler.Sound.Layout.{locked_request, inspect_layout-IsValidPlan}
use planer.Scheduler.Sound.Preview.{IsValidPlan, build_preview-IsValidPlan}

abbrev block : ℕ → ℕ → ℕ → PlanBlock
block left right id = record { window = window left right; task_id = id; locked = false }

-- Task 3 keeps its lock, task 1 is split around it and the class, and task 2 is too long.
abbrev preview : PlanPreview
preview = record {
  horizon = window 0 10;
  timezone = "Short";
  planned_at = at 1;
  blocks = block 1 2 1 ∷ block 5 6 1 ∷ locked_block ∷ [];
  fixed_events = event ∷ [];
  unscheduled =
      (record { task_id = 2; title = "task"; remaining_minutes = 6; reason = no_slot_found }) ∷ [];
  ignored_task_ids = [];
  task_versions = (1, 1) ∷ (2, 1) ∷ (3, 1) ∷ [];
  preference_version = 1;
  warnings = break_preference_not_met ∷ [];
}

preview_runs : build_preview request tasks preferences "Short" short_days (at 1) 1 1000 ≡ ok preview
unfolding build_preview
preview_runs = refl

request_valid : validate_request request ≡ true
unfolding validate_request
request_valid = refl

short_days-HasWholeSeconds : HasWholeSeconds short_days
short_days-HasWholeSeconds = record { midnight_second = λ d. omega arith }

build_preview-IsValidPlan_example : IsValidPlan request tasks short_days (at 1) preview.blocks
build_preview-IsValidPlan_example =
    build_preview-IsValidPlan request tasks preferences "Short" short_days (at 1) 1 1000 preview
      short_days-HasWholeSeconds request_valid preview_runs

-- A planner on a morning with a hole, and one busy minute in it.
abbrev mask : Mask
mask = true ∷ true ∷ false ∷ false ∷ true ∷ true ∷ true ∷ true ∷ true ∷ false ∷ []

planner : Setup
unfolding make_setup
planner = make_setup request tasks preferences short_days (at 0) mask

gaps_run : gaps mask 1 9 ≡ (1, 2) ∷ (4, 9) ∷ []
unfolding gaps
gaps_run = refl

gaps_exact_example :
    All (IsRun mask 1 9) (gaps mask 1 9)
    × ((i : ℕ) → 1 ≤ i → i < 9 → bit mask i ≡ true → Covers i (gaps mask 1 9))
gaps_exact_example = gaps_exact mask 1 9

-- The minute before and the minute behind the busy one are its break.
slot_run : (find_slot planner (task 1 4 true) 4 ((4, 5) ∷ []) (0 ∷ []) 100).0 ≡ ok (some (6, 3))
unfolding planner find_slot
slot_run = refl

no_slot_run : (find_slot planner (task 1 7 false) 7 ((4, 5) ∷ []) (0 ∷ []) 100).0 ≡ ok none
unfolding planner find_slot
no_slot_run = refl

cut_off_run : (find_slot planner (task 1 2 true) 2 ((4, 5) ∷ []) (0 ∷ []) 1).0 ≡ raise search_limit
unfolding planner find_slot
cut_off_run = refl

find_slot-Explains_example :
    Explains planner
      (task 1 4 true)
      (piece planner (task 1 4 true) 4)
      ((4, 5) ∷ [])
      (0 ∷ [])
      (pauses planner.preferences.break_minutes)
      (some (6, 3))
find_slot-Explains_example =
    find_slot-Explains planner (task 1 4 true) 4 ((4, 5) ∷ []) (0 ∷ []) 100 (some (6, 3)) slot_run

build_preview-IsAccounted_example :
    All
      (λ (task : TaskRecord).
        is_pending task.status ≡ true → IsAccounted preview.blocks preview.unscheduled task)
      tasks
build_preview-IsAccounted_example =
    build_preview-IsAccounted request tasks preferences "Short" short_days (at 1) 1 1000 preview
      short_days-HasWholeSeconds request_valid preview_runs

-- Task 1 in two pieces, and task 3 at its lock
abbrev drawn : List PlanBlock
drawn = block 1 2 1 ∷ block 5 6 1 ∷ block 7 9 3 ∷ []

abbrev drawn_layout : Layout
drawn_layout = record {
  horizon = window 0 10;
  missing =
      (record { task_id = 2; title = "task"; remaining_minutes = 6; reason = not_scheduled }) ∷ [];
  ignored = [];
  warned = break_preference_not_met ∷ [];
}

inspect_runs : inspect_layout request.planning drawn tasks preferences short_days ≡ ok drawn_layout
unfolding inspect_layout
inspect_runs = refl

inspect_layout-IsValidPlan_example :
    IsValidPlan (locked_request request.planning drawn) tasks short_days (at 0) drawn
inspect_layout-IsValidPlan_example =
    inspect_layout-IsValidPlan request.planning drawn tasks preferences short_days drawn_layout
      short_days-HasWholeSeconds inspect_runs

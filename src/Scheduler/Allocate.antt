-- ===== src/Scheduler/Allocate.antt =====
-- src/smartplanner/scheduler.py: `allocate_task`.
use planer.Prelude.{
  ℕ, zero, suc, ◌+◌, ◌-◌, ◌*◌, false, ◌&&◌, not, none, some, List, [], ◌∷◌, ◌++◌, map, length, leb,
  ◌==◌, if◌then◌else◌,
}
use planer.Errors.{ok, raise}
use planer.Clock.{minute}
use planer.Models.{TaskRecord, is_none}
use planer.Planning.{PlanBlock, Reason, deadline_passed, no_slot_found, search_limit_reason}
use planer.Scheduler.Mask.{Interval}
use planer.Scheduler.Setup.{Setup, interval}
use planer.Scheduler.Planner.{State, minutes_of, bounds, reserve_all}
use planer.Scheduler.Search.{usage, find_slot}

abbrev pub max_blocks : ℕ
max_blocks = 512

-- The local variables of the `while` loop, and the planner's budget.
pub record Pieces : Type 0 where
  pub remaining : ℕ
  pub busy : List Interval
  pub intervals : List Interval
  pub additions : List PlanBlock
  pub reason : Reason
  pub budget : ℕ

module _ (planner : Setup) where
  unfoldable pub new_block : TaskRecord → ℕ → ℕ → PlanBlock
  new_block task start length = record {
    window = record {
      start = planner.start + start * minute;
      end = planner.start + (start + length) * minute;
    };
    task_id = task.id;
    locked = false;
  }

  -- The end of the loop's body.
  unfoldable pub add_piece : TaskRecord → ℕ → ℕ → ℕ → Pieces → Pieces
  unfolding new_block
  add_piece task start length budget p = record p {
    remaining = p.remaining - length;
    busy = p.busy ++ (start, start + length) ∷ [];
    intervals = p.intervals ++ (start, start + length) ∷ [];
    additions = p.additions ++ new_block task start length ∷ [];
    budget = budget;
  }

  -- The `while` loop with `except SearchLimit`. Each round places at least a minute, so as many
  -- rounds as minutes remain are enough.
  unfoldable pub place_pieces : ℕ → TaskRecord → ℕ → Pieces → Pieces
  unfolding find_slot usage add_piece
  place_pieces zero task placed p = p
  place_pieces (suc rounds) task placed p =
      if p.remaining == 0
      then p
      else if leb max_blocks (placed + length p.additions)
      then record p { reason = search_limit_reason }
      else let tried =
          find_slot planner task p.remaining p.busy (usage planner p.intervals) p.budget in
        elim tried.0 [
          | raise e ↦ record p { reason = search_limit_reason; budget = tried.1 }
          | ok slot ↦ elim slot [
            | none ↦ record p { budget = tried.1 }
            | some (start, length) ↦
                place_pieces rounds task placed (add_piece task start length tried.1 p)
          ]
        ]

  unfoldable pub failure_reason : TaskRecord → Reason → Reason
  unfolding bounds
  failure_reason task reason =
      let (earliest, latest) = bounds planner task in
      if not (is_none task.deadline) && leb latest earliest then deadline_passed else reason

  unfoldable pub start_pieces : ℕ → State → Pieces
  unfolding interval
  start_pieces remaining s = record {
    remaining = remaining;
    busy = s.busy;
    intervals = map (λ (block : PlanBlock). interval planner.start block.window) s.blocks;
    additions = [];
    reason = no_slot_found;
    budget = s.budget;
  }

  -- What the loop leaves becomes part of the plan, all of it or nothing.
  unfoldable pub commit_pieces : TaskRecord → ℕ → Pieces → State → State
  unfolding reserve_all failure_reason
  commit_pieces task requested p s =
      if p.remaining == 0
      then reserve_all planner p.additions (record s { budget = p.budget })
      else record s {
        unscheduled =
            s.unscheduled
            ++ (record {
              task_id = task.id;
              title = task.title;
              remaining_minutes = requested;
              reason = failure_reason task p.reason;
            })
              ∷ [];
        budget = p.budget;
      }

  unfoldable pub allocate_task : TaskRecord → State → State
  unfolding minutes_of place_pieces start_pieces commit_pieces
  allocate_task task s =
      let remaining = task.duration_minutes - minutes_of task.id s.blocks in
      if remaining == 0
      then s
      else commit_pieces task remaining
          (place_pieces remaining task (length s.blocks) (start_pieces remaining s)) s

  unfoldable pub allocate_all : List TaskRecord → State → State
  unfolding allocate_task
  allocate_all [] s = s
  allocate_all (task ∷ rest) s = allocate_all rest (allocate_task task s)

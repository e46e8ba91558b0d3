-- ===== src/Scheduler/Planner.antt =====
-- src/smartplanner/scheduler.py: the constraints of `_Planner`, and `preserve_previous`.
-- `State` holds the fields that change after `__init__`. A block is only ever asked about together
-- with its task, so `self.pending[block.task_id]` is the task that is passed along.
use planer.Prelude.{
  ℕ, ◌+◌, ◌-◌, min, max, Bool, true, false, not, ◌&&◌, ◌||◌, Option, none, some, List, [], ◌∷◌,
  ◌++◌, length, filter_if, any_of, sum_of, ltb, ◌==◌, if◌then◌else◌, pos, pos_part, leb_ℤ, ltb_ℤ,
  sort_by,
}
use planer.Errors.{
  Result, ok, error, raise_if, ◌>>=◌, ◌>>◌, locked_duration_conflict, locked_block_conflict,
}
use planer.Clock.{Instant, ceil_minutes, floor_minutes}
use planer.Models.{TaskRecord}
use planer.Planning.{PlanBlock, UnscheduledTask}
use planer.Scheduler.Mask.{Mask, Interval, fill, all_bits}
use planer.Scheduler.Setup.{Setup, indices, interval}

pub record State : Type 0 where
  pub blocks : List PlanBlock
  pub busy : List Interval
  pub unscheduled : List UnscheduledTask
  pub budget : ℕ

abbrev pub or_else {ℓ} : {A : Type ℓ} → Option A → A → A
or_else none d = d
or_else (some a) d = a

-- `(block.end - block.start) / MINUTE`, whole
unfoldable pub block_minutes : PlanBlock → ℕ
block_minutes block = floor_minutes block.end block.start

abbrev pub of_task : ℕ → PlanBlock → Bool
of_task id block = block.task_id == id

-- `sum(... for block in blocks if block.task_id == id)`
unfoldable pub minutes_of : ℕ → List PlanBlock → ℕ
unfolding sum_of block_minutes
minutes_of id blocks = sum_of (λ block. if of_task id block then block_minutes block else 0) blocks

unfoldable pub total_minutes : List PlanBlock → ℕ
unfolding sum_of block_minutes
total_minutes blocks = sum_of block_minutes blocks

unfoldable pub by_start : PlanBlock → PlanBlock → Bool
by_start a b = ltb a.start b.start

abbrev ceil_from : Instant → Option Instant → ℕ
ceil_from start none = 0
ceil_from start (some t) = ceil_minutes t start

abbrev floor_from : Instant → ℕ → Option Instant → ℕ
floor_from start size none = size
floor_from start size (some t) = floor_minutes t start

-- The loop of `free_mask` over the busy intervals.
unfoldable pub clear_busy : ℕ → ℕ → List Interval → Mask → Mask
unfolding fill
clear_busy size pause [] mask = mask
clear_busy size pause ((left, right) ∷ busy) mask =
    clear_busy size pause busy (fill false (left - pause) (min size (right + pause)) mask)

module _ (planner : Setup) where
  open planner use {start, size, floor, available}

  -- `bounds`: the minutes between the task's earliest start and its deadline.
  unfoldable pub bounds : TaskRecord → Interval
  bounds task = (
    min size (max floor (ceil_from start task.earliest_start)),
    min size (min size (floor_from start size task.deadline)),
  )

  -- The first part of the key `order`.
  abbrev pub due : TaskRecord → Instant
  due task = min (or_else task.deadline planner.end) planner.end

  unfoldable pub task_before : TaskRecord → TaskRecord → Bool
  task_before a b =
      ltb (due a) (due b)
      || (due a == due b
          && (ltb b.priority a.priority || (a.priority == b.priority && ltb a.id b.id)))

  unfoldable pub free_mask : List Interval → ℕ → Mask
  unfolding clear_busy
  free_mask busy pause = clear_busy size pause busy available

  -- `earliest <= left < right <= latest and all(mask[left:right])`
  unfoldable pub valid_block : TaskRecord → PlanBlock → Mask → Bool
  unfolding indices bounds all_bits
  valid_block task block mask =
      let (left, right) = indices start block.window in
      let (earliest, latest) = bounds task in
      leb_ℤ (pos earliest) left
      && ltb_ℤ left right
      && leb_ℤ right (pos latest)
      && all_bits mask (pos_part left) (pos_part right)

  -- Only for a block that `valid_block` accepted, or that the search placed: no index is negative.
  unfoldable pub reserve : PlanBlock → State → State
  unfolding interval
  reserve block s = record s {
    blocks = s.blocks ++ block ∷ [];
    busy = s.busy ++ interval start block.window ∷ [];
  }

  unfoldable pub reserve_all : List PlanBlock → State → State
  unfolding reserve
  reserve_all [] s = s
  reserve_all (block ∷ rest) s = reserve_all rest (reserve block s)

  -- `self.previous[task.id]`
  unfoldable pub previous_of : TaskRecord → List PlanBlock
  unfolding filter_if
  previous_of task = filter_if (of_task task.id) planner.request.previous_blocks

  -- The loop over the locks of a task.
  unfoldable pub reserve_locks : TaskRecord → List PlanBlock → State → Result State
  unfolding valid_block free_mask reserve
  reserve_locks task [] s = ok s
  reserve_locks task (block ∷ rest) s =
      raise_if (not (valid_block task block (free_mask s.busy 0))) (error 409 locked_block_conflict)
      >> reserve_locks task rest (reserve block s)

  unfoldable pub locks_of : TaskRecord → List PlanBlock
  unfolding sort_by by_start previous_of
  locks_of task = sort_by by_start (filter_if (λ block. block.locked) (previous_of task))

  unfoldable pub movable_of : TaskRecord → List PlanBlock
  unfolding sort_by by_start previous_of
  movable_of task = sort_by by_start (filter_if (λ block. not block.locked) (previous_of task))

  -- `len(locks) != 1 or locked_minutes != task.duration_minutes` matters only if there are locks.
  unfoldable pub locks_conflict : TaskRecord → List PlanBlock → Bool
  unfolding total_minutes
  locks_conflict task locks =
      ltb task.duration_minutes (total_minutes locks)
      || (ltb 0 (length locks)
          && not task.splittable
          && (not (length locks == 1) || not (total_minutes locks == task.duration_minutes)))

  -- The first loop of `preserve_previous`.
  unfoldable pub preserve_locks : List TaskRecord → State → Result State
  unfolding locks_of locks_conflict reserve_locks
  preserve_locks [] s = ok s
  preserve_locks (task ∷ rest) s = do
    raise_if (locks_conflict task (locks_of task)) (error 409 locked_duration_conflict)
    s' ← reserve_locks task (locks_of task) s
    preserve_locks rest s'

  -- The inner `for` with its `break`: whether all movable blocks fit, each on the minutes that
  -- those before it leave free.
  unfoldable pub all_fit : TaskRecord → List PlanBlock → Mask → Bool
  unfolding valid_block interval
  all_fit task [] mask = true
  all_fit task (block ∷ rest) mask =
      let (left, right) = interval start block.window in
      valid_block task block mask && all_fit task rest (fill false left right mask)

  -- The round of a task in the second loop of `preserve_previous`.
  unfoldable pub preserve_movable : TaskRecord → State → State
  unfolding total_minutes all_fit movable_of free_mask reserve_all
  preserve_movable task s =
      if not (total_minutes (previous_of task) == task.duration_minutes)
        || (not task.splittable && not (length (previous_of task) == 1))
      then s
      else if all_fit task (movable_of task) (free_mask s.busy 0)
      then reserve_all (movable_of task) s
      else s

  unfoldable pub preserve_movables : List TaskRecord → State → State
  unfolding preserve_movable
  preserve_movables [] s = s
  preserve_movables (task ∷ rest) s = preserve_movables rest (preserve_movable task s)

  -- The keys of `self.previous`: the pending tasks with a previous block, by `str(id)`, which
  -- orders UUIDs as their numbers.
  unfoldable pub previous_tasks : List TaskRecord
  unfolding sort_by filter_if any_of
  previous_tasks =
      sort_by (λ (a b : TaskRecord). ltb a.id b.id)
        (filter_if (λ (task : TaskRecord). any_of (of_task task.id) planner.request.previous_blocks)
          planner.pending)

  unfoldable pub ordered_tasks : List TaskRecord
  unfolding sort_by task_before
  ordered_tasks = sort_by task_before planner.pending

  unfoldable pub preserve_previous : State → Result State
  unfolding previous_tasks preserve_locks ordered_tasks preserve_movables
  preserve_previous s = do
    s' ← preserve_locks previous_tasks s
    ok (preserve_movables ordered_tasks s')

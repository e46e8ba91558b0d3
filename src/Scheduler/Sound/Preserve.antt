-- ===== src/Scheduler/Sound/Preserve.antt =====
-- `preserve_previous` keeps the plan sound.
use planer.Prelude.{
  ◌≤◌, ◌≡◌, ap, subst, true_of_not, ◌∙◌, true, false, not, ◌&&◌, ◌||◌, List, [], ◌∷◌, arith, length,
  inl, inr, Bool-cases, &&_parts, All, All-both, All-In, All-filter_if, All-filter_test,
  All-sort_by, In, ==_iff, ◌==◌,
}
use planer.Errors.{Result, ok, ◌>>=◌, returned, raise_if-eq-ok}
use planer.Models.{TaskRecord}
use planer.Planning.Grid.{OnGrid}
use planer.Planning.{PlanBlock}
use planer.Scheduler.Mask.{Mask, Interval, fill}
use planer.Scheduler.Mask.Fill.{length-fill}
use planer.Scheduler.Setup.{Setup, interval}
use planer.Scheduler.Planner.{
  State, of_task, by_start, valid_block, free_mask, reserve, reserve_all, reserve_locks, all_fit,
  previous_of, locks_of, movable_of, preserve_locks, preserve_movable, preserve_movables,
  previous_tasks, task_before, ordered_tasks, preserve_previous, total_minutes,
}
use planer.Scheduler.Sound.{IsClear, IsSound}
use planer.Scheduler.Sound.Masks.{
  free_mask-IsClear, length-free_mask, fill-IsClear, free_interval-Disjoint,
}
use planer.Scheduler.Sound.Reserve.{
  bounds-le-size, valid_block-IsFit, interval_of_indices, reserve-IsSound,
}

abbrev Named : TaskRecord → PlanBlock → Type 0
Named task block = (block.task_id ≡ task.id) × OnGrid block.window

module _ (planner : Setup) (sized : length planner.available ≡ planner.size) (fixed : List Interval)
    (grid : All (λ (block : PlanBlock). OnGrid block.window) planner.request.previous_blocks) where
  -- The block of a task that `valid_block` accepted.
  reserve_valid :
      (task : TaskRecord) (block : PlanBlock) (mask : Mask) (s : State)
      → In planner.pending task
      → Named task block
      → length mask ≡ planner.size
      → IsClear planner.available mask s.busy
      → valid_block planner task block mask ≡ true
      → IsSound planner fixed s
      → IsSound planner fixed (reserve planner block s)
  reserve_valid task block mask s known named fits clear valid sound =
      let (fit, ones) = valid_block-IsFit planner task block mask s.busy fits clear valid in
      reserve-IsSound planner fixed s block
        (record { task = task; known = known; named = named.0; fits = fit; grid = named.1 }) sound
        (free_interval-Disjoint planner.available mask s.busy fit.left fit.right clear sound.solid
          fit.solid ones)

  marked :
      (block : PlanBlock) (mask : Mask) (s : State)
      → (interval planner.start block.window).1 ≤ length mask
      → IsClear planner.available mask s.busy
      → IsClear planner.available
          (fill false
            (interval planner.start block.window).0
            (interval planner.start block.window).1
            mask)
          (reserve planner block s).busy
  unfolding reserve
  marked block mask s inside clear = fill-IsClear planner.available mask s.busy _ _ inside clear

  reserve_locks-IsSound :
      (task : TaskRecord) (blocks : List PlanBlock) (s t : State)
      → In planner.pending task
      → All (Named task) blocks
      → reserve_locks planner task blocks s ≡ ok t
      → IsSound planner fixed s
      → IsSound planner fixed t
  unfolding reserve_locks
  reserve_locks-IsSound task [] s t known named e sound =
      let same : s ≡ t = cc in subst (IsSound planner fixed) same sound
  reserve_locks-IsSound task (block ∷ rest) s t known named e sound =
      let mask = free_mask planner s.busy 0 in
      let (u, passed, e') =
        returned _ (λ _. reserve_locks planner task rest (reserve planner block s)) e in
      let valid =
        true_of_not _ (raise_if-eq-ok (not (valid_block planner task block mask)) _ u passed) in
      reserve_locks-IsSound task rest (reserve planner block s) t known named.1 e' (
        reserve_valid task block mask s known named.0 (length-free_mask planner sized s.busy 0)
          (free_mask-IsClear planner sized s.busy 0) valid sound)

  all_fit-IsSound :
      (task : TaskRecord) (blocks : List PlanBlock) (mask : Mask) (s : State)
      → In planner.pending task
      → All (Named task) blocks
      → length mask ≡ planner.size
      → IsClear planner.available mask s.busy
      → all_fit planner task blocks mask ≡ true
      → IsSound planner fixed s
      → IsSound planner fixed (reserve_all planner blocks s)
  unfolding all_fit reserve_all
  all_fit-IsSound task [] mask s known named fits clear h sound = sound
  all_fit-IsSound task (block ∷ rest) mask s known named fits clear h sound =
      let iv = interval planner.start block.window in
      let mask' = fill false iv.0 iv.1 mask in
      let (valid, others) =
        &&_parts (valid_block planner task block mask) (all_fit planner task rest mask') h in
      let (fit, ones) = valid_block-IsFit planner task block mask s.busy fits clear valid in
      let at_fit : iv.1 ≡ fit.right =
        ap (λ (v : Interval). v.1)
          (interval_of_indices planner block fit.left fit.right fit.placed) in
      let inside : iv.1 ≤ length mask =
        omega (arith, at_fit, fit.late, bounds-le-size planner task, fits) in
      all_fit-IsSound task rest mask' (reserve planner block s) known named.1
        (length-fill false iv.0 iv.1 mask ∙ fits) (marked block mask s inside clear) others
        (reserve_valid task block mask s known named.0 fits clear valid sound)

  previous_of-Named : (task : TaskRecord) → All (Named task) (previous_of planner task)
  unfolding previous_of
  previous_of-Named task =
      All-both (λ block. of_task task.id block ≡ true) (λ block. OnGrid block.window) (Named task)
        (λ block e g. ((==_iff _ _).0 e, g)) (previous_of planner task)
        (All-filter_test (of_task task.id) planner.request.previous_blocks)
        (All-filter_if (λ (block : PlanBlock). OnGrid block.window) (of_task task.id)
          planner.request.previous_blocks grid)

  locks_of-Named : (task : TaskRecord) → All (Named task) (locks_of planner task)
  unfolding locks_of
  locks_of-Named task =
      All-sort_by (Named task) by_start _
        (All-filter_if (Named task) (λ block. block.locked) _ (previous_of-Named task))

  movable_of-Named : (task : TaskRecord) → All (Named task) (movable_of planner task)
  unfolding movable_of
  movable_of-Named task =
      All-sort_by (Named task) by_start _
        (All-filter_if (Named task) (λ block. not block.locked) _ (previous_of-Named task))

  preserve_locks-IsSound :
      (tasks : List TaskRecord) (s t : State)
      → All (In planner.pending) tasks
      → preserve_locks planner tasks s ≡ ok t
      → IsSound planner fixed s
      → IsSound planner fixed t
  unfolding preserve_locks
  preserve_locks-IsSound [] s t known e sound =
      let same : s ≡ t = cc in subst (IsSound planner fixed) same sound
  preserve_locks-IsSound (task ∷ rest) s t known e sound =
      let locks = locks_of planner task in
      let continue : State → Result State = λ s'. preserve_locks planner rest s' in
      let (u, passed, e') = returned _ (λ _. reserve_locks planner task locks s >>= continue) e in
      let (s', reserved, e'') = returned (reserve_locks planner task locks s) continue e' in
      preserve_locks-IsSound rest s' t known.1 e''
        (reserve_locks-IsSound task locks s s' known.0 (locks_of-Named task) reserved sound)

  preserve_movable-IsSound :
      (task : TaskRecord) (s : State)
      → In planner.pending task
      → IsSound planner fixed s
      → IsSound planner fixed (preserve_movable planner task s)
  unfolding preserve_movable
  preserve_movable-IsSound task s known sound =
      let skip =
        not (total_minutes (previous_of planner task) == task.duration_minutes)
        || (not task.splittable && not (length (previous_of planner task) == 1)) in
      let mask = free_mask planner s.busy 0 in
      let moved = movable_of planner task in
      elim (Bool-cases skip) [
        | inl e ↦ rw e sound
        | inr e ↦ elim (Bool-cases (all_fit planner task moved mask)) [
          | inl k ↦
              rw (e, k)
                (all_fit-IsSound task moved mask s known (movable_of-Named task)
                  (length-free_mask planner sized s.busy 0)
                  (free_mask-IsClear planner sized s.busy 0) k sound)
          | inr k ↦ rw (e, k) sound
        ]
      ]

  preserve_movables-IsSound :
      (tasks : List TaskRecord) (s : State)
      → All (In planner.pending) tasks
      → IsSound planner fixed s
      → IsSound planner fixed (preserve_movables planner tasks s)
  unfolding preserve_movables
  preserve_movables-IsSound [] s known sound = sound
  preserve_movables-IsSound (task ∷ rest) s known sound =
      preserve_movables-IsSound rest (preserve_movable planner task s) known.1
        (preserve_movable-IsSound task s known.0 sound)

  pub ordered_tasks-In : All (In planner.pending) (ordered_tasks planner)
  unfolding ordered_tasks
  ordered_tasks-In =
      All-sort_by (In planner.pending) (task_before planner) planner.pending
        (All-In planner.pending)

  previous_tasks-In : All (In planner.pending) (previous_tasks planner)
  unfolding previous_tasks
  previous_tasks-In =
      All-sort_by (In planner.pending) _ _
        (All-filter_if (In planner.pending) _ planner.pending (All-In planner.pending))

  -- If `preserve_previous` returns, the plan that it leaves is sound.
  pub preserve_previous-IsSound :
      (s t : State)
      → preserve_previous planner s ≡ ok t
      → IsSound planner fixed s
      → IsSound planner fixed t
  unfolding preserve_previous
  preserve_previous-IsSound s t e sound =
      let finish : State → Result State =
        λ s'. ok (preserve_movables planner (ordered_tasks planner) s') in
      let (s', kept, e') = returned (preserve_locks planner (previous_tasks planner) s) finish e in
      let same : preserve_movables planner (ordered_tasks planner) s' ≡ t = cc in
      subst (IsSound planner fixed) same (
        preserve_movables-IsSound (ordered_tasks planner) s' ordered_tasks-In
          (preserve_locks-IsSound (previous_tasks planner) s s' previous_tasks-In kept sound))

-- ===== src/Scheduler/Account/Preserved.antt =====
-- The minutes that `preserve_previous` keeps: of each pending task its locks, and its other
-- previous blocks only if together they last as long as the task.
use mathlib.Core.List.{append_assoc, append-nil}
use planer.Prelude.{
  ◌+◌, ◌≤◌, ◌≡◌, ◌⊎◌, inl, inr, refl, sym, ap, ◌∙◌, true, false, not, ◌&&◌, ◌||◌, List, [], ◌∷◌,
  ◌++◌, arith, length, ◌==◌, All, All-imp, All-filter_if, All-filter_test, All-sort_by,
  sum_of-sort_by, sum_of-filter_if, ==_iff, Bool-cases, filter_if,
}
use planer.Errors.{Result, ok, ◌>>=◌, returned, raise_if-eq-ok}
use planer.Models.{TaskRecord}
use planer.Planning.{PlanBlock}
use planer.Scheduler.Setup.{Setup}
use planer.Scheduler.Planner.{
  State, of_task, by_start, free_mask, reserve, reserve_locks, all_fit, previous_of, locks_of,
  movable_of, locks_conflict, preserve_locks, preserve_movable, preserve_movables, total_minutes,
  block_minutes,
}
use planer.Scheduler.Sound.Allocation.{blocks-reserve_all}
use planer.Scheduler.Account.{Own, Appends, Appends-none, Steps}

module _ (planner : Setup) where
  previous_of-Own : (task : TaskRecord) → All (Own task.id) (previous_of planner task)
  unfolding previous_of
  previous_of-Own task =
      All-imp (λ block. of_task task.id block ≡ true) (Own task.id) (λ block e. (==_iff _ _).0 e) _
        (All-filter_test (of_task task.id) planner.request.previous_blocks)

  locks_of-Own : (task : TaskRecord) → All (Own task.id) (locks_of planner task)
  unfolding locks_of
  locks_of-Own task =
      All-sort_by (Own task.id) by_start _
        (All-filter_if (Own task.id) (λ block. block.locked) _ (previous_of-Own task))

  movable_of-Own : (task : TaskRecord) → All (Own task.id) (movable_of planner task)
  unfolding movable_of
  movable_of-Own task =
      All-sort_by (Own task.id) by_start _
        (All-filter_if (Own task.id) (λ block. not block.locked) _ (previous_of-Own task))

  -- The locks and the movable blocks of a task are its previous blocks.
  pub total_minutes_parts :
      (task : TaskRecord)
      → total_minutes (locks_of planner task) + total_minutes (movable_of planner task)
        ≡ total_minutes (previous_of planner task)
  unfolding total_minutes locks_of movable_of
  total_minutes_parts task =
      let previous = previous_of planner task in
      omega (
        arith,
        sum_of-sort_by by_start block_minutes (filter_if (λ block. block.locked) previous),
        sum_of-sort_by by_start block_minutes (filter_if (λ block. not block.locked) previous),
        sum_of-filter_if block_minutes (λ block. block.locked) previous,
      )

  blocks-reserve_locks :
      (task : TaskRecord) (locks : List PlanBlock) (s t : State)
      → reserve_locks planner task locks s ≡ ok t
      → t.blocks ≡ s.blocks ++ locks
  unfolding reserve_locks reserve
  blocks-reserve_locks task [] s t e =
      let same : s ≡ t = cc in ap (λ (s : State). s.blocks) (sym same) ∙ sym (append-nil s.blocks)
  blocks-reserve_locks task (block ∷ rest) s t e =
      let (u, passed, e') =
        returned _ (λ _. reserve_locks planner task rest (reserve planner block s)) e in
      blocks-reserve_locks task rest (reserve planner block s) t e'
      ∙ append_assoc s.blocks (block ∷ []) rest

  -- A round of the first loop for a task.
  pub record Locks (task : TaskRecord) (s t : State) : Type 0 where
    pub appends : Appends task.id s t
    pub locked : appends.added ≡ locks_of planner task
    pub bounded : total_minutes (locks_of planner task) ≤ task.duration_minutes

  locks_conflict-bound :
      (task : TaskRecord) (locks : List PlanBlock)
      → locks_conflict planner task locks ≡ false
      → total_minutes locks ≤ task.duration_minutes
  unfolding locks_conflict
  locks_conflict-bound task locks e = ground arith

  pub preserve_locks-Steps :
      (tasks : List TaskRecord) (s t : State)
      → preserve_locks planner tasks s ≡ ok t
      → Steps Locks tasks s t
  unfolding preserve_locks
  preserve_locks-Steps [] s t e = cc
  preserve_locks-Steps (task ∷ rest) s t e =
      let locks = locks_of planner task in
      let continue : State → Result State = λ s'. preserve_locks planner rest s' in
      let (u, passed, e') = returned _ (λ _. reserve_locks planner task locks s >>= continue) e in
      let (s', reserved, e'') = returned (reserve_locks planner task locks s) continue e' in
      (
        s',
        record {
          appends = record {
            added = locks;
            own = locks_of-Own task;
            appended = blocks-reserve_locks task locks s s' reserved;
          };
          locked = refl;
          bounded =
              locks_conflict-bound task locks
                (raise_if-eq-ok (locks_conflict planner task locks) _ u passed);
        },
        preserve_locks-Steps rest s' t e'',
      )

  -- A round of the second loop.
  pub record Moves (task : TaskRecord) (s t : State) : Type 0 where
    pub appends : Appends task.id s t
    pub whole :
        (appends.added ≡ [])
        ⊎ ((appends.added ≡ movable_of planner task)
            × (total_minutes (previous_of planner task) ≡ task.duration_minutes))

  stays : (task : TaskRecord) (s : State) → Moves task s s
  stays task s = record {
    appends = Appends-none task.id s s refl;
    whole = inl (unfold Appends-none in refl);
  }

  preserve_movable-Moves :
      (task : TaskRecord) (s : State) → Moves task s (preserve_movable planner task s)
  unfolding preserve_movable
  preserve_movable-Moves task s =
      let previous = previous_of planner task in
      let skip =
        not (total_minutes previous == task.duration_minutes)
        || (not task.splittable && not (length previous == 1)) in
      let moved = movable_of planner task in
      elim (Bool-cases skip) [
        | inl e ↦ rw e (stays task s)
        | inr e ↦ elim (Bool-cases (all_fit planner task moved (free_mask planner s.busy 0))) [
          | inl k ↦
              rw (e, k)
                (record {
                  appends = record {
                    added = moved;
                    own = movable_of-Own task;
                    appended = blocks-reserve_all planner moved s;
                  };
                  whole = inr (refl, ground (arith, e));
                })
          | inr k ↦ rw (e, k) (stays task s)
        ]
      ]

  pub preserve_movables-Steps :
      (tasks : List TaskRecord) (s : State)
      → Steps Moves tasks s (preserve_movables planner tasks s)
  unfolding preserve_movables
  preserve_movables-Steps [] s = refl
  preserve_movables-Steps (task ∷ rest) s = (
    preserve_movable planner task s,
    preserve_movable-Moves task s,
    preserve_movables-Steps rest (preserve_movable planner task s),
  )

-- ===== src/Scheduler/Account/Kept.antt =====
-- The minutes of the pending tasks after `preserve_previous`.
use mathlib.Core.Bool.{false≢true}
use planer.Prelude.{
  filter_if-none, sort_by, ℕ, ◌+◌, ◌≤◌, ◌≡◌, ◌⊎◌, inl, inr, refl, sym, ap, ◌∙◌, subst, Bool, true,
  false, [], arith, All, All-imp, All-both, All-filter_test, All-unfilter_if, All-sort_by,
  All-unsort_by, Pairs, Pairs-filter_if, Pairs-sort_by, Bool-cases, any_of, filter_if, sum_of,
}
use planer.Errors.{ok_injective, Result, ok, returned}
use planer.Models.{TaskRecord}
use planer.Scheduler.Setup.{Setup}
use planer.Scheduler.Planner.{
  State, of_task, previous_of, locks_of, movable_of, preserve_locks, preserve_movables,
  previous_tasks, task_before, ordered_tasks, preserve_previous, total_minutes, minutes_of,
}
use planer.Scheduler.Account.{
  Differ, Other, Appends, minutes_of-Appends, minutes_of-Appends_other, Steps-Other, Steps-Own,
}
use planer.Scheduler.Account.Preserved.{
  Locks, Moves, total_minutes_parts, preserve_locks-Steps, preserve_movables-Steps,
}

Differ-symmetric : (a b : TaskRecord) → Differ a b → Differ b a
Differ-symmetric a b h e = h (sym e)

module _ (planner : Setup) where
  -- The minutes that the two loops give to a task.
  abbrev Locked : TaskRecord → State → State → Type 0
  Locked task s t =
      (minutes_of task.id t.blocks
        ≡ minutes_of task.id s.blocks + total_minutes (locks_of planner task))
      × total_minutes (locks_of planner task) ≤ task.duration_minutes

  abbrev Moved : TaskRecord → State → State → Type 0
  Moved task s t =
      (minutes_of task.id t.blocks ≡ minutes_of task.id s.blocks)
      ⊎ ((minutes_of task.id t.blocks
            ≡ minutes_of task.id s.blocks + total_minutes (movable_of planner task))
          × (total_minutes (previous_of planner task) ≡ task.duration_minutes))

  Locks-Locked : (task : TaskRecord) (s t : State) → Locks planner task s t → Locked task s t
  Locks-Locked task s t h = (
    minutes_of-Appends task.id s t h.appends
        ∙ ap (λ added. minutes_of task.id s.blocks + total_minutes added) h.locked,
    h.bounded,
  )

  Moves-Moved : (task : TaskRecord) (s t : State) → Moves planner task s t → Moved task s t
  Moves-Moved task s t h =
      let gained = minutes_of-Appends task.id s t h.appends in
      elim h.whole [
        | inl none_added ↦ inl (
            gained
            ∙ ap (λ added. minutes_of task.id s.blocks + total_minutes added) none_added
            ∙ nothing (minutes_of task.id s.blocks))
        | inr (all_added, whole) ↦ inr (
          gained ∙ ap (λ added. minutes_of task.id s.blocks + total_minutes added) all_added,
          whole,
        )
      ]
    where
      nothing : (n : ℕ) → n + total_minutes [] ≡ n
      nothing n = unfold total_minutes sum_of in omega arith

  -- The same minutes at the start or at the end.
  Locked-stable :
      (task other : TaskRecord) (s t u : State)
      → Differ task other
      → Locked task s t
      → Locks planner other t u
      → Locked task s u
  Locked-stable task other s t u differ h step =
      (minutes_of-Appends_other other.id task.id t u step.appends differ ∙ h.0, h.1)

  Locked-shift :
      (task other : TaskRecord) (s t u : State)
      → Differ other task
      → Locks planner other s t
      → Locked task t u
      → Locked task s u
  Locked-shift task other s t u differ step h =
      let same = minutes_of-Appends_other other.id task.id s t step.appends (λ e. differ (sym e)) in
      (omega (arith, h.0, same), h.1)

  Moved-stable :
      (task other : TaskRecord) (s t u : State)
      → Differ task other
      → Moved task s t
      → Moves planner other t u
      → Moved task s u
  Moved-stable task other s t u differ h step =
      let same = minutes_of-Appends_other other.id task.id t u step.appends differ in
      elim h [ inl k ↦ inl (same ∙ k) | inr k ↦ inr (same ∙ k.0, k.1) ]

  Moved-shift :
      (task other : TaskRecord) (s t u : State)
      → Differ other task
      → Moves planner other s t
      → Moved task t u
      → Moved task s u
  Moved-shift task other s t u differ step h =
      let same = minutes_of-Appends_other other.id task.id s t step.appends (λ e. differ (sym e)) in
      elim h [ inl k ↦ inl (k ∙ same) | inr k ↦ inr (omega (arith, k.0, same), k.1) ]

  -- After the first loop each pending task has just its locks.
  abbrev pub HasLocks : State → TaskRecord → Type 0
  HasLocks t task =
      (minutes_of task.id t.blocks ≡ total_minutes (locks_of planner task))
      × total_minutes (locks_of planner task) ≤ task.duration_minutes

  abbrev has_previous : TaskRecord → Bool
  has_previous task = any_of (of_task task.id) planner.request.previous_blocks

  no_locks :
      (task : TaskRecord) → has_previous task ≡ false → total_minutes (locks_of planner task) ≡ 0
  unfolding locks_of previous_of total_minutes sum_of sort_by filter_if
  no_locks task e = rw (filter_if-none (of_task task.id) planner.request.previous_blocks e) refl

  previous_tasks-Other :
      (task : TaskRecord) → has_previous task ≡ false → All (Other task.id) (previous_tasks planner)
  unfolding previous_tasks
  previous_tasks-Other task e =
      All-sort_by (Other task.id) _ (filter_if has_previous planner.pending) (
        All-imp (λ other. has_previous other ≡ true) (Other task.id)
          (λ other h same.
            false≢true
              (sym e ∙ ap (λ id. any_of (of_task id) planner.request.previous_blocks) same ∙ h))
          (filter_if has_previous planner.pending) (All-filter_test has_previous planner.pending))

  previous_tasks-Differ : Pairs Differ planner.pending → Pairs Differ (previous_tasks planner)
  unfolding previous_tasks
  previous_tasks-Differ differ =
      Pairs-sort_by Differ _ Differ-symmetric _
        (Pairs-filter_if Differ has_previous planner.pending differ)

  previous_tasks-pending :
      (P : TaskRecord → Type 0)
      → All P (previous_tasks planner)
      → All (λ task. has_previous task ≡ true → P task) planner.pending
  unfolding previous_tasks
  previous_tasks-pending P h =
      All-unfilter_if P has_previous planner.pending
        (All-unsort_by P _ (filter_if has_previous planner.pending) h)

  preserve_locks-HasLocks :
      (s t : State)
      → Pairs Differ planner.pending
      → s.blocks ≡ []
      → preserve_locks planner (previous_tasks planner) s ≡ ok t
      → All (HasLocks t) planner.pending
  preserve_locks-HasLocks s t differ fresh e =
      let steps = preserve_locks-Steps planner (previous_tasks planner) s t e in
      let locked =
        previous_tasks-pending (λ task. Locked task s t)
          (Steps-Own (Locks planner) Locked (λ task s t h. h.appends) Locks-Locked Locked-stable
            Locked-shift (previous_tasks planner) s t (previous_tasks-Differ differ) steps) in
      All-imp (λ task. has_previous task ≡ true → Locked task s t) (HasLocks t)
        (λ task h. elim (Bool-cases (has_previous task)) [
          | inl k ↦ (omega (arith, (h k).0, nothing_yet task), (h k).1)
          | inr k ↦ (
            omega (
              arith,
              no_locks task k,
              nothing_yet task,
              Steps-Other (Locks planner) (λ task s t. Appends task.id s t)
                  (λ task s t h. h.appends) task.id (previous_tasks planner) s t
                  (previous_tasks-Other task k) steps,
            ),
            omega (arith, no_locks task k),
          )
        ])
        planner.pending locked
    where
      nothing : (id : ℕ) → minutes_of id [] ≡ 0
      nothing id = unfold minutes_of sum_of in refl

      nothing_yet : (task : TaskRecord) → minutes_of task.id s.blocks ≡ 0
      nothing_yet task = ap (minutes_of task.id) fresh ∙ nothing task.id

  pub ordered_tasks-Differ : Pairs Differ planner.pending → Pairs Differ (ordered_tasks planner)
  unfolding ordered_tasks
  ordered_tasks-Differ differ =
      Pairs-sort_by Differ (task_before planner) Differ-symmetric planner.pending differ

  pub ordered_tasks-pending :
      (P : TaskRecord → Type 0) → All P (ordered_tasks planner) → All P planner.pending
  unfolding ordered_tasks
  ordered_tasks-pending P h = All-unsort_by P (task_before planner) planner.pending h

  -- What `preserve_previous` keeps of a task: its locks, or its previous blocks, which last as long
  -- as the task.
  abbrev pub IsKept : State → TaskRecord → Type 0
  IsKept t task = HasLocks t task ⊎ (minutes_of task.id t.blocks ≡ task.duration_minutes)

  pub IsKept-bound :
      (t : State) (task : TaskRecord)
      → IsKept t task
      → minutes_of task.id t.blocks ≤ task.duration_minutes
  IsKept-bound t task (inl h) = omega (arith, h.0, h.1)
  IsKept-bound t task (inr h) = omega (arith, h)

  pub preserve_previous-IsKept :
      (s t : State)
      → Pairs Differ planner.pending
      → s.blocks ≡ []
      → preserve_previous planner s ≡ ok t
      → All (IsKept t) planner.pending
  unfolding preserve_previous
  preserve_previous-IsKept s t differ fresh e =
      let finish : State → Result State =
        λ s'. ok (preserve_movables planner (ordered_tasks planner) s') in
      let (u, kept, e') = returned (preserve_locks planner (previous_tasks planner) s) finish e in
      let last = preserve_movables planner (ordered_tasks planner) u in
      let same : last ≡ t = ok_injective e' in
      let moved =
        ordered_tasks-pending (λ task. Moved task u last)
          (Steps-Own (Moves planner) Moved (λ task s t h. h.appends) Moves-Moved Moved-stable
            Moved-shift (ordered_tasks planner) u last (ordered_tasks-Differ differ)
            (preserve_movables-Steps planner (ordered_tasks planner) u)) in
      subst (λ t. All (IsKept t) planner.pending) same
        (All-both (HasLocks u) (λ task. Moved task u last) (IsKept last)
          (λ task h m. elim m [
            | inl k ↦ inl (k ∙ h.0, h.1)
            | inr k ↦ inr (omega (arith, k.0, k.1, h.0, total_minutes_parts planner task))
          ])
          planner.pending (preserve_locks-HasLocks s u differ fresh kept) moved)

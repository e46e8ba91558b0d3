-- ===== src/Scheduler/Account/Allocated.antt =====
-- `allocate_task`: the minutes that a task lacks are all placed, or all reported.
use planer.Prelude.{
  ℕ, ◌+◌, ◌-◌, ◌%◌, ◌≤◌, ◌<◌, ◌≡◌, ◌⊎◌, inl, inr, refl, sym, ◌∙◌, subst, List, [], ◌∷◌, ◌++◌, arith,
  length, All, Any, Any-imp, Any-append_left, Any-append_right, Pairs, In, Bool-cases, ◌==◌,
}
use mathlib.Core.List.{append-nil}
use planer.Clock.{minute}
use planer.Models.{TaskRecord}
use planer.Planning.{PlanBlock, UnscheduledTask}
use planer.Scheduler.Mask.{Interval}
use planer.Scheduler.Setup.{Setup}
use planer.Scheduler.Planner.{State, minutes_of, total_minutes, reserve_all}
use planer.Scheduler.Allocate.{Pieces, commit_pieces, allocate_task, allocate_all}
use planer.Scheduler.Sound.{IsSound}
use planer.Scheduler.Sound.Allocation.{
  blocks-reserve_all, unscheduled-reserve_all, pieces_of, allocate_task_lem, pieces_of_lem,
  allocate_task-IsSound,
}
use planer.Scheduler.Account.{
  Own, Differ, Appends, Appends-none, minutes_of-Appends, minutes_of-Appends_other, Steps,
  Steps-Own,
}

-- An entry for the task with the minutes that the blocks lack.
abbrev pub Reports : TaskRecord → List PlanBlock → UnscheduledTask → Type 0
Reports task blocks entry =
    (entry.task_id ≡ task.id)
    × (0 < entry.remaining_minutes)
    × (minutes_of task.id blocks + entry.remaining_minutes ≡ task.duration_minutes)

-- All minutes of the task are in its blocks, or those that are not are reported.
abbrev pub IsAccounted : List PlanBlock → List UnscheduledTask → TaskRecord → Type 0
IsAccounted blocks unscheduled task =
    (minutes_of task.id blocks ≡ task.duration_minutes) ⊎ Any (Reports task blocks) unscheduled

record Allots (task : TaskRecord) (s t : State) : Type 0 where
  appends : Appends task.id s t
  more : List UnscheduledTask
  grows : t.unscheduled ≡ s.unscheduled ++ more
  outcome :
      minutes_of task.id s.blocks ≤ task.duration_minutes → IsAccounted t.blocks t.unscheduled task

abbrev Accounts : TaskRecord → State → State → Type 0
Accounts task s t =
    minutes_of task.id s.blocks ≤ task.duration_minutes → IsAccounted t.blocks t.unscheduled task

Accounts-stable :
    (task other : TaskRecord) (s t u : State)
    → Differ task other
    → Accounts task s t
    → Allots other t u
    → Accounts task s u
Accounts-stable task other s t u differ h step low =
    let same = minutes_of-Appends_other other.id task.id t u step.appends differ in
    elim (h low) [
      | inl all_placed ↦ inl (same ∙ all_placed)
      | inr reported ↦ inr (
          subst (Any (Reports task u.blocks)) (sym step.grows) (
            Any-append_left (Reports task u.blocks) t.unscheduled step.more (
              Any-imp (Reports task t.blocks) (Reports task u.blocks)
                (λ entry r. (r.0, r.1, omega (arith, same, r.2))) t.unscheduled reported)))
    ]

Accounts-shift :
    (task other : TaskRecord) (s t u : State)
    → Differ other task
    → Allots other s t
    → Accounts task t u
    → Accounts task s u
Accounts-shift task other s t u differ step h low =
    let same = minutes_of-Appends_other other.id task.id s t step.appends (λ e. differ (sym e)) in
    h (omega (arith, same, low))

module _ (planner : Setup) where
  commit_pieces-Allots :
      (task : TaskRecord) (requested : ℕ) (p : Pieces) (s : State)
      → 0 < requested
      → requested ≡ task.duration_minutes - minutes_of task.id s.blocks
      → total_minutes p.additions + p.remaining ≡ requested
      → All (Own task.id) p.additions
      → Allots task s (commit_pieces planner task requested p s)
  unfolding commit_pieces
  commit_pieces-Allots task requested p s positive lacking total own =
      elim (Bool-cases (p.remaining == 0)) [
        | inl e ↦
            let spent = record s { budget = p.budget } in
            let done = reserve_all planner p.additions spent in
            let appends : Appends task.id s done = record {
              added = p.additions;
              own = own;
              appended = blocks-reserve_all planner p.additions spent;
            } in
            let gained = minutes_of-Appends task.id s done appends in
            rw e (record {
              appends = appends;
              more = [];
              grows =
                  unscheduled-reserve_all planner p.additions spent
                  ∙ sym (append-nil s.unscheduled);
              outcome = λ low. inl (ground (arith, gained, e, total, lacking, low));
            })
        | inr e ↦ rw e (record {
          appends = Appends-none task.id s _ refl;
          more = _;
          grows = refl;
          outcome = λ low. inr (
              Any-append_right (Reports task s.blocks) s.unscheduled _
                (inl (refl, positive, omega (arith, lacking, low))));
        })
      ]

module _ (planner : Setup) (sized : length planner.available ≡ planner.size) (fixed : List Interval)
    (aligned : planner.start % minute ≡ 0) where
  allocate_task-Allots :
      (task : TaskRecord) (s : State)
      → In planner.pending task
      → IsSound planner fixed s
      → Allots task s (allocate_task planner task s)
  allocate_task-Allots task s known sound =
      let remaining = task.duration_minutes - minutes_of task.id s.blocks in
      let p = pieces_of planner sized fixed aligned task s in
      let progress = (pieces_of_lem planner sized fixed aligned task s known sound).0 in
      elim (Bool-cases (remaining == 0)) [
        | inl e ↦
            rw (allocate_task_lem planner sized fixed aligned task s, e)
              (record {
                appends = Appends-none task.id s s refl;
                more = [];
                grows = sym (append-nil s.unscheduled);
                outcome = λ low. inl (ground (arith, e, low));
              })
        | inr e ↦
            rw (allocate_task_lem planner sized fixed aligned task s, e)
              (commit_pieces-Allots planner task remaining p s (ground (arith, e)) refl
                progress.total progress.own)
      ]

  allocate_all-Steps :
      (tasks : List TaskRecord) (s : State)
      → All (In planner.pending) tasks
      → IsSound planner fixed s
      → Steps Allots tasks s (allocate_all planner tasks s)
  unfolding allocate_all
  allocate_all-Steps [] s known sound = refl
  allocate_all-Steps (task ∷ rest) s known sound = (
    allocate_task planner task s,
    allocate_task-Allots task s known.0 sound,
    allocate_all-Steps rest (allocate_task planner task s) known.1
        (allocate_task-IsSound planner sized fixed aligned task s known.0 sound),
  )

  -- Whatever the loop over the tasks starts from, it accounts for each task that had not too many
  -- minutes.
  pub allocate_all-IsAccounted :
      (tasks : List TaskRecord) (s : State)
      → Pairs Differ tasks
      → All (In planner.pending) tasks
      → IsSound planner fixed s
      → All
          (λ task.
            minutes_of task.id s.blocks ≤ task.duration_minutes
            → IsAccounted
                (allocate_all planner tasks s).blocks
                (allocate_all planner tasks s).unscheduled
                task)
          tasks
  allocate_all-IsAccounted tasks s differ known sound =
      Steps-Own Allots Accounts (λ task s t h. h.appends) (λ task s t h. h.outcome) Accounts-stable
        Accounts-shift tasks s (allocate_all planner tasks s) differ
        (allocate_all-Steps tasks s known sound)

-- ===== src/Scheduler/Account.antt =====
-- Accounting in src/smartplanner/scheduler.py: every minute of every pending task is either in a
-- block of the plan or reported as unscheduled. A step of the planner on behalf of a task only
-- appends blocks of that task.
pub mod Preserved
pub mod Kept
pub mod Allocated
pub mod Preview
use mathlib.Core.List.{append-nil}
use planer.Prelude.{
  ℕ, ◌+◌, ◌≤◌, ◌≡◌, ◌≢◌, ◌⊎◌, refl, sym, ap, ◌∙◌, subst, true, false, List, [], ◌∷◌, ◌++◌, arith,
  All, All-both, Pairs, sum_of, sum_of-append, ◌==◌,
}
use planer.Models.{TaskRecord}
use planer.Planning.{PlanBlock}
use planer.Scheduler.Planner.{State, block_minutes, minutes_of, total_minutes, of_task}

abbrev pub Own : ℕ → PlanBlock → Type 0
Own id block = block.task_id ≡ id

abbrev pub Differ : TaskRecord → TaskRecord → Type 0
Differ a b = a.id ≢ b.id

abbrev pub Other : ℕ → TaskRecord → Type 0
Other id task = id ≢ task.id

minutes_of-append :
    (id : ℕ) (xs ys : List PlanBlock)
    → minutes_of id (xs ++ ys) ≡ minutes_of id xs + minutes_of id ys
unfolding minutes_of
minutes_of-append id xs ys = sum_of-append _ xs ys

minutes_of-Own :
    (id : ℕ) (blocks : List PlanBlock)
    → All (Own id) blocks
    → minutes_of id blocks ≡ total_minutes blocks
unfolding minutes_of total_minutes sum_of
minutes_of-Own id [] own = refl
minutes_of-Own id (block ∷ rest) own = ground (arith, own.0, minutes_of-Own id rest own.1)

minutes_of-Other :
    (id other : ℕ) (blocks : List PlanBlock)
    → id ≢ other
    → All (Own id) blocks
    → minutes_of other blocks ≡ 0
unfolding minutes_of sum_of
minutes_of-Other id other [] differ own = refl
minutes_of-Other id other (block ∷ rest) differ own =
    ground (arith, own.0, differ, minutes_of-Other id other rest differ own.1)

-- What a step for the task has appended.
pub record Appends (id : ℕ) (s t : State) : Type 0 where
  pub added : List PlanBlock
  pub own : All (Own id) added
  pub appended : t.blocks ≡ s.blocks ++ added

pub Appends-none : (id : ℕ) (s t : State) → t.blocks ≡ s.blocks → Appends id s t
Appends-none id s t e = record { added = []; own = tt; appended = e ∙ sym (append-nil s.blocks) }

pub minutes_of-Appends :
    (id : ℕ) (s t : State) (a : Appends id s t)
    → minutes_of id t.blocks ≡ minutes_of id s.blocks + total_minutes a.added
minutes_of-Appends id s t a =
    ap (minutes_of id) a.appended
    ∙ minutes_of-append id s.blocks a.added
    ∙ ap (λ n. minutes_of id s.blocks + n) (minutes_of-Own id a.added a.own)

pub minutes_of-Appends_other :
    (id other : ℕ) (s t : State)
    → Appends id s t
    → other ≢ id
    → minutes_of other t.blocks ≡ minutes_of other s.blocks
minutes_of-Appends_other id other s t a differ = omega (
  arith,
  ap (minutes_of other) a.appended,
  minutes_of-append other s.blocks a.added,
  minutes_of-Other id other a.added (λ e. differ (sym e)) a.own,
)

-- One step for each task of the list, from s to t.
abbrev pub Steps : (TaskRecord → State → State → Type 0) → List TaskRecord → State → State → Type 0
Steps R [] s t = s ≡ t
Steps R (task ∷ rest) s t = (u : State) × R task s u × Steps R rest u t

module _ (R Q : TaskRecord → State → State → Type 0)
    (appends : (task : TaskRecord) (s t : State) → R task s t → Appends task.id s t) where
  -- The steps for other tasks do not change the minutes of this one.
  pub Steps-Other :
      (id : ℕ) (tasks : List TaskRecord) (s t : State)
      → All (Other id) tasks
      → Steps R tasks s t
      → minutes_of id t.blocks ≡ minutes_of id s.blocks
  Steps-Other id [] s t others e = ap (λ (s : State). minutes_of id s.blocks) (sym e)
  Steps-Other id (task ∷ rest) s t others (u, step, steps) =
      Steps-Other id rest u t others.1 steps
      ∙ minutes_of-Appends_other task.id id s u (appends task s u step) others.0

  module _ (own : (task : TaskRecord) (s t : State) → R task s t → Q task s t)
      (stable : (task other : TaskRecord) (s t u : State)
        → Differ task other
        → Q task s t
        → R other t u
        → Q task s u)
      (shift : (task other : TaskRecord) (s t u : State)
        → Differ other task
        → R other s t
        → Q task t u
        → Q task s u) where
    Steps-stable :
        (task : TaskRecord) (rest : List TaskRecord) (s t u : State)
        → All (Differ task) rest
        → Q task s t
        → Steps R rest t u
        → Q task s u
    Steps-stable task [] s t u others q e = subst (Q task s) e q
    Steps-stable task (other ∷ rest) s t u others q (v, step, steps) =
        Steps-stable task rest s v u others.1 (stable task other s t v others.0 q step) steps

    -- What a step does for its own task holds of all the steps together.
    pub Steps-Own :
        (tasks : List TaskRecord) (s t : State)
        → Pairs Differ tasks
        → Steps R tasks s t
        → All (λ task. Q task s t) tasks
    Steps-Own [] s t differ e = tt
    Steps-Own (task ∷ rest) s t differ (u, step, steps) = (
      Steps-stable task rest s u t differ.0 (own task s u step) steps,
      All-both (Differ task) (λ other. Q other u t) (λ other. Q other s t)
          (λ other d q. shift other task s u t d step q) rest differ.0
          (Steps-Own rest u t differ.1 steps),
    )

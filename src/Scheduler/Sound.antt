-- ===== src/Scheduler/Sound.antt =====
-- What a plan that keeps the hard constraints of src/smartplanner/scheduler.py is: the invariant
-- of the planner's state, in minutes of the horizon. The children prove that each step keeps it.
pub mod Masks
pub mod Reserve
pub mod Preserve
pub mod Slots
pub mod FindSlot
pub mod Pieces
pub mod Ready
pub mod Init
pub mod Allocation
pub mod Instants
pub mod Planned
pub mod Preview
pub mod Locks
pub mod Layout
use planer.Prelude.{ℕ, ◌≤◌, ◌<◌, ◌≡◌, ◌⊎◌, true, List, ◌++◌, map, All, Pairs, In, ℤ, pos}
use planer.Models.{TaskRecord}
use planer.Planning.{PlanBlock}
use planer.Planning.Grid.{OnGrid}
use planer.Scheduler.Mask.{Mask, Interval, bit}
use planer.Scheduler.Setup.{Setup, indices, interval}
use planer.Scheduler.Planner.{State, bounds}

abbrev pub Disjoint : Interval → Interval → Type 0
Disjoint a b = (a.1 ≤ b.0) ⊎ (b.1 ≤ a.0)

abbrev pub Misses : ℕ → Interval → Type 0
Misses i interval = (i < interval.0) ⊎ (interval.1 ≤ i)

abbrev pub IsSolid : Interval → Type 0
IsSolid interval = interval.0 < interval.1

-- A one of the mask is available and outside of the busy intervals.
abbrev pub IsClear : Mask → Mask → List Interval → Type 0
IsClear available mask busy =
    (i : ℕ) → bit mask i ≡ true → (bit available i ≡ true) × All (Misses i) busy

module _ (planner : Setup) where
  open planner use {start, available, pending}

  -- The interval of the block lies between the bounds of the task, on available minutes.
  pub record IsFit (task : TaskRecord) (block : PlanBlock) : Type 0 where
    pub left : ℕ
    pub right : ℕ
    pub placed : indices start block.window ≡ (pos left, pos right)
    pub early : (bounds planner task).0 ≤ left
    pub solid : left < right
    pub late : right ≤ (bounds planner task).1
    pub open_minutes : (i : ℕ) → left ≤ i → i < right → bit available i ≡ true

  -- The block belongs to a pending task that it fits.
  pub record IsPlaced (block : PlanBlock) : Type 0 where
    pub task : TaskRecord
    pub known : In pending task
    pub named : block.task_id ≡ task.id
    pub fits : IsFit task block
    pub grid : OnGrid block.window

  -- Beside the fixed events only the blocks are busy, no two of these intervals meet, and each
  -- block is placed.
  pub record IsSound (fixed : List Interval) (s : State) : Type 0 where
    pub split : s.busy ≡ fixed ++ map (λ (block : PlanBlock). interval start block.window) s.blocks
    pub apart : Pairs Disjoint s.busy
    pub solid : All IsSolid s.busy
    pub placed : All IsPlaced s.blocks

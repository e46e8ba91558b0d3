-- ===== src/Scheduler/Sound/Allocation.antt =====
-- `allocate_task` and `allocate_all` keep the plan sound.
use planer.Prelude.{
  ℕ, ◌-◌, ◌%◌, ◌≡◌, refl, sym, ◌∙◌, subst, List, [], ◌∷◌, ◌++◌, map, arith, length, All, In, inl,
  inr, Bool-cases, ◌==◌, sum_of, if◌then◌else◌,
}
use mathlib.Core.List.{append_assoc, append-nil}
use planer.Clock.{minute}
use planer.Models.{TaskRecord}
use planer.Planning.{PlanBlock}
use planer.Scheduler.Mask.{Interval}
use planer.Scheduler.Setup.{Setup, interval}
use planer.Scheduler.Planner.{State, minutes_of, total_minutes, reserve, reserve_all}
use planer.Scheduler.Allocate.{
  Pieces, place_pieces, start_pieces, commit_pieces, allocate_task, allocate_all,
}
use planer.Scheduler.Sound.{IsSound}
use planer.Scheduler.Sound.Pieces.{IsProgress, Ended, place_pieces_lem}

module _ (planner : Setup) where
  pub blocks-reserve_all :
      (blocks : List PlanBlock) (s : State)
      → (reserve_all planner blocks s).blocks ≡ s.blocks ++ blocks
  unfolding reserve_all
  blocks-reserve_all [] s = sym (append-nil s.blocks)
  blocks-reserve_all (block ∷ rest) s =
      blocks-reserve_all rest (reserve planner block s) ∙ append_assoc s.blocks (block ∷ []) rest

  busy-reserve_all :
      (blocks : List PlanBlock) (s : State)
      → (reserve_all planner blocks s).busy
        ≡ s.busy ++ map (λ (block : PlanBlock). interval planner.start block.window) blocks
  unfolding reserve_all
  busy-reserve_all [] s = sym (append-nil s.busy)
  busy-reserve_all (block ∷ rest) s =
      busy-reserve_all rest (reserve planner block s)
      ∙ append_assoc s.busy (interval planner.start block.window ∷ []) _

  pub unscheduled-reserve_all :
      (blocks : List PlanBlock) (s : State)
      → (reserve_all planner blocks s).unscheduled ≡ s.unscheduled
  unfolding reserve_all reserve
  unscheduled-reserve_all [] s = refl
  unscheduled-reserve_all (block ∷ rest) s = unscheduled-reserve_all rest (reserve planner block s)

  -- Soundness is about the blocks and the busy intervals alone.
  IsSound-of_same :
      (fixed : List Interval) (s t : State)
      → s.busy ≡ t.busy
      → s.blocks ≡ t.blocks
      → IsSound planner fixed s
      → IsSound planner fixed t
  IsSound-of_same fixed s t same_busy same_blocks h =
      let moved : IsSound planner fixed (record s { busy = t.busy; blocks = t.blocks }) =
        subst
          (λ (p : List Interval × List PlanBlock).
            IsSound planner fixed (record s { busy = p.0; blocks = p.1 }))
          (λ i. (same_busy i, same_blocks i)) h in
      record {
        split = moved.split;
        apart = moved.apart;
        solid = moved.solid;
        placed = moved.placed;
      }

  -- Committing all pieces, or none, keeps the plan sound.
  commit-IsSound :
      (fixed : List Interval) (task : TaskRecord) (requested : ℕ) (p : Pieces) (s : State)
      → IsSound planner fixed s
      → IsSound planner fixed (reserve_all planner p.additions s)
      → IsSound planner fixed (commit_pieces planner task requested p s)
  unfolding commit_pieces
  commit-IsSound fixed task requested p s sound grown = elim (Bool-cases (p.remaining == 0)) [
    | inl e ↦
        let spent = record s { budget = p.budget } in
        rw e (
          IsSound-of_same fixed (reserve_all planner p.additions s)
            (reserve_all planner p.additions spent)
            (busy-reserve_all p.additions s ∙ sym (busy-reserve_all p.additions spent))
            (blocks-reserve_all p.additions s ∙ sym (blocks-reserve_all p.additions spent)) grown)
    | inr e ↦ rw e (record {
      split = sound.split;
      apart = sound.apart;
      solid = sound.solid;
      placed = sound.placed;
    })
  ]

module _ (planner : Setup) (sized : length planner.available ≡ planner.size) (fixed : List Interval)
    (aligned : planner.start % minute ≡ 0) where
  -- The loop of `allocate_task`, from the state that it finds.
  pub pieces_of : TaskRecord → State → Pieces
  pieces_of task s =
      let remaining = task.duration_minutes - minutes_of task.id s.blocks in
      place_pieces planner remaining task (length s.blocks) (start_pieces planner remaining s)

  pub allocate_task_lem :
      (task : TaskRecord) (s : State)
      → allocate_task planner task s ≡ (
          let remaining = task.duration_minutes - minutes_of task.id s.blocks in
          if remaining == 0 then s else commit_pieces planner task remaining (pieces_of task s) s)
  unfolding allocate_task pieces_of
  allocate_task_lem task s = refl

  pub pieces_of_lem :
      (task : TaskRecord) (s : State) (known : In planner.pending task)
      → IsSound planner fixed s
      → IsProgress planner sized fixed task known aligned s
          (task.duration_minutes - minutes_of task.id s.blocks)
          (pieces_of task s)
        × Ended planner sized fixed task known aligned (pieces_of task s)
  unfolding pieces_of
  pieces_of_lem task s known sound =
      let remaining = task.duration_minutes - minutes_of task.id s.blocks in
      place_pieces_lem planner sized fixed task known aligned s remaining remaining
        (length s.blocks) (start_pieces planner remaining s) (unfold start_pieces in omega arith)
        (start remaining s sound)
    where
      start :
          (remaining : ℕ) (s : State)
          → IsSound planner fixed s
          → IsProgress planner sized fixed task known aligned s remaining
              (start_pieces planner remaining s)
      start remaining s sound =
          unfold start_pieces reserve_all total_minutes sum_of in
          record { sound = sound; busy = refl; total = omega arith; own = tt }

  pub allocate_task-IsSound :
      (task : TaskRecord) (s : State)
      → In planner.pending task
      → IsSound planner fixed s
      → IsSound planner fixed (allocate_task planner task s)
  allocate_task-IsSound task s known sound =
      let remaining = task.duration_minutes - minutes_of task.id s.blocks in
      let progress = (pieces_of_lem task s known sound).0 in
      elim (Bool-cases (remaining == 0)) [
        | inl e ↦ rw (allocate_task_lem task s, e) sound
        | inr e ↦
            rw (allocate_task_lem task s, e)
              (commit-IsSound planner fixed task remaining (pieces_of task s) s sound
                progress.sound)
      ]

  pub allocate_all-IsSound :
      (tasks : List TaskRecord) (s : State)
      → All (In planner.pending) tasks
      → IsSound planner fixed s
      → IsSound planner fixed (allocate_all planner tasks s)
  unfolding allocate_all
  allocate_all-IsSound [] s known sound = sound
  allocate_all-IsSound (task ∷ rest) s known sound =
      allocate_all-IsSound rest (allocate_task planner task s) known.1
        (allocate_task-IsSound task s known.0 sound)

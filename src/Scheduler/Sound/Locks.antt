-- ===== src/Scheduler/Sound/Locks.antt =====
-- The locks that `preserve_previous` reserves: where all previous blocks are locked, these are the
-- previous blocks, in the groups of their tasks.
use mathlib.Core.List.{append-nil, append_assoc}
use planer.Prelude.{
  ◌≡◌, refl, sym, ap, ◌∙◌, subst, Bool, true, List, [], ◌∷◌, ◌++◌, All, All-imp, All-filter_if,
  All-unsort_by, All-append, All-append_left, All-append_right, Pairs, Pairs-append,
  Pairs-append_left, Pairs-append_right, Pairs-append_across, Pairs-unsort_by, groups, filter_if,
  sort_by,
}
use planer.Errors.{ok, ok_injective, returned}
use planer.Models.{TaskRecord}
use planer.Planning.{PlanBlock}
use planer.Scheduler.Setup.{Setup}
use planer.Scheduler.Planner.{
  State, of_task, by_start, previous_of, locks_of, previous_tasks, ordered_tasks, preserve_locks,
  preserve_movables, preserve_previous,
}
use planer.Scheduler.Account.{Steps}
use planer.Scheduler.Account.Preserved.{Locks, Moves, preserve_locks-Steps, preserve_movables-Steps}

module _ (planner : Setup) where
  -- The locks that the first loop of `preserve_previous` reserves.
  abbrev pub all_locks : List TaskRecord → List PlanBlock
  all_locks [] = []
  all_locks (task ∷ rest) = locks_of planner task ++ all_locks rest

  blocks-first_loop :
      (tasks : List TaskRecord) (s t : State)
      → Steps (Locks planner) tasks s t
      → t.blocks ≡ s.blocks ++ all_locks tasks
  blocks-first_loop [] s t e = ap (λ (s : State). s.blocks) (sym e) ∙ sym (append-nil s.blocks)
  blocks-first_loop (task ∷ rest) s t (s', first, later) =
      blocks-first_loop rest s' t later
      ∙ ap (λ b. b ++ all_locks rest)
          (first.appends.appended ∙ ap (λ l. s.blocks ++ l) first.locked)
      ∙ append_assoc s.blocks (locks_of planner task) (all_locks rest)

  blocks-second_loop :
      (tasks : List TaskRecord) (s t : State)
      → Steps (Moves planner) tasks s t
      → (more : List PlanBlock) × (t.blocks ≡ s.blocks ++ more)
  blocks-second_loop [] s t e =
      ([], ap (λ (s : State). s.blocks) (sym e) ∙ sym (append-nil s.blocks))
  blocks-second_loop (task ∷ rest) s t (s', first, later) =
      let (more, e) = blocks-second_loop rest s' t later in
      (
        first.appends.added ++ more,
        e
            ∙ ap (λ b. b ++ more) first.appends.appended
            ∙ append_assoc s.blocks first.appends.added more,
      )

  -- `preserve_previous` keeps all locks, and adds to them.
  pub blocks-both_loops :
      (s t : State)
      → preserve_previous planner s ≡ ok t
      → (more : List PlanBlock) × (t.blocks
          ≡ (s.blocks ++ all_locks (previous_tasks planner)) ++ more)
  unfolding preserve_previous
  blocks-both_loops s t e =
      let (s', kept, e') =
        returned (preserve_locks planner (previous_tasks planner) s)
          (λ s'. ok (preserve_movables planner (ordered_tasks planner) s')) e in
      let locked =
        blocks-first_loop (previous_tasks planner) s s'
          (preserve_locks-Steps planner (previous_tasks planner) s s' kept) in
      let (more, moved) =
        blocks-second_loop (ordered_tasks planner) s'
          (preserve_movables planner (ordered_tasks planner) s')
          (preserve_movables-Steps planner (ordered_tasks planner) s') in
      (
        more,
        ap (λ (s : State). s.blocks) (sym (ok_injective e')) ∙ moved ∙ ap (λ b. b ++ more) locked,
      )

abbrev pub is_of : TaskRecord → PlanBlock → Bool
is_of task = of_task task.id

filter_if-all :
    {A : Type 0} (test : A → Bool) (xs : List A)
    → All (λ x. test x ≡ true) xs
    → filter_if test xs ≡ xs
unfolding filter_if
filter_if-all test [] h = refl
filter_if-all test (x ∷ xs) h = rw h.0 (ap (λ l. x ∷ l) (filter_if-all test xs h.1))

-- Where all previous blocks are locked, the locks are the previous blocks, sorted in their groups.
module _ (planner : Setup)
    (locked : All (λ (b : PlanBlock). b.locked ≡ true) planner.request.previous_blocks) where
  open planner.request use {previous_blocks}

  locks_of_lem :
      (task : TaskRecord)
      → locks_of planner task ≡ sort_by by_start (filter_if (is_of task) previous_blocks)
  unfolding locks_of previous_of
  locks_of_lem task = ap (sort_by by_start) (
      filter_if-all (λ b. b.locked) (filter_if (is_of task) previous_blocks)
        (All-filter_if (λ (b : PlanBlock). b.locked ≡ true) (is_of task) previous_blocks locked))

  pub All-all_locks :
      (P : PlanBlock → Type 0) (tasks : List TaskRecord)
      → All P (all_locks planner tasks)
      → All P (groups is_of tasks previous_blocks)
  unfolding groups
  All-all_locks P [] h = tt
  All-all_locks P (task ∷ rest) h =
      let mine = All-append_left P (locks_of planner task) (all_locks planner rest) h in
      All-append P (filter_if (is_of task) previous_blocks) (groups is_of rest previous_blocks)
        (All-unsort_by P by_start _ (subst (All P) (locks_of_lem task) mine))
        (All-all_locks P rest
          (All-append_right P (locks_of planner task) (all_locks planner rest) h))

  pub Pairs-all_locks :
      (R : PlanBlock → PlanBlock → Type 0) (symmetric : (x y : PlanBlock) → R x y → R y x)
      (tasks : List TaskRecord)
      → Pairs R (all_locks planner tasks)
      → Pairs R (groups is_of tasks previous_blocks)
  unfolding groups
  Pairs-all_locks R symmetric [] h = tt
  Pairs-all_locks R symmetric (task ∷ rest) h =
      let locks = locks_of planner task in
      let others = all_locks planner rest in
      let across =
        All-imp (λ x. All (R x) others) (λ x. All (R x) (groups is_of rest previous_blocks))
          (λ x. All-all_locks (R x) rest) locks (Pairs-append_across R locks others h) in
      Pairs-append R (filter_if (is_of task) previous_blocks) (groups is_of rest previous_blocks)
        (Pairs-unsort_by R by_start symmetric _
          (subst (Pairs R) (locks_of_lem task) (Pairs-append_left R locks others h)))
        (All-unsort_by _ by_start _ (
          subst (All (λ x. All (R x) (groups is_of rest previous_blocks))) (locks_of_lem task)
            across))
        (Pairs-all_locks R symmetric rest (Pairs-append_right R locks others h))

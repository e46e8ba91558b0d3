-- ===== src/Scheduler/Sound/Pieces.antt =====
-- `allocate_task` keeps the plan sound: its pieces lie on minutes that were free.
use planer.Prelude.{
  ℕ, zero, suc, ◌+◌, ◌%◌, ◌≤◌, ◌<◌, ◌≡◌, ◌⊎◌, inl, inr, refl, sym, ap, ◌∙◌, subst, true, Option,
  none, some, List, [], ◌∷◌, ◌++◌, arith, length, All, All-at, All-append, Bool-cases, ◌==◌, leb,
  In, pos, sum_of-append,
}
use planer.Errors.{Result, ok, raise}
use planer.Clock.{minute, int_minutes-add}
use planer.Models.{TaskRecord}
use planer.Planning.Grid.{OnGrid}
use planer.Planning.{PlanBlock, search_limit_reason}
use planer.Scheduler.Mask.{Interval, bit, gaps}
use planer.Scheduler.Mask.Gaps.{IsRun, gaps_exact}
use planer.Scheduler.Setup.{Setup, indices}
use planer.Scheduler.Planner.{
  State, bounds, free_mask, reserve, reserve_all, block_minutes, total_minutes,
}
use planer.Scheduler.Search.{usage, piece, pauses, find_slot}
use planer.Scheduler.Allocate.{Pieces, max_blocks, new_block, add_piece, place_pieces}
use planer.Scheduler.Sound.{IsFit, IsSound}
use planer.Scheduler.Sound.Masks.{free_mask-IsClear, free_interval-Disjoint}
use planer.Scheduler.Sound.Reserve.{reserve-IsSound, interval_of_indices}
use planer.Scheduler.Sound.Slots.{StartsIn}
use planer.Scheduler.Sound.FindSlot.{HasNoRoom, IsSlot, find_slot-Explains}

pub total_minutes-snoc :
    (blocks : List PlanBlock) (block : PlanBlock)
    → total_minutes (blocks ++ block ∷ []) ≡ total_minutes blocks + block_minutes block
unfolding total_minutes
total_minutes-snoc blocks block = omega (arith, sum_of-append block_minutes blocks (block ∷ []))

module _ (planner : Setup) where
  pub reserve_all-append :
      (blocks more : List PlanBlock) (s : State)
      → reserve_all planner (blocks ++ more) s
        ≡ reserve_all planner more (reserve_all planner blocks s)
  unfolding reserve_all
  reserve_all-append [] more s = refl
  reserve_all-append (block ∷ rest) more s = reserve_all-append rest more (reserve planner block s)

  indices-new_block :
      (task : TaskRecord) (start length : ℕ)
      → indices planner.start (new_block planner task start length).window
        ≡ (pos start, pos (start + length))
  unfolding indices new_block
  indices-new_block task start length i =
      (int_minutes-add planner.start start i, int_minutes-add planner.start (start + length) i)

  pub block_minutes-new_block :
      (task : TaskRecord) (start length : ℕ)
      → block_minutes (new_block planner task start length) ≡ length
  unfolding block_minutes new_block
  block_minutes-new_block task start length = ground arith

  -- The part of a slot that the length of the search says nothing about.
  pub slot-le-target :
      (task : TaskRecord) (remaining : ℕ) (busy : List Interval) (used : List ℕ) (start length : ℕ)
      → IsSlot planner task (piece planner task remaining) busy used start length
      → length ≤ remaining
  slot-le-target task remaining busy used start length slot = ground (arith, slot.full)

module _ (planner : Setup) (sized : length planner.available ≡ planner.size) (fixed : List Interval)
    (task : TaskRecord) (known : In planner.pending task)
    (aligned : planner.start % minute ≡ 0) where
  -- The minutes of a slot lie between the bounds of the task, and are free.
  slot-IsRun :
      (target : ℕ) (busy : List Interval) (used : List ℕ) (start length : ℕ)
      → (slot : IsSlot planner task target busy used start length)
      → (gap : Interval) × IsRun
          (free_mask planner busy slot.pause)
          (bounds planner task).0
          (bounds planner task).1
          gap
        × StartsIn length start gap
  slot-IsRun target busy used start length slot =
      let mask = free_mask planner busy slot.pause in
      let (left, right) = bounds planner task in
      All-at (IsRun mask left right) (StartsIn length start) (gaps mask left right)
        (gaps_exact mask left right).0 slot.candidate

  -- A block on a slot may be reserved.
  pub slot-IsSound :
      (target : ℕ) (used : List ℕ) (start length : ℕ) (s : State)
      → IsSlot planner task target s.busy used start length
      → IsSound planner fixed s
      → IsSound planner fixed (reserve planner (new_block planner task start length) s)
  slot-IsSound target used start length s slot sound =
      let (gap, run, inside) = slot-IsRun target s.busy used start length slot in
      let mask = free_mask planner s.busy slot.pause in
      let clear = free_mask-IsClear planner sized s.busy slot.pause in
      let ones : (i : ℕ) → start ≤ i → i < start + length → bit mask i ≡ true =
        λ i l r. run.ones i (omega (arith, inside.0)) (omega (arith, inside.1)) in
      let fit : IsFit planner task (new_block planner task start length) = record {
        left = start;
        right = start + length;
        placed = indices-new_block planner task start length;
        early = omega (arith, run.from_start, inside.0);
        solid = omega (arith, slot.positive);
        late = omega (arith, run.to_end, inside.1);
        open_minutes = λ i l r. (clear i (ones i l r)).0;
      } in
      reserve-IsSound planner fixed s (new_block planner task start length)
        (record {
          task = task;
          known = known;
          named = own_id start length;
          fits = fit;
          grid = on_grid start length;
        })
        sound
        (free_interval-Disjoint planner.available mask s.busy start (start + length) clear
          sound.solid (omega (arith, slot.positive)) ones)
    where
      own_id : (start length : ℕ) → (new_block planner task start length).task_id ≡ task.id
      own_id start length = unfold new_block in refl

      on_grid : (start length : ℕ) → OnGrid (new_block planner task start length).window
      on_grid start length = unfold new_block in (omega arith, omega arith)

  -- The pieces so far, as if they were reserved already.
  pub record IsProgress (s : State) (requested : ℕ) (p : Pieces) : Type 0 where
    pub sound : IsSound planner fixed (reserve_all planner p.additions s)
    pub busy : p.busy ≡ (reserve_all planner p.additions s).busy
    pub total : total_minutes p.additions + p.remaining ≡ requested
    pub own : All (λ (block : PlanBlock). block.task_id ≡ task.id) p.additions

  add_piece-IsProgress :
      (s : State) (requested : ℕ) (p : Pieces) (used : List ℕ) (start length budget : ℕ)
      → IsSlot planner task (piece planner task p.remaining) p.busy used start length
      → IsProgress s requested p
      → IsProgress s requested (add_piece planner task start length budget p)
  unfolding add_piece
  add_piece-IsProgress s requested p used start length budget slot h =
      let block = new_block planner task start length in
      let u = reserve_all planner p.additions s in
      let slot' : IsSlot planner task (piece planner task p.remaining) u.busy used start length =
        subst (λ b. IsSlot planner task (piece planner task p.remaining) b used start length) h.busy
          slot in
      let step : reserve_all planner (p.additions ++ block ∷ []) s ≡ reserve planner block u =
        reserve_all-append planner p.additions (block ∷ []) s ∙ one block u in
      record {
        sound =
            subst (IsSound planner fixed) (sym step)
              (slot-IsSound (piece planner task p.remaining) used start length u slot' h.sound);
        busy =
            ap (λ (b : List Interval). b ++ (start, start + length) ∷ []) h.busy
            ∙ sym (busy_of block u start length (indices-new_block planner task start length))
            ∙ ap (λ (t : State). t.busy) (sym step);
        total = omega (
          arith,
          h.total,
          slot-le-target planner task p.remaining p.busy used start length slot,
          total_minutes-snoc p.additions block,
          block_minutes-new_block planner task start length,
        );
        own =
            All-append (λ (b : PlanBlock). b.task_id ≡ task.id) p.additions _ h.own
              (own_id start length, tt);
      }
    where
      one :
          (block : PlanBlock) (u : State)
          → reserve_all planner (block ∷ []) u ≡ reserve planner block u
      one block u = unfold reserve_all in refl

      busy_of :
          (block : PlanBlock) (u : State) (left length : ℕ)
          → indices planner.start block.window ≡ (pos left, pos (left + length))
          → (reserve planner block u).busy ≡ u.busy ++ (left, left + length) ∷ []
      busy_of block u left length e =
          unfold reserve in
          ap (λ (v : Interval). u.busy ++ v ∷ [])
            (interval_of_indices planner block left (left + length) e)

      own_id : (start length : ℕ) → (new_block planner task start length).task_id ≡ task.id
      own_id start length = unfold new_block in refl

  -- How the loop may end: nothing is left to place, the search was cut off, or for none of the
  -- pauses any gap is long enough.
  abbrev pub Ended : Pieces → Type 0
  Ended p =
      (p.remaining ≡ 0)
      ⊎ (p.reason ≡ search_limit_reason)
      ⊎ All
          (HasNoRoom planner task (piece planner task p.remaining) p.busy
            (usage planner p.intervals))
          (pauses planner.preferences.break_minutes)

  round_cases :
      (P : Pieces → Type 0) (rounds placed : ℕ) (p : Pieces) (r : Result (Option (ℕ × ℕ)))
      (budget : ℕ)
      → P (record p { reason = search_limit_reason; budget = budget })
      → (r ≡ ok none → P (record p { budget = budget }))
      → ((start length : ℕ)
          → r ≡ ok (some (start, length))
          → P (
              place_pieces planner rounds task placed
                (add_piece planner task start length budget p)))
      → P (elim r [
        | raise e ↦ record p { reason = search_limit_reason; budget = budget }
        | ok slot ↦ elim slot [
          | none ↦ record p { budget = budget }
          | some (start, length) ↦
              place_pieces planner rounds task placed (add_piece planner task start length budget p)
        ]
      ])
  round_cases P rounds placed p (raise e) budget limit none_left more = limit
  round_cases P rounds placed p (ok none) budget limit none_left more = none_left refl
  round_cases P rounds placed p (ok (some (start, length))) budget limit none_left more =
      more start length refl

  -- The loop runs to one of its ends if it has a round for each minute.
  pub place_pieces_lem :
      (s : State) (requested rounds placed : ℕ) (p : Pieces)
      → p.remaining ≤ rounds
      → IsProgress s requested p
      → IsProgress s requested (place_pieces planner rounds task placed p)
        × Ended (place_pieces planner rounds task placed p)
  unfolding place_pieces
  place_pieces_lem s requested zero placed p enough h = (h, inl (omega arith))
  place_pieces_lem s requested (suc rounds) placed p enough h =
      let used = usage planner p.intervals in
      let tried = find_slot planner task p.remaining p.busy used p.budget in
      elim (Bool-cases (p.remaining == 0)) [
        | inl e ↦ rw e (h, inl (ground arith))
        | inr e ↦ elim (Bool-cases (leb max_blocks (placed + length p.additions))) [
          | inl k ↦
              rw (e, k)
                (
                  record { sound = h.sound; busy = h.busy; total = h.total; own = h.own },
                  inr (inl refl),
                )
          | inr k ↦
              rw (e, k)
                (round_cases (λ q. IsProgress s requested q × Ended q) rounds placed p tried.0
                  tried.1
                  (
                    record { sound = h.sound; busy = h.busy; total = h.total; own = h.own },
                    inr (inl refl),
                  )
                  (λ found. (
                    record { sound = h.sound; busy = h.busy; total = h.total; own = h.own },
                    inr (
                        inr (
                          find_slot-Explains planner task p.remaining p.busy used p.budget none
                            found)),
                  ))
                  (λ start length found.
                    let slot =
                      (find_slot-Explains planner task p.remaining p.busy used p.budget
                        (some (start, length)) found).0 in
                    place_pieces_lem s requested rounds placed
                      (add_piece planner task start length tried.1 p)
                      (shorter p rounds start length tried.1 enough
                        (slot-le-target planner task p.remaining p.busy used start length slot)
                        slot.positive)
                      (add_piece-IsProgress s requested p used start length tried.1 slot h)))
        ]
      ]
    where
      shorter :
          (p : Pieces) (rounds start length budget : ℕ)
          → p.remaining ≤ suc rounds
          → length ≤ p.remaining
          → 0 < length
          → (add_piece planner task start length budget p).remaining ≤ rounds
      shorter p rounds start length budget enough small positive = unfold add_piece in omega arith

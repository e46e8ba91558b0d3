-- ===== src/Scheduler/Search.antt =====
-- src/smartplanner/scheduler.py: `usage`, `score` and `find_slot`. The budget is threaded through,
-- and is spent also where the search raises.
use planer.Prelude.{
  ℕ, zero, suc, ◌+◌, ◌-◌, ◌*◌, ◌/◌, min, max, Bool, ◌&&◌, ◌||◌, Option, none, some, List, [], ◌∷◌,
  map, drop, sum_of, get_or, ltb, ◌==◌, if◌then◌else◌, ℤ, pos, abs_diff, ltb_ℤ,
}
use planer.Errors.{Result, ok, raise, search_limit}
use planer.Models.{TaskRecord, Period}
use planer.Models.Preferences.{DayPart, Chronotype, Flexibility}
use planer.Planning.{PlanBlock}
use planer.Scheduler.Mask.{Interval, gaps}
use planer.Scheduler.Setup.{Setup, indices}
use planer.Scheduler.Planner.{bounds, free_mask, previous_of}

-- `max(0, min(right, end) - max(left, start))`
abbrev pub overlap : Interval → Interval → ℕ
overlap (left, right) (start, end) = min right end - max left start

-- The periods that have a prefix: "any" and "neutral" have none.
unfoldable pub part_of_period : Period → Option DayPart
part_of_period Period.any = none
part_of_period Period.morning = some DayPart.morning
part_of_period Period.afternoon = some DayPart.afternoon
part_of_period Period.evening = some DayPart.evening

unfoldable pub part_of_chronotype : Chronotype → Option DayPart
part_of_chronotype Chronotype.morning = some DayPart.morning
part_of_chronotype Chronotype.neutral = none
part_of_chronotype Chronotype.evening = some DayPart.evening

unfoldable pub move_weight : Flexibility → ℕ
move_weight Flexibility.low = 8
move_weight Flexibility.medium = 3
move_weight Flexibility.high = 1

-- `min(...)` of the starts, `None` where the task has no previous block
unfoldable pub least_start : List ℤ → Option ℤ
least_start [] = none
least_start (z ∷ zs) = elim (least_start zs) [
  | none ↦ some z
  | some least ↦ some (if ltb_ℤ least z then least else z)
]

-- The key of a candidate, its cost and its start, and its order.
abbrev pub Key : Type 0
Key = ℕ × ℕ

abbrev pub key_before : Key → Key → Bool
key_before (cost, start) (cost', start') = ltb cost cost' || (cost == cost' && ltb start start')

-- The best candidate so far: its key and its start. The length is the same for all of a pass.
abbrev pub Best : Type 0
Best = Option (Key × ℕ)

unfoldable pub better : Key → ℕ → Best → Best
better key start none = some (key, start)
better key start (some (best, at)) =
    if key_before key best then some (key, start) else some (best, at)

-- `for start in range(...)`, with the number of starts that are left.
unfoldable pub try_starts : (ℕ → Key) → ℕ → ℕ → Best → ℕ → Result Best × ℕ
unfolding better
try_starts score zero start best budget = (ok best, budget)
try_starts score (suc left) start best zero = (raise search_limit, 0)
try_starts score (suc left) start best (suc budget) =
    try_starts score left (start + 1) (better (score start) start best) budget

-- `for begin, end in gaps`
unfoldable pub try_gaps : (ℕ → Key) → ℕ → List Interval → Best → ℕ → Result Best × ℕ
unfolding try_starts
try_gaps score length [] best budget = (ok best, budget)
try_gaps score length ((begin, end) ∷ rest) best budget =
    let tried = try_starts score (end + 1 - (begin + length)) begin best budget in
    elim tried.0 [
      | raise e ↦ (raise e, tried.1)
      | ok best' ↦ try_gaps score length rest best' tried.1
    ]

-- `max((end - start for start, end in gaps), default=0)`
unfoldable pub longest_of : List Interval → ℕ
longest_of [] = 0
longest_of ((start, end) ∷ rest) = max (end - start) (longest_of rest)

-- `dict.fromkeys((self.preferences.break_minutes, 0))`
unfoldable pub pauses : ℕ → List ℕ
pauses zero = 0 ∷ []
pauses (suc n) = suc n ∷ 0 ∷ []

module _ (planner : Setup) where
  open planner use {preferences, day_ranges, targets, period_prefix, start as horizon_start}

  -- The minutes of the intervals in each day.
  unfoldable pub usage : List Interval → List ℕ
  unfolding sum_of
  usage intervals = map (λ day. sum_of (overlap day) intervals) day_ranges

  -- The weighted minutes of [start, end) that lie outside of a preferred period.
  unfoldable pub misplaced : Option DayPart → ℕ → ℕ → ℕ → ℕ
  misplaced none weight start end = 0
  misplaced (some period) weight start end =
      weight * (get_or (period_prefix period) end 0 - get_or (period_prefix period) start 0)

  -- The costs of the days, from the list of the days, what is used of each, and its target.
  unfoldable pub overload : List Interval → List ℕ → List ℕ → ℕ → ℕ → ℕ
  overload [] used targets start length = 0
  overload (day ∷ days) used targets start length =
      let used_here = get_or used 0 0 in
      let target_here = get_or targets 0 0 in
      let added = overlap day (start, start + length) in
      (used_here + added - target_here - (used_here - target_here)) * 300 / length
      + overload days (drop 1 used) (drop 1 targets) start length

  unfoldable pub previous_start : TaskRecord → Option ℤ
  unfolding indices least_start previous_of
  previous_start task = least_start (
      map (λ (block : PlanBlock). (indices horizon_start block.window).0)
        (previous_of planner task))

  unfoldable pub moved : Option ℤ → ℕ → ℕ
  unfolding move_weight
  moved none start = 0
  moved (some old) start = abs_diff (pos start) old * move_weight preferences.flexibility / 15

  unfoldable pub score : TaskRecord → ℕ → ℕ → List ℕ → Key
  unfolding misplaced part_of_period part_of_chronotype overload moved previous_start
  score task start length used =
      let end = start + length in
      (
        (misplaced (part_of_period task.preferred_period) 6 start end
                + misplaced (part_of_chronotype preferences.chronotype) 2 start end
                + misplaced (some preferences.deep_work_period) 1 start end)
              * 100
              / length
            + overload day_ranges used targets start length
            + moved (previous_start task) start,
        start,
      )

  -- `min(remaining, focus)` for a task that may be split, all that remains for another.
  abbrev pub piece : TaskRecord → ℕ → ℕ
  piece task remaining =
      if task.splittable then min remaining preferences.focus_block_minutes else remaining

  -- `min(target, longest) if task.splittable else target`
  abbrev pub piece_in : TaskRecord → ℕ → ℕ → ℕ
  piece_in task target longest = if task.splittable then min target longest else target

  -- The loop over the pauses: the start and the length of the slot that is found.
  unfoldable pub try_pauses :
      TaskRecord → ℕ → List Interval → List ℕ → List ℕ → ℕ → Result (Option (ℕ × ℕ)) × ℕ
  unfolding gaps free_mask longest_of try_gaps score bounds
  try_pauses task target busy used [] budget = (ok none, budget)
  try_pauses task target busy used (pause ∷ rest) budget =
      let (left, right) = bounds planner task in
      let found = gaps (free_mask planner busy pause) left right in
      let length = piece_in task target (longest_of found) in
      let next = try_pauses task target busy used rest in
      if length == 0 || ltb (longest_of found) length
      then next budget
      else let tried = try_gaps (λ start. score task start length used) length found none budget in
        elim tried.0 [
          | raise e ↦ (raise e, tried.1)
          | ok best ↦ elim best [
            | some (key, start) ↦ (ok (some (start, length)), tried.1)
            | none ↦ next tried.1
          ]
        ]

  unfoldable pub find_slot :
      TaskRecord → ℕ → List Interval → List ℕ → ℕ → Result (Option (ℕ × ℕ)) × ℕ
  unfolding try_pauses pauses
  find_slot task remaining busy used budget =
      try_pauses task (piece task remaining) busy used (pauses preferences.break_minutes) budget

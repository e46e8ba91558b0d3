-- ===== src/Scheduler/Sound/Instants.antt =====
-- From the minutes of the planner to instants: what it means that a block is placed.
use planer.Prelude.{
  ℕ, ◌+◌, ◌*◌, ◌%◌, ◌≤◌, ◌<◌, ◌≡◌, ◌⊎◌, inl, inr, ap, Option, none, some, List, [], ◌∷◌, map, arith,
  All, All-both, Any, ℤ, pos,
}
use planer.Clock.{
  Instant, minute, ceil_minutes, floor_minutes, int_minutes_exact, int_minutes_le, int_minutes_ge,
}
use planer.Models.{TaskRecord}
use planer.Planning.{TimeWindow, FixedEvent}
use planer.Planning.Grid.{OnGrid}
use planer.Scheduler.Mask.Gaps.{Covers}
use planer.Scheduler.Setup.{Setup, indices, interval, clip}
use planer.Scheduler.Planner.{bounds}
use planer.Scheduler.Sound.{Disjoint}

-- The instant of a minute of the horizon.
abbrev pub instant : Instant → ℕ → Instant
instant start i = start + i * minute

abbrev pub Apart : TimeWindow → TimeWindow → Type 0
Apart a b = (a.end ≤ b.start) ⊎ (b.end ≤ a.start)

abbrev pub AfterEarliest : Option Instant → Instant → Type 0
AfterEarliest none t = Unit
AfterEarliest (some earliest) t = earliest ≤ t

abbrev pub BeforeDeadline : Option Instant → Instant → Type 0
BeforeDeadline none t = Unit
BeforeDeadline (some deadline) t = t ≤ deadline

-- The instant lies in one of the windows.
abbrev pub InWindows : List TimeWindow → Instant → Type 0
InWindows windows t = Any (λ (w : TimeWindow). w.start ≤ t × t < w.end) windows

module _ (start : Instant) (aligned : start % minute ≡ 0) where
  pub exact :
      (w : TimeWindow) (left right : ℕ)
      → OnGrid w
      → indices start w ≡ (pos left, pos right)
      → (w.start ≡ instant start left) × (w.end ≡ instant start right)
  unfolding indices
  exact w left right grid e = (
    int_minutes_exact w.start start left grid.0 aligned (ap (λ (p : ℤ × ℤ). p.0) e),
    int_minutes_exact w.end start right grid.1 aligned (ap (λ (p : ℤ × ℤ). p.1) e),
  )

  -- An event that misses the minutes of a block, although it is clipped to the horizon, misses
  -- the block.
  event_apart :
      (size left right : ℕ) (w : TimeWindow)
      → OnGrid w
      → left < right
      → right ≤ size
      → Disjoint (clip start size w) (left, right)
      → (w.end ≤ instant start left) ⊎ (instant start right ≤ w.start)
  unfolding clip
  event_apart size left right w grid solid inside (inl h) =
      inl (int_minutes_le w.end start left grid.1 aligned (omega arith))
  event_apart size left right w grid solid inside (inr h) =
      inr (int_minutes_ge w.start start right (omega arith) (omega arith))

  pub events_apart :
      (size left right : ℕ) (events : List FixedEvent)
      → left < right
      → right ≤ size
      → All (λ (event : FixedEvent). OnGrid event.window) events
      → All (λ (event : FixedEvent). Disjoint (clip start size event.window) (left, right)) events
      → All
          (λ (event : FixedEvent).
            (event.end ≤ instant start left) ⊎ (instant start right ≤ event.start))
          events
  events_apart size left right events solid inside =
      All-both _ _ _ (λ event grid h. event_apart size left right event.window grid solid inside h)
        events

  -- An instant of a minute that the windows cover lies in a window.
  pub covered :
      (windows : List TimeWindow) (i t : ℕ)
      → All OnGrid windows
      → Covers i (map (interval start) windows)
      → instant start i ≤ t
      → t < instant start (i + 1)
      → InWindows windows t
  unfolding interval
  covered [] i t grid c low high = c
  covered (w ∷ rest) i t grid (inl c) low high =
      let from = int_minutes_le w.start start i grid.0.0 aligned c.0 in
      let to = int_minutes_ge w.end start (i + 1) (omega arith) (omega (arith, c.1)) in
      inl (omega (arith, from), omega (arith, to))
  covered (w ∷ rest) i t grid (inr c) low high = inr (covered rest i t grid.1 c low high)

module _ (planner : Setup) (task : TaskRecord) where
  open planner use {start, size, floor}

  -- The bounds of the task, as instants.
  pub bounds_instants :
      (left right : ℕ)
      → (bounds planner task).0 ≤ left
      → left < right
      → right ≤ (bounds planner task).1
      → AfterEarliest task.earliest_start (instant start left)
        × BeforeDeadline task.deadline (instant start right)
        × (floor ≤ left)
        × (right ≤ size)
  unfolding bounds
  bounds_instants left right early solid late = (
    earliest task.earliest_start (omega arith),
    deadline task.deadline (omega arith),
    omega arith,
    omega arith,
  )
    where
      earliest :
          (t : Option Instant)
          → (elim t [ none ↦ 0 | some e ↦ ceil_minutes e start ]) ≤ left
          → AfterEarliest t (instant start left)
      earliest none h = tt
      earliest (some e) h = omega arith

      deadline :
          (t : Option Instant)
          → right ≤ (elim t [ none ↦ size | some d ↦ floor_minutes d start ])
          → BeforeDeadline t (instant start right)
      deadline none h = tt
      deadline (some d) h = omega arith

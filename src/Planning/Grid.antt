-- ===== src/Planning/Grid.antt =====
-- What a validated request says of its windows: each starts and ends on a whole minute.
use planer.Prelude.{
  ◌%◌, ◌≡◌, ◌<◌, Bool, true, ◌&&◌, List, [], ◌∷◌, arith, all_of, All, All-imp, &&_parts, leb,
  length,
}
use planer.Clock.{minute}
use planer.Models.{is_title}
use planer.Planning.{
  TimeWindow, FixedEvent, PlanBlock, PlanningWindow, PreviewRequest, validate_window,
  validate_planning_window, validate_request, known_blocks, supported_date, daily_or_weekly,
  all_distinct,
}

-- A window of whole minutes.
abbrev pub OnGrid : TimeWindow → Type 0
OnGrid window = (window.start % minute ≡ 0) × (window.end % minute ≡ 0)

pub all_of-All {ℓ} :
    {A : Type ℓ} (test : A → Bool) (xs : List A)
    → all_of test xs ≡ true
    → All (λ x. test x ≡ true) xs
unfolding all_of
all_of-All test [] h = tt
all_of-All test (x ∷ xs) h =
    let (here, later) = &&_parts (test x) (all_of test xs) h in (here, all_of-All test xs later)

pub validate_window-OnGrid :
    (w : TimeWindow) → validate_window w ≡ true → OnGrid w × (w.start < w.end)
unfolding validate_window
validate_window-OnGrid w h = ((ground arith, ground arith), ground arith)

pub record HasGrid (request : PreviewRequest) : Type 0 where
  pub windows : All OnGrid request.availability
  pub events : All (λ (event : FixedEvent). OnGrid event.window) request.fixed_events
  pub previous : All (λ (block : PlanBlock). OnGrid block.window) request.previous_blocks

eight_parts :
    (a b c d e f g h : Bool)
    → (a && b && c && d && e && f && g && h) ≡ true
    → (e ≡ true) × (g ≡ true)
eight_parts a b c d e f g h k = (ground arith, ground arith)

planning_parts :
    (w : PlanningWindow)
    → validate_planning_window w ≡ true
    → (all_of validate_window w.availability ≡ true)
      × (all_of
            (λ (event : FixedEvent). validate_window event.window && is_title event.title)
            w.fixed_events
          ≡ true)
unfolding validate_planning_window
planning_parts w h =
    eight_parts (supported_date w.start_date) (daily_or_weekly w.days) (leb (length w.task_ids) 100)
      (leb (length w.availability) 28) (all_of validate_window w.availability)
      (leb (length w.fixed_events) 100)
      (all_of (λ (event : FixedEvent). validate_window event.window && is_title event.title)
        w.fixed_events)
      (all_distinct w.task_ids) h

pub validate_request-HasGrid :
    (request : PreviewRequest) → validate_request request ≡ true → HasGrid request
unfolding validate_request
validate_request-HasGrid request h =
    let (inner, known) = &&_parts _ (known_blocks request.task_ids request.previous_blocks) h in
    let (inner', previous) =
      &&_parts _
        (all_of (λ (block : PlanBlock). validate_window block.window) request.previous_blocks)
        inner in
    let (planning, count) =
      &&_parts (validate_planning_window request.planning)
        (leb (length request.previous_blocks) 512) inner' in
    let (windows, events) = planning_parts request.planning planning in
    record {
      windows =
          All-imp (λ w. validate_window w ≡ true) OnGrid (λ w e. (validate_window-OnGrid w e).0)
            request.availability (all_of-All validate_window request.availability windows);
      events =
          All-imp
            (λ (event : FixedEvent). (validate_window event.window && is_title event.title) ≡ true)
            (λ event. OnGrid event.window)
            (λ event e.
              (validate_window-OnGrid event.window (&&_parts _ (is_title event.title) e).0).0)
            request.fixed_events (all_of-All _ request.fixed_events events);
      previous =
          All-imp (λ (block : PlanBlock). validate_window block.window ≡ true)
            (λ block. OnGrid block.window) (λ block e. (validate_window-OnGrid block.window e).0)
            request.previous_blocks (all_of-All _ request.previous_blocks previous);
    }

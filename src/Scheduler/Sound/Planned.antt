-- ===== src/Scheduler/Sound/Planned.antt =====
-- The state that a planner of src/smartplanner/scheduler.py ends with, in terms of the request.
use mathlib.Core.List.{append-nil}
use planer.Prelude.{
  ℕ, ◌-◌, ◌/◌, ◌%◌, ◌≤◌, ◌<◌, ◌≡◌, ◌⊎◌, inl, inr, refl, sym, ap, ◌∙◌, subst, true, List, arith,
  length, All, All-imp, All-both, Bool, All-unmap, All-at, All-unsort_by, All-filter_if,
  All-filter_test, All-In, In, sort_by, filter_if,
}
use planer.Errors.{Result, ok, ok_injective, ◌>>=◌, returned}
use planer.Clock.{Instant, Zone, HasWholeSeconds, minute}
use planer.Models.{TaskRecord, is_pending}
use planer.Models.Preferences.{PreferenceValues}
use planer.Planning.{FixedEvent, PlanBlock, PreviewRequest}
use planer.Planning.Grid.{OnGrid, HasGrid}
use planer.Scheduler.Mask.{Interval, bit}
use planer.Scheduler.Setup.{
  Setup, clip, event_before, horizon_start, horizon_end, horizon_size, horizon_floor, pending_of,
  make_setup, init,
}
use planer.Scheduler.Planner.{State, ordered_tasks, preserve_previous}
use planer.Scheduler.Allocate.{allocate_all}
use planer.Scheduler.Preview.{begin, plan}
use planer.Scheduler.Sound.{Disjoint, IsPlaced, IsSound}
use planer.Scheduler.Sound.Masks.{free_interval-Disjoint}
use planer.Scheduler.Sound.Preserve.{ordered_tasks-In, preserve_previous-IsSound}
use planer.Scheduler.Sound.Init.{IsReady, init-IsReady}
use planer.Scheduler.Sound.Allocation.{allocate_all-IsSound}
use planer.Scheduler.Sound.Instants.{
  instant, Apart, AfterEarliest, BeforeDeadline, InWindows, exact, events_apart, covered,
  bounds_instants,
}

module _ (request : PreviewRequest) (tasks : List TaskRecord) (zone : Zone) (now : Instant) where
  -- What a block of a preview is: it belongs to a given pending task, starts neither in the past
  -- nor before the task may, ends by its deadline, lies in the horizon, meets no fixed event, and
  -- at each of its instants the user is available.
  pub record IsPlanned (block : PlanBlock) : Type 0 where
    pub task : TaskRecord
    pub given : In tasks task
    pub active : is_pending task.status ≡ true
    pub named : block.task_id ≡ task.id
    pub nonempty : block.start < block.end
    pub not_past : now ≤ block.start
    pub after_earliest : AfterEarliest task.earliest_start block.start
    pub before_deadline : BeforeDeadline task.deadline block.end
    pub after_start : horizon_start request zone ≤ block.start
    pub before_end : block.end ≤ horizon_end request zone
    pub clear : All (λ (event : FixedEvent). Apart event.window block.window) request.fixed_events
    pub available :
        (t : Instant) → block.start ≤ t → t < block.end → InWindows request.availability t

module _ (request : PreviewRequest) (tasks : List TaskRecord) (preferences : PreferenceValues)
    (zone : Zone) (now : Instant) where
  -- The state at the end of the planner.
  pub record HasSoundPlan (planner : Setup) (s : State) : Type 0 where
    pub busy : List Interval
    pub ready : IsReady request tasks preferences zone now planner busy
    pub sound : IsSound planner busy s

  -- The fields of a planner that is ready.
  module _ (planner : Setup) (busy : List Interval)
      (ready : IsReady request tasks preferences zone now planner busy) where
    pub start_lem : planner.start ≡ horizon_start request zone
    start_lem = unfold make_setup in ap (λ (p : Setup). p.start) ready.made.1

    pub end_lem : planner.end ≡ horizon_end request zone
    end_lem = unfold make_setup in ap (λ (p : Setup). p.end) ready.made.1

    pub size_lem : planner.size ≡ horizon_size request zone
    size_lem = unfold make_setup in ap (λ (p : Setup). p.size) ready.made.1

    pub floor_lem : planner.floor ≡ horizon_floor request zone now
    floor_lem = unfold make_setup in ap (λ (p : Setup). p.floor) ready.made.1

    pub pending_lem : planner.pending ≡ pending_of tasks
    pending_lem = unfold make_setup in ap (λ (p : Setup). p.pending) ready.made.1

    pub request_lem : planner.request ≡ request
    request_lem = unfold make_setup in ap (λ (p : Setup). p.request) ready.made.1

    pub sized_lem : length planner.available ≡ planner.size
    sized_lem = ready.sized ∙ sym size_lem

    -- Midnight has no seconds, so the planner's minutes are whole minutes.
    pub aligned_lem : HasWholeSeconds zone → planner.start % minute ≡ 0
    aligned_lem whole =
        let micros = whole.midnight_second request.start_date in
        let seconds = ready.checked.start_second in rw start_lem (omega (arith, micros, seconds))

  -- The steps of a plan that was returned.
  pub record PlanSteps (budget : ℕ) (planner : Setup) (s : State) : Type 0 where
    pub busy : List Interval
    pub kept : State
    pub set_up : init request tasks preferences zone now ≡ ok (planner, busy)
    pub preserved : preserve_previous planner (begin busy budget) ≡ ok kept
    pub allocated : allocate_all planner (ordered_tasks planner) kept ≡ s

  pub plan-PlanSteps :
      (budget : ℕ) (planner : Setup) (s : State)
      → plan request tasks preferences zone now budget ≡ ok (planner, s)
      → PlanSteps budget planner s
  unfolding plan
  plan-PlanSteps budget planner s e =
      let finish : Setup → State → Result (Setup × State) =
        λ p t. ok (p, allocate_all p (ordered_tasks p) t) in
      let (r, set_up, e1) =
        returned (init request tasks preferences zone now)
          (λ (r : Setup × List Interval). preserve_previous r.0 (begin r.1 budget) >>= finish r.0)
          e in
      let (t, preserved, e2) =
        returned (preserve_previous r.0 (begin r.1 budget)) (finish r.0) e1 in
      let same : (r.0, allocate_all r.0 (ordered_tasks r.0) t) ≡ (planner, s) = ok_injective e2 in
      subst (λ (p : Setup × State). PlanSteps budget p.0 p.1) same
        (record { busy = r.1; kept = t; set_up = set_up; preserved = preserved; allocated = refl })

  pub previous_lem :
      (planner : Setup) (busy : List Interval)
      → IsReady request tasks preferences zone now planner busy
      → HasGrid request
      → All (λ (block : PlanBlock). OnGrid block.window) planner.request.previous_blocks
  previous_lem planner busy ready grid =
      subst
        (λ (r : PreviewRequest). All (λ (block : PlanBlock). OnGrid block.window) r.previous_blocks)
        (sym (request_lem planner busy ready)) grid.previous

  -- What `preserve_previous` leaves to the loop over the tasks.
  pub kept-IsSound :
      HasGrid request
      → (budget : ℕ) (planner : Setup) (s : State) (steps : PlanSteps budget planner s)
      → IsReady request tasks preferences zone now planner steps.busy
      → IsSound planner steps.busy steps.kept
  kept-IsSound grid budget planner s steps ready =
      let busy = steps.busy in
      preserve_previous-IsSound planner (sized_lem planner busy ready) busy
        (previous_lem planner busy ready grid) (begin busy budget) steps.kept steps.preserved
        (record {
          split = sym (append-nil busy);
          apart = ready.apart;
          solid = ready.solid;
          placed = tt;
        })

  -- Whatever `plan` returns is sound.
  pub plan-HasSoundPlan :
      HasWholeSeconds zone
      → HasGrid request
      → (budget : ℕ) (planner : Setup) (s : State)
      → plan request tasks preferences zone now budget ≡ ok (planner, s)
      → HasSoundPlan planner s
  plan-HasSoundPlan whole grid budget planner s e =
      let steps = plan-PlanSteps budget planner s e in
      let busy = steps.busy in
      let ready = init-IsReady request tasks preferences zone now planner busy steps.set_up in
      let sized = sized_lem planner busy ready in
      let previous = previous_lem planner busy ready grid in
      record {
        busy = busy;
        ready = ready;
        sound = subst (IsSound planner busy) steps.allocated (
            allocate_all-IsSound planner sized busy (aligned_lem planner busy ready whole)
              (ordered_tasks planner) steps.kept (ordered_tasks-In planner sized busy previous)
              (kept-IsSound grid budget planner s steps ready));
      }

  -- A pending task of the planner is a given task that is pending.
  pending_given :
      (planner : Setup) (task : TaskRecord)
      → planner.pending ≡ pending_of tasks
      → In planner.pending task
      → In tasks task × (is_pending task.status ≡ true)
  pending_given planner task e known =
      let test : TaskRecord → Bool = λ t. is_pending t.status in
      let found : In (filter_if test tasks) task =
        unfold pending_of in subst (λ l. In l task) e known in
      let both =
        All-both (In tasks) (λ t. test t ≡ true) (λ t. In tasks t × (test t ≡ true))
          (λ t a b. (a, b)) (filter_if test tasks)
          (All-filter_if (In tasks) test tasks (All-In tasks)) (All-filter_test test tasks) in
      let (t, holds, same) =
        All-at (λ t. In tasks t × (test t ≡ true)) (λ t. t ≡ task) (filter_if test tasks) both
          found in
      subst (λ t. In tasks t × (is_pending t.status ≡ true)) same holds

  module _ (planner : Setup) (busy : List Interval) (whole : HasWholeSeconds zone)
      (grid : HasGrid request)
      (ready : IsReady request tasks preferences zone now planner busy) where
    abbrev origin : Instant
    origin = horizon_start request zone

    origin_aligned : origin % minute ≡ 0
    origin_aligned =
        subst (λ (t : Instant). t % minute ≡ 0) (start_lem planner busy ready)
          (aligned_lem planner busy ready whole)

    -- The fixed events miss the minutes of a block that is open.
    events_clear :
        (left right : ℕ)
        → left < right
        → right ≤ horizon_size request zone
        → ((i : ℕ) → left ≤ i → i < right → bit planner.available i ≡ true)
        → All
            (λ (event : FixedEvent).
              (event.end ≤ instant origin left) ⊎ (instant origin right ≤ event.start))
            request.fixed_events
    events_clear left right solid inside open_minutes =
        let size = horizon_size request zone in
        let disjoint =
          free_interval-Disjoint planner.available planner.available busy left right
            (λ i h. (h, (ready.open_minutes i h).3)) ready.solid solid open_minutes in
        let clipped =
          subst (All (λ (a : Interval). Disjoint a (left, right))) ready.events disjoint in
        events_apart origin origin_aligned size left right request.fixed_events solid inside
          grid.events
          (All-unsort_by _ event_before request.fixed_events (
            All-unmap _ (λ (event : FixedEvent). clip origin size event.window)
              (sort_by event_before request.fixed_events) clipped))

    -- Each instant of a block lies in a minute that is available.
    always_available :
        (left right : ℕ)
        → ((i : ℕ) → left ≤ i → i < right → bit planner.available i ≡ true)
        → (t : Instant) → instant origin left ≤ t
        → t < instant origin right
        → InWindows request.availability t
    always_available left right open_minutes t low high =
        let i = (t - origin) / minute in
        covered origin origin_aligned request.availability i t grid.windows
          (ready.open_minutes i (open_minutes i (omega arith) (omega arith))).2 (omega arith)
          (omega arith)

  -- A placed block of a sound plan is planned.
  pub IsPlanned-block :
      (planner : Setup) (s : State) (block : PlanBlock)
      → HasWholeSeconds zone
      → HasGrid request
      → HasSoundPlan planner s
      → IsPlaced planner block
      → IsPlanned request tasks zone now block
  IsPlanned-block planner s block whole grid h placed =
      let fit = placed.fits in
      let origin = horizon_start request zone in
      let aligned = aligned_lem planner h.busy h.ready whole in
      let start_eq = start_lem planner h.busy h.ready in
      let size_eq = size_lem planner h.busy h.ready in
      let floor_eq = floor_lem planner h.busy h.ready in
      let (from, to) =
        exact planner.start aligned block.window fit.left fit.right placed.grid fit.placed in
      let from' : block.start ≡ instant origin fit.left = omega (arith, from, start_eq) in
      let to' : block.end ≡ instant origin fit.right = omega (arith, to, start_eq) in
      let bounded =
        bounds_instants planner placed.task fit.left fit.right fit.early fit.solid fit.late in
      let inside : fit.right ≤ horizon_size request zone = omega (arith, bounded.3, size_eq) in
      let given =
        pending_given planner placed.task (pending_lem planner h.busy h.ready) placed.known in
      let bits : (i : ℕ) → fit.left ≤ i → i < fit.right → bit planner.available i ≡ true =
        fit.open_minutes in
      record {
        task = placed.task;
        given = given.0;
        active = given.1;
        named = placed.named;
        nonempty = omega (arith, from', to', fit.solid);
        not_past = omega (arith, from', fit.solid, inside, bounded.2, floor_eq);
        after_earliest = subst (AfterEarliest placed.task.earliest_start) (sym from) bounded.0;
        before_deadline = subst (BeforeDeadline placed.task.deadline) (sym to) bounded.1;
        after_start = omega (arith, from');
        before_end = omega (arith, to', inside, fit.solid);
        clear =
            All-imp _ (λ (event : FixedEvent). Apart event.window block.window)
              (λ event a. elim a [
                | inl p ↦ inl (omega (arith, p, from'))
                | inr p ↦ inr (omega (arith, p, to'))
              ])
              request.fixed_events
              (events_clear planner h.busy whole grid h.ready fit.left fit.right fit.solid inside
                bits);
        available = λ t low high.
            always_available planner h.busy whole grid h.ready fit.left fit.right bits t
              (omega (arith, low, from')) (omega (arith, high, to'));
      }

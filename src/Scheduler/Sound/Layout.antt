-- ===== src/Scheduler/Sound/Layout.antt =====
-- `inspect_layout`: a layout that it accepts keeps the hard constraints.
use mathlib.Core.List.{append-nil}
use planer.Prelude.{
  ℕ, ◌≡◌, refl, sym, ap, ◌∙◌, subst, true, false, not, List, [], ◌∷◌, map, inl, inr, All, All-imp,
  All-both, All-map, All-unmap, All-In, Any, Any-imp, Any-sort_by, Any-filter_if, In,
  All-append_left, Pairs, Pairs-append_left, Pairs-unmap, All-groups, Pairs-groups, any_of,
  any_of-Any, any_of-false, contains, arith, ◌==◌, true_of_not,
}
use planer.Errors.{
  Result, ok, raise, error, raise_if, raise≢ok, raise_if-eq-ok, ok_injective, returned, ◌>>=◌,
  validation_error, inactive_task_block,
}
use planer.Clock.{Instant, Zone, HasWholeSeconds}
use planer.Models.{TaskRecord}
use planer.Models.Preferences.{PreferenceValues}
use planer.Planning.{PlanBlock, PlanningWindow, PreviewRequest, validate_request}
use planer.Planning.Grid.{validate_request-HasGrid}
use planer.Scheduler.Mask.{Interval}
use planer.Scheduler.Setup.{Setup, pending_of, init}
use planer.Scheduler.Planner.{State, previous_tasks, preserve_previous}
use planer.Scheduler.Preview.{
  Layout, lock, begin, as_layout_error, catch_layout, inspect, inspect_layout,
}
use planer.Scheduler.Sound.Instants.{Apart}
use planer.Scheduler.Sound.Init.{IsReady, init-IsReady}
use planer.Scheduler.Sound.Preserve.{preserve_previous-IsSound}
use planer.Scheduler.Sound.Planned.{
  IsPlanned, HasSoundPlan, sized_lem, previous_lem, request_lem, pending_lem,
}
use planer.Scheduler.Sound.Preview.{IsValidPlan, HasSoundPlan-IsValidPlan, Apart-symmetric}
use planer.Scheduler.Sound.Locks.{
  all_locks, blocks-both_loops, is_of, All-all_locks, Pairs-all_locks,
}

module _ (planner : Setup) where
  -- A block of a pending task has its task among those with previous blocks.
  previous_tasks-HasGroup :
      (block : PlanBlock)
      → In planner.request.previous_blocks block
      → Any (λ t. is_of t block ≡ true) planner.pending
      → Any (λ t. is_of t block ≡ true) (previous_tasks planner)
  unfolding previous_tasks
  previous_tasks-HasGroup block member known =
      let previous = planner.request.previous_blocks in
      let has = (λ (t : TaskRecord) (e : is_of t block ≡ true). (any_of-Any (is_of t) previous).1 (
        Any-imp (λ b. b ≡ block) (λ b. is_of t b ≡ true) (λ b same. ap (is_of t) same ∙ e) previous
          member)) in
      Any-sort_by (λ t. is_of t block ≡ true) _ _
        (Any-filter_if (λ t. is_of t block ≡ true) _ planner.pending
          (Any-imp (λ t. is_of t block ≡ true)
            (λ t. (any_of (is_of t) previous ≡ true) × (is_of t block ≡ true)) (λ t e. (has t e, e))
            planner.pending known))

-- The identifiers among which a block has its own.
contains_ids :
    (id : ℕ) (tasks : List TaskRecord)
    → contains id (map (λ (task : TaskRecord). task.id) tasks) ≡ true
    → Any (λ t. (id == t.id) ≡ true) tasks
unfolding contains
contains_ids id tasks h = ids tasks ((any_of-Any (λ x. x == id) _).0 h)
  where
    ids :
        (tasks : List TaskRecord)
        → Any (λ x. (x == id) ≡ true) (map (λ (task : TaskRecord). task.id) tasks)
        → Any (λ t. (id == t.id) ≡ true) tasks
    ids [] h = h
    ids (t ∷ rest) (inl h) = inl (ground arith)
    ids (t ∷ rest) (inr h) = inr (ids rest h)

caught : (r : Result State) (s : State) → catch_layout r ≡ ok s → r ≡ ok s
caught (ok t) s e = e
caught (raise x) s e = absurd (raise≢ok (as_layout_error x) s e)

-- The request that a layout is checked as.
abbrev pub locked_request : PlanningWindow → List PlanBlock → PreviewRequest
locked_request window blocks = record { planning = window; previous_blocks = map lock blocks }

module _ (window : PlanningWindow) (blocks : List PlanBlock) (tasks : List TaskRecord)
    (preferences : PreferenceValues) (zone : Zone) where
  abbrev midnight : Instant
  midnight = zone.midnight window.start_date

  -- The steps of an inspection that returned.
  record Inspected (planner : Setup) (s : State) : Type 0 where
    pub busy : List Interval
    pub active :
        any_of
          (λ (block : PlanBlock).
            not (contains block.task_id (map (λ (task : TaskRecord). task.id) (pending_of tasks))))
          blocks
        ≡ false
    pub valid : validate_request (locked_request window blocks) ≡ true
    pub set_up :
        init (locked_request window blocks) tasks preferences zone midnight ≡ ok (planner, busy)
    pub preserved : preserve_previous planner (begin busy 0) ≡ ok s

  inspect-Inspected :
      (planner : Setup) (s : State)
      → inspect window blocks tasks preferences zone ≡ ok (planner, s)
      → Inspected planner s
  unfolding inspect pending_of
  inspect-Inspected planner s e =
      let ids = map (λ (task : TaskRecord). task.id) (pending_of tasks) in
      let (u, active, e1) =
        returned
          (raise_if (any_of (λ (block : PlanBlock). not (contains block.task_id ids)) blocks)
            (error 409 inactive_task_block))
          _ e in
      let (v, valid, e2) =
        returned (raise_if (not (validate_request (locked_request window blocks))) validation_error)
          _ e1 in
      let (r, set_up, e3) =
        returned (init (locked_request window blocks) tasks preferences zone midnight)
          (λ (r : Setup × List Interval).
            catch_layout (preserve_previous r.0 (begin r.1 0)) >>= (λ s. ok (r.0, s)))
          e2 in
      let (t, preserved, e4) =
        returned (catch_layout (preserve_previous r.0 (begin r.1 0))) (λ s. ok (r.0, s)) e3 in
      let same : (r.0, t) ≡ (planner, s) = ok_injective e4 in
      subst (λ (p : Setup × State). Inspected p.0 p.1) same
        (record {
          busy = r.1;
          active = raise_if-eq-ok _ _ u active;
          valid = true_of_not _ (raise_if-eq-ok _ _ v valid);
          set_up = set_up;
          preserved = caught (preserve_previous r.0 (begin r.1 0)) t preserved;
        })

  -- What a locked copy of a block is, the block is.
  IsPlanned-unlock :
      (block : PlanBlock)
      → IsPlanned (locked_request window blocks) tasks zone midnight (lock block)
      → IsPlanned (locked_request window blocks) tasks zone midnight block
  IsPlanned-unlock block p = record {
    task = p.task;
    given = p.given;
    active = p.active;
    named = p.named;
    nonempty = p.nonempty;
    not_past = p.not_past;
    after_earliest = p.after_earliest;
    before_deadline = p.before_deadline;
    after_start = p.after_start;
    before_end = p.before_end;
    clear = p.clear;
    available = p.available;
  }

  all_locked : (xs : List PlanBlock) → All (λ (b : PlanBlock). b.locked ≡ true) (map lock xs)
  all_locked [] = tt
  all_locked (x ∷ xs) = (refl, all_locked xs)

  module _ (planner : Setup) (s : State) (whole : HasWholeSeconds zone)
      (done : Inspected planner s) where
    ready : IsReady (locked_request window blocks) tasks preferences zone midnight planner done.busy
    ready =
        init-IsReady (locked_request window blocks) tasks preferences zone midnight planner
          done.busy done.set_up

    same_blocks : planner.request.previous_blocks ≡ map lock blocks
    same_blocks =
        ap (λ (r : PreviewRequest). r.previous_blocks)
          (request_lem (locked_request window blocks) tasks preferences zone midnight planner
            done.busy ready)

    sound_plan :
        HasSoundPlan (locked_request window blocks) tasks preferences zone midnight planner s
    sound_plan =
        let grid = validate_request-HasGrid (locked_request window blocks) done.valid in
        record {
          busy = done.busy;
          ready = ready;
          sound =
              preserve_previous-IsSound planner
                (sized_lem (locked_request window blocks) tasks preferences zone midnight planner
                  done.busy ready)
                done.busy
                (previous_lem (locked_request window blocks) tasks preferences zone midnight planner
                  done.busy ready grid)
                (begin done.busy 0) s done.preserved
                (record {
                  split = sym (append-nil done.busy);
                  apart = ready.apart;
                  solid = ready.solid;
                  placed = tt;
                });
        }

    -- Each block of the layout is in the group of a pending task.
    all_grouped :
        All
          (λ b. Any (λ t. is_of t b ≡ true) (previous_tasks planner))
          planner.request.previous_blocks
    all_grouped =
        let ids = map (λ (task : TaskRecord). task.id) (pending_of tasks) in
        let previous = planner.request.previous_blocks in
        let named = λ (b : PlanBlock). contains b.task_id ids ≡ true in
        let listed = All-map named lock blocks (
          All-imp (λ (b : PlanBlock). not (contains b.task_id ids) ≡ false) named
            (λ b e. true_of_not _ e) blocks
            ((any_of-false (λ (b : PlanBlock). not (contains b.task_id ids)) blocks).0
              done.active)) in
        let pending = sym (
          pending_lem (locked_request window blocks) tasks preferences zone midnight planner
            done.busy ready) in
        All-both (In previous) named (λ b. Any (λ t. is_of t b ≡ true) (previous_tasks planner))
          (λ b member e.
            previous_tasks-HasGroup planner b member
              (subst (Any (λ t. is_of t b ≡ true)) pending (contains_ids b.task_id _ e)))
          previous (All-In previous) (subst (All named) (sym same_blocks) listed)

    Inspected-IsValidPlan : IsValidPlan (locked_request window blocks) tasks zone midnight blocks
    Inspected-IsValidPlan =
        let grid = validate_request-HasGrid (locked_request window blocks) done.valid in
        let valid =
          HasSoundPlan-IsValidPlan (locked_request window blocks) tasks preferences zone midnight
            planner s whole grid sound_plan in
        let (more, e) = blocks-both_loops planner (begin done.busy 0) s done.preserved in
        let planned = IsPlanned (locked_request window blocks) tasks zone midnight in
        let apart = λ (a b : PlanBlock). Apart a.window b.window in
        let locks = all_locks planner (previous_tasks planner) in
        let locked =
          subst (All (λ (b : PlanBlock). b.locked ≡ true)) (sym same_blocks) (all_locked blocks) in
        let all_planned =
          All-groups is_of planned (previous_tasks planner) planner.request.previous_blocks
            all_grouped
            (All-all_locks planner locked planned (previous_tasks planner)
              (All-append_left planned locks more (subst (All planned) e valid.planned))) in
        let all_apart =
          Pairs-groups is_of apart Apart-symmetric (previous_tasks planner)
            planner.request.previous_blocks all_grouped
            (Pairs-all_locks planner locked apart Apart-symmetric (previous_tasks planner)
              (Pairs-append_left apart locks more (subst (Pairs apart) e valid.apart))) in
        record {
          planned =
              All-imp (λ b. planned (lock b)) planned IsPlanned-unlock blocks
                (All-unmap planned lock blocks (subst (All planned) same_blocks all_planned));
          apart = Pairs-unmap apart lock blocks (subst (Pairs apart) same_blocks all_apart);
        }

  -- A layout that `inspect_layout` accepts keeps the hard constraints: each of its blocks belongs to
  -- a given pending task, keeps to the earliest start and the deadline of the task, lies in the
  -- horizon and at each of its instants in a window of availability, and meets no fixed event; and
  -- no two of its blocks meet. The zone's midnights have no fractions of a second.
  pub inspect_layout-IsValidPlan :
      (layout : Layout)
      → HasWholeSeconds zone
      → inspect_layout window blocks tasks preferences zone ≡ ok layout
      → IsValidPlan (locked_request window blocks) tasks zone midnight blocks
  unfolding inspect_layout
  inspect_layout-IsValidPlan layout whole e =
      let ((planner, s), inspected, e') =
        returned (inspect window blocks tasks preferences zone) _ e in
      Inspected-IsValidPlan planner s whole (inspect-Inspected planner s inspected)

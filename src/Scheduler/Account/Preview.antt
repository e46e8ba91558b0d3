-- ===== src/Scheduler/Account/Preview.antt =====
-- `build_preview` accounts for every minute of every pending task.
use planer.Prelude.{
  ℕ, ◌≡◌, inl, inr, refl, sym, ◌∙◌, subst, true, false, String, List, [], ◌∷◌, arith, All, All-imp,
  All-both, All-unfilter_if, Any-imp, Pairs, Pairs-filter_if, any_of, contains, sort_by,
  sum_of-sort_by,
}
use planer.Errors.{ok}
use planer.Clock.{Instant, Zone, HasWholeSeconds}
use planer.Models.{TaskRecord, is_pending}
use planer.Models.Preferences.{PreferenceValues}
use planer.Planning.{PlanBlock, PreviewRequest, PlanPreview, all_distinct, validate_request}
use planer.Planning.Grid.{HasGrid, validate_request-HasGrid}
use planer.Scheduler.Setup.{Setup, pending_of, ids_of}
use planer.Scheduler.Planner.{State, minutes_of, ordered_tasks}
use planer.Scheduler.Preview.{begin, plan, block_before, finish_preview, build_preview}
use planer.Scheduler.Sound.Preserve.{ordered_tasks-In}
use planer.Scheduler.Sound.Init.{init-IsReady}
use planer.Scheduler.Sound.Planned.{
  plan-PlanSteps, pending_lem, sized_lem, aligned_lem, previous_lem, kept-IsSound,
}
use planer.Scheduler.Sound.Preview.{build_preview-plan}
use planer.Scheduler.Account.{Differ}
use planer.Scheduler.Account.Kept.{
  IsKept, IsKept-bound, ordered_tasks-Differ, ordered_tasks-pending, preserve_previous-IsKept,
}
use planer.Scheduler.Account.Allocated.{Reports, IsAccounted, allocate_all-IsAccounted}

Differ-head :
    (task : TaskRecord) (rest : List TaskRecord)
    → contains task.id (ids_of rest) ≡ false
    → All (Differ task) rest
unfolding contains any_of
Differ-head task [] e = tt
Differ-head task (other ∷ rest) e =
    (λ same. ground (arith, same, e), Differ-head task rest (ground (arith, e)))

all_distinct-Differ :
    (tasks : List TaskRecord) → all_distinct (ids_of tasks) ≡ true → Pairs Differ tasks
unfolding all_distinct
all_distinct-Differ [] e = tt
all_distinct-Differ (task ∷ rest) e =
    (Differ-head task rest (ground (arith, e)), all_distinct-Differ rest (ground (arith, e)))

module _ (request : PreviewRequest) (tasks : List TaskRecord) (preferences : PreferenceValues)
    (zone : Zone) (now : Instant) where
  plan-IsAccounted :
      HasWholeSeconds zone
      → HasGrid request
      → (budget : ℕ) (planner : Setup) (s : State)
      → plan request tasks preferences zone now budget ≡ ok (planner, s)
      → All (λ task. is_pending task.status ≡ true → IsAccounted s.blocks s.unscheduled task) tasks
  plan-IsAccounted whole grid budget planner s e =
      let steps = plan-PlanSteps request tasks preferences zone now budget planner s e in
      let busy = steps.busy in
      let ready = init-IsReady request tasks preferences zone now planner busy steps.set_up in
      let sized = sized_lem request tasks preferences zone now planner busy ready in
      let pending = pending_lem request tasks preferences zone now planner busy ready in
      let differ : Pairs Differ planner.pending =
        subst (Pairs Differ) (sym pending)
          (pending_of-Differ (all_distinct-Differ tasks ready.checked.distinct)) in
      let kept =
        preserve_previous-IsKept planner (begin busy budget) steps.kept differ refl
          steps.preserved in
      let accounted = ordered_tasks-pending planner _ (
        allocate_all-IsAccounted planner sized busy
          (aligned_lem request tasks preferences zone now planner busy ready whole)
          (ordered_tasks planner) steps.kept (ordered_tasks-Differ planner differ)
          (ordered_tasks-In planner sized busy
            (previous_lem request tasks preferences zone now planner busy ready grid))
          (kept-IsSound request tasks preferences zone now grid budget planner s steps ready)) in
      given (λ task. IsAccounted s.blocks s.unscheduled task)
        (subst (All (λ task. IsAccounted s.blocks s.unscheduled task)) pending (
          subst
            (λ (t : State). All (λ task. IsAccounted t.blocks t.unscheduled task) planner.pending)
            steps.allocated
            (All-both (IsKept planner steps.kept) _ _
              (λ task k h. h (IsKept-bound planner steps.kept task k)) planner.pending kept
              accounted)))
    where
      pending_of-Differ : Pairs Differ tasks → Pairs Differ (pending_of tasks)
      pending_of-Differ h = unfold pending_of in Pairs-filter_if Differ _ tasks h

      given :
          (P : TaskRecord → Type 0)
          → All P (pending_of tasks)
          → All (λ task. is_pending task.status ≡ true → P task) tasks
      given P h = All-unfilter_if P (λ task. is_pending task.status) tasks (unfold pending_of in h)

module _ (request : PreviewRequest) (tasks : List TaskRecord) (preferences : PreferenceValues)
    (timezone : String) (zone : Zone) (now : Instant) (preference_version budget : ℕ) where
  -- Every pending task that was given has as many minutes in the blocks of the preview as it lasts,
  -- or an entry for it in `unscheduled` names the minutes that the blocks lack, more than 0. The
  -- request is a validated one, and the zone's midnights have no fractions of a second.
  pub build_preview-IsAccounted :
      (preview : PlanPreview)
      → HasWholeSeconds zone
      → validate_request request ≡ true
      → build_preview request tasks preferences timezone zone now preference_version budget
        ≡ ok preview
      → All
          (λ task.
            is_pending task.status ≡ true → IsAccounted preview.blocks preview.unscheduled task)
          tasks
  build_preview-IsAccounted preview whole valid e =
      let (r, planned, made) =
        build_preview-plan request tasks preferences timezone zone now preference_version budget
          preview e in
      let accounted =
        plan-IsAccounted request tasks preferences zone now whole
          (validate_request-HasGrid request valid) budget r.0 r.1 planned in
      subst
        (λ (p : PlanPreview).
          All (λ task. is_pending task.status ≡ true → IsAccounted p.blocks p.unscheduled task)
            tasks)
        made (finished r.0 r.1 accounted)
    where
      same_minutes :
          (id : ℕ) (blocks : List PlanBlock)
          → minutes_of id (sort_by block_before blocks) ≡ minutes_of id blocks
      same_minutes id blocks = unfold minutes_of in sum_of-sort_by block_before _ blocks

      finished :
          (planner : Setup) (s : State)
          → All
              (λ task. is_pending task.status ≡ true → IsAccounted s.blocks s.unscheduled task)
              tasks
          → All
              (λ task.
                is_pending task.status ≡ true
                → IsAccounted
                    (finish_preview request timezone preference_version planner s).blocks
                    (finish_preview request timezone preference_version planner s).unscheduled
                    task)
              tasks
      finished planner s h =
          unfold finish_preview in
          All-imp _ _
            (λ task k active. elim (k active) [
              | inl all_placed ↦ inl (same_minutes task.id s.blocks ∙ all_placed)
              | inr reported ↦ inr (
                  Any-imp (Reports task s.blocks) (Reports task (sort_by block_before s.blocks))
                    (λ entry r. (r.0, r.1, omega (arith, same_minutes task.id s.blocks, r.2)))
                    s.unscheduled reported)
            ])
            tasks h

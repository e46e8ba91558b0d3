-- ===== src/Scheduler/Sound/Preview.antt =====
-- The hard constraints that every preview of src/smartplanner/scheduler.py keeps.
use planer.Prelude.{
  ℕ, ◌%◌, ◌≡◌, inl, inr, subst, true, String, List, map, arith, All, All-imp, All-sort_by, Pairs,
  Pairs-imp, Pairs-unmap, Pairs-sort_by, Pairs-append_right,
}
use planer.Errors.{ok, ok_injective, returned}
use planer.Clock.{Instant, Zone, HasWholeSeconds, minute}
use planer.Models.{TaskRecord}
use planer.Models.Preferences.{PreferenceValues}
use planer.Planning.{PlanBlock, PreviewRequest, PlanPreview, validate_request}
use planer.Planning.Grid.{HasGrid, validate_request-HasGrid}
use planer.Scheduler.Mask.{Interval}
use planer.Scheduler.Setup.{Setup, interval}
use planer.Scheduler.Planner.{State}
use planer.Scheduler.Preview.{block_before, plan, build_preview, finish_preview}
use planer.Scheduler.Sound.{Disjoint, IsPlaced}
use planer.Scheduler.Sound.Reserve.{interval_of_indices}
use planer.Scheduler.Sound.Instants.{Apart, exact}
use planer.Scheduler.Sound.Planned.{
  IsPlanned, HasSoundPlan, aligned_lem, plan-HasSoundPlan, IsPlanned-block,
}

pub Apart-symmetric : (a b : PlanBlock) → Apart a.window b.window → Apart b.window a.window
Apart-symmetric a b (inl h) = inr h
Apart-symmetric a b (inr h) = inl h

-- Disjoint intervals of placed blocks are disjoint times.
placed-Apart :
    (planner : Setup) (a b : PlanBlock)
    → planner.start % minute ≡ 0
    → IsPlaced planner a
    → IsPlaced planner b
    → Disjoint (interval planner.start a.window) (interval planner.start b.window)
    → Apart a.window b.window
placed-Apart planner a b aligned p q h =
    let (a_from, a_to) =
      exact planner.start aligned a.window p.fits.left p.fits.right p.grid p.fits.placed in
    let (b_from, b_to) =
      exact planner.start aligned b.window q.fits.left q.fits.right q.grid q.fits.placed in
    let a_at = interval_of_indices planner a p.fits.left p.fits.right p.fits.placed in
    let b_at = interval_of_indices planner b q.fits.left q.fits.right q.fits.placed in
    let moved : Disjoint (p.fits.left, p.fits.right) (q.fits.left, q.fits.right) =
      subst (λ (v : Interval × Interval). Disjoint v.0 v.1) (λ i. (a_at i, b_at i)) h in
    elim moved [
      | inl k ↦ inl (omega (arith, k, a_to, b_from))
      | inr k ↦ inr (omega (arith, k, b_to, a_from))
    ]

module _ (request : PreviewRequest) (tasks : List TaskRecord) (zone : Zone) (now : Instant) where
  -- Each block is planned, and no two blocks meet.
  pub record IsValidPlan (blocks : List PlanBlock) : Type 0 where
    pub planned : All (IsPlanned request tasks zone now) blocks
    pub apart : Pairs (λ (a b : PlanBlock). Apart a.window b.window) blocks

module _ (request : PreviewRequest) (tasks : List TaskRecord) (preferences : PreferenceValues)
    (zone : Zone) (now : Instant) where
  pub HasSoundPlan-IsValidPlan :
      (planner : Setup) (s : State)
      → HasWholeSeconds zone
      → HasGrid request
      → HasSoundPlan request tasks preferences zone now planner s
      → IsValidPlan request tasks zone now s.blocks
  HasSoundPlan-IsValidPlan planner s whole grid h =
      let at : PlanBlock → Interval = λ block. interval planner.start block.window in
      let aligned = aligned_lem request tasks preferences zone now planner h.busy h.ready whole in
      record {
        planned =
            All-imp (IsPlaced planner) (IsPlanned request tasks zone now)
              (λ block placed.
                IsPlanned-block request tasks preferences zone now planner s block whole grid h
                  placed)
              s.blocks h.sound.placed;
        apart =
            Pairs-imp (IsPlaced planner) (λ a b. Disjoint (at a) (at b))
              (λ a b. Apart a.window b.window) (λ a b. placed-Apart planner a b aligned) s.blocks
              h.sound.placed
              (Pairs-unmap Disjoint at s.blocks (
                Pairs-append_right Disjoint h.busy (map at s.blocks)
                  (subst (Pairs Disjoint) h.sound.split h.sound.apart)));
      }

module _ (request : PreviewRequest) (tasks : List TaskRecord) (preferences : PreferenceValues)
    (timezone : String) (zone : Zone) (now : Instant) (preference_version budget : ℕ) where
  -- The plan behind a preview.
  pub build_preview-plan :
      (preview : PlanPreview)
      → build_preview request tasks preferences timezone zone now preference_version budget
        ≡ ok preview
      → (r : Setup × State) × (plan request tasks preferences zone now budget ≡ ok r)
        × (finish_preview request timezone preference_version r.0 r.1 ≡ preview)
  unfolding build_preview
  build_preview-plan preview e =
      let (r, planned, e') =
        returned (plan request tasks preferences zone now budget)
          (λ (r : Setup × State). ok (finish_preview request timezone preference_version r.0 r.1))
          e in
      (r, planned, ok_injective e')

  -- The theorem below, for a request whose windows are of whole minutes.
  pub build_preview_on_grid :
      (preview : PlanPreview)
      → HasWholeSeconds zone
      → HasGrid request
      → build_preview request tasks preferences timezone zone now preference_version budget
        ≡ ok preview
      → IsValidPlan request tasks zone now preview.blocks
  build_preview_on_grid preview whole grid e =
      let (r, planned, made) = build_preview-plan preview e in
      let h =
        plan-HasSoundPlan request tasks preferences zone now whole grid budget r.0 r.1 planned in
      let v = HasSoundPlan-IsValidPlan request tasks preferences zone now r.0 r.1 whole grid h in
      subst (λ (p : PlanPreview). IsValidPlan request tasks zone now p.blocks) made
        (sorted r.0 r.1 v)
    where
      sorted :
          (planner : Setup) (s : State)
          → IsValidPlan request tasks zone now s.blocks
          → IsValidPlan request tasks zone now
              (finish_preview request timezone preference_version planner s).blocks
      sorted planner s v =
          unfold finish_preview in
          record {
            planned = All-sort_by _ block_before s.blocks v.planned;
            apart = Pairs-sort_by _ block_before Apart-symmetric s.blocks v.apart;
          }

  -- Every block of a preview belongs to a given pending task and keeps to its earliest start and
  -- its deadline, does not start in the past, lies in the horizon and at each of its instants in a
  -- window of availability, and meets no fixed event; and no two blocks of the preview meet. The
  -- request is a validated one, and the zone's midnights have no fractions of a second.
  pub build_preview-IsValidPlan :
      (preview : PlanPreview)
      → HasWholeSeconds zone
      → validate_request request ≡ true
      → build_preview request tasks preferences timezone zone now preference_version budget
        ≡ ok preview
      → IsValidPlan request tasks zone now preview.blocks
  build_preview-IsValidPlan preview whole valid =
      build_preview_on_grid preview whole (validate_request-HasGrid request valid)

-- ===== src/Api/Previews.antt =====
-- The handler of previews: what it plans around, and which requests it refuses for their events.
use planer.Prelude.{
  ℕ, zero, suc, String, ◌+◌, ◌≡◌, ◌≤◌, sym, ap, ◌∙◌, subst, true, false, not, List, [], map, length,
  arith, All, All-imp, All-append, All-append_left, All-append_right, inl, inr, all_of, &&_parts,
  true_of_not, ltb,
}
use planer.Errors.{
  ok, raise, error, raise_if, raise≢ok, raised, raise_if-eq-raise, returned, ok_injective,
  raise_if-eq-ok, validation_error, too_many_fixed_events, planner_busy,
}
use planer.Clock.{Instant, Zone, HasWholeSeconds}
use planer.Models.{TaskRecord, is_title}
use planer.Planning.{FixedEvent, PlanBlock, PreviewRequest, PlanPreview, validate_request}
use planer.Planning.Grid.{
  OnGrid, HasGrid, all_of-All, validate_window-OnGrid, validate_request-HasGrid,
}
use planer.Repository.{TaskRow, planning_tasks}
use planer.Repository.Preferences.{PreferenceRecord, get_preferences}
use planer.Repository.Sessions.{UserView}
use planer.FixedEvents.{FixedEventRecord, EventRow, planning_events}
use planer.Scheduler.Preview.{build_preview, max_candidates}
use planer.Scheduler.Sound.Instants.{Apart}
use planer.Scheduler.Sound.Planned.{IsPlanned}
use planer.Scheduler.Sound.Preview.{IsValidPlan, build_preview_on_grid}
use planer.Api.Inputs.{
  IsOwnTask, planning_tasks-IsOwnTask, event_window, events_between, planning_events-clear,
  planning_events-length,
}
use planer.Api.{
  stored_event, is_valid_event, with_events, merged_request, make_preview, preview_schedule,
}
use planer.Api.Reads.{planning_events-le, planning_events-raise}

with_events-HasGrid :
    (request : PreviewRequest) (stored : List FixedEventRecord)
    → validate_request request ≡ true
    → all_of is_valid_event (map stored_event stored) ≡ true
    → HasGrid (with_events request stored)
with_events-HasGrid request stored valid h =
    let grid = validate_request-HasGrid request valid in
    record {
      windows = grid.windows;
      events =
          All-append (λ (event : FixedEvent). OnGrid event.window) (map stored_event stored)
            request.fixed_events
            (All-imp (λ event. is_valid_event event ≡ true)
              (λ (event : FixedEvent). OnGrid event.window)
              (λ event e.
                (validate_window-OnGrid event.window (&&_parts _ (is_title event.title) e).0).0)
              (map stored_event stored) (all_of-All is_valid_event (map stored_event stored) h))
            grid.events;
      previous = grid.previous;
    }

-- The user's stored events that take time in the horizon of a request
abbrev pub horizon_events : UserView → PreviewRequest → Zone → List EventRow → List EventRow
horizon_events user request zone =
    events_between user.id (zone.midnight request.start_date)
      (zone.midnight (request.start_date + request.days))

-- A preview that the handler returns: a plan of the user's own tasks that the request names, clear
-- of all the user's events.
pub record IsPlannedAround (user : UserView) (request : PreviewRequest) (zone : Zone)
    (now : Instant) (rows : List TaskRow) (events : List EventRow) (preview : PlanPreview)
    : Type 0 where
  pub tasks : List TaskRecord
  pub own : All (IsOwnTask user.id request.task_ids rows) tasks
  pub valid : IsValidPlan request tasks zone now preview.blocks
  pub clear :
      All
        (λ (block : PlanBlock).
          All (λ row. row.user_id ≡ user.id → Apart (event_window row) block.window) events)
        preview.blocks
  pub bounded : length (horizon_events user request zone events) + length request.fixed_events ≤ 100

merged_request_lem :
    (owner : ℕ) (request merged : PreviewRequest) (zone : Zone) (events : List EventRow)
    → merged_request owner request zone events ≡ ok merged
    → (stored : List FixedEventRecord) × (planning_events owner
          (zone.midnight request.start_date)
          (zone.midnight (request.start_date + request.days))
          events
        ≡ ok stored)
      × (all_of is_valid_event (map stored_event stored) ≡ true)
      × (length (map stored_event stored) + length request.fixed_events ≤ 100)
      × (with_events request stored ≡ merged)
unfolding merged_request
merged_request_lem owner request merged zone events e =
    let (stored, read, e1) =
      returned
        (planning_events owner (zone.midnight request.start_date)
          (zone.midnight (request.start_date + request.days)) events)
        _ e in
    let (u, valid, e2) =
      returned (raise_if (not (all_of is_valid_event (map stored_event stored))) validation_error) _
        e1 in
    let (v, few, e3) =
      returned
        (raise_if (ltb 100 (length (map stored_event stored) + length request.fixed_events))
          (error 422 too_many_fixed_events))
        (λ _. ok (with_events request stored)) e2 in
    let within = raise_if-eq-ok _ _ v few in
    (
      stored,
      read,
      true_of_not _ (raise_if-eq-ok _ _ u valid),
      bound (length (map stored_event stored) + length request.fixed_events) within,
      ok_injective e3,
    )
  where
    bound : (n : ℕ) → ltb 100 n ≡ false → n ≤ 100
    bound n h = ground arith

-- A plan around more events is one around those of the request.
IsPlanned-own :
    (request : PreviewRequest) (stored : List FixedEventRecord) (tasks : List TaskRecord)
    (zone : Zone) (now : Instant) (block : PlanBlock)
    → IsPlanned (with_events request stored) tasks zone now block
    → IsPlanned request tasks zone now block
IsPlanned-own request stored tasks zone now block p = record {
  task = p.task;
  given = p.given;
  active = p.active;
  named = p.named;
  nonempty = p.nonempty;
  not_past = p.not_past;
  after_earliest = p.after_earliest;
  before_deadline = p.before_deadline;
  after_start = p.after_start;
  before_end = p.before_end;
  clear =
      All-append_right (λ (event : FixedEvent). Apart event.window block.window)
        (map stored_event stored) request.fixed_events p.clear;
  available = p.available;
}

make_preview-IsPlannedAround :
    (user : UserView) (request : PreviewRequest) (zone_of : String → Zone) (now : Instant)
    (rows : List TaskRow) (preference_rows : List PreferenceRecord) (events : List EventRow)
    (preview : PlanPreview)
    → HasWholeSeconds (zone_of user.timezone)
    → validate_request request ≡ true
    → length (horizon_events user request (zone_of user.timezone) events) ≤ 100
    → make_preview user request zone_of now rows preference_rows events ≡ ok preview
    → IsPlannedAround user request (zone_of user.timezone) now rows events preview
unfolding make_preview
make_preview-IsPlannedAround user request zone_of now rows preference_rows events preview whole
      valid few e =
    let zone = zone_of user.timezone in
    let start = zone.midnight request.start_date in
    let end = zone.midnight (request.start_date + request.days) in
    let (preferences, had, e1) = returned (get_preferences user.id preference_rows) _ e in
    let (tasks, read, e2) = returned (planning_tasks user.id request.task_ids rows) _ e1 in
    let (merged, joined, e3) = returned (merged_request user.id request zone events) _ e2 in
    let (stored, read_events, all_valid, bounded, same) =
      merged_request_lem user.id request merged zone events joined in
    let plan =
      build_preview_on_grid (with_events request stored) tasks preferences.values user.timezone zone
        now preferences.version max_candidates preview whole
        (with_events-HasGrid request stored valid all_valid)
        (subst
          (λ (r : PreviewRequest).
            build_preview r tasks preferences.values user.timezone zone now preferences.version
              max_candidates
            ≡ ok preview)
          (sym same) e3) in
    record {
      tasks = tasks;
      own = planning_tasks-IsOwnTask user.id request.task_ids rows tasks read;
      valid = record {
        planned =
            All-imp (IsPlanned (with_events request stored) tasks zone now)
              (IsPlanned request tasks zone now) (IsPlanned-own request stored tasks zone now)
              preview.blocks plan.planned;
        apart = plan.apart;
      };
      clear =
          All-imp (IsPlanned (with_events request stored) tasks zone now)
            (λ (block : PlanBlock).
              All (λ row. row.user_id ≡ user.id → Apart (event_window row) block.window) events)
            (λ block p.
              planning_events-clear user.id start end events stored block.window few read_events
                p.after_start p.before_end
                (All-append_left (λ (event : FixedEvent). Apart event.window block.window)
                  (map stored_event stored) request.fixed_events p.clear))
            preview.blocks plan.planned;
      bounded =
          subst (λ n. n + length request.fixed_events ≤ 100)
            (planning_events-length user.id start end events stored few read_events) bounded;
    }

-- A preview that the handler returns for a validated request is a plan of tasks that the request
-- names and the user has, which keeps the hard constraints and meets none of the user's stored
-- events. Those that take time in the horizon are at most 100 here, and then they and the fixed
-- events of the request are at most 100 together. Where no slot is free there is no preview, and
-- else the slot is free again. The zone's midnights have no fractions of a second.
pub preview_schedule-IsPlannedAround :
    (user : UserView) (request : PreviewRequest) (zone_of : String → Zone) (now : Instant)
    (rows : List TaskRow) (preference_rows : List PreferenceRecord) (events : List EventRow)
    (free left : ℕ) (preview : PlanPreview)
    → HasWholeSeconds (zone_of user.timezone)
    → validate_request request ≡ true
    → length (horizon_events user request (zone_of user.timezone) events) ≤ 100
    → preview_schedule user request zone_of now rows preference_rows events free
      ≡ (ok preview, left)
    → IsPlannedAround user request (zone_of user.timezone) now rows events preview
      × (1 ≤ free)
      × (left ≡ free)
unfolding preview_schedule
preview_schedule-IsPlannedAround user request zone_of now rows preference_rows events zero left
      preview whole valid few e =
    absurd (raise≢ok (error 429 planner_busy) preview (ap (λ p. p.0) e))
preview_schedule-IsPlannedAround user request zone_of now rows preference_rows events (suc free)
      left preview whole valid few e =
    (
      make_preview-IsPlannedAround user request zone_of now rows preference_rows events preview
          whole valid few (ap (λ p. p.0) e),
      omega arith,
      sym (ap (λ p. p.1) e) ∙ omega arith,
    )

-- A request without fixed events of its own is never refused for too many of them, however many
-- are stored in its horizon.
pub merged_request-accepts :
    (owner : ℕ) (request : PreviewRequest) (zone : Zone) (events : List EventRow)
    → request.fixed_events ≡ []
    → ¬ (merged_request owner request zone events ≡ raise (error 422 too_many_fixed_events))
unfolding merged_request
merged_request-accepts owner request zone events none e =
    let start = zone.midnight request.start_date in
    let end = zone.midnight (request.start_date + request.days) in
    let refusal = error 422 too_many_fixed_events in
    elim (raised (planning_events owner start end events) _ refusal e) [
      | inl h ↦ differ (planning_events-raise owner start end events refusal h)
      | inr (stored, read, h) ↦
          elim (raised
            (raise_if (not (all_of is_valid_event (map stored_event stored))) validation_error) _
            refusal h) [
              | inl k ↦ differ (raise_if-eq-raise _ validation_error refusal k).1
              | inr (u, valid, k) ↦
                  elim (raised
                    (raise_if
                      (ltb 100 (length (map stored_event stored) + length request.fixed_events))
                      refusal)
                    (λ _. ok (with_events request stored)) refusal k) [
                      | inl l ↦
                          few (length (map stored_event stored)) (length request.fixed_events)
                            (planning_events-le owner start end events stored read) (ap length none)
                            (raise_if-eq-raise _ refusal refusal l).0
                      | inr (v, passed, l) ↦
                          absurd (raise≢ok refusal (with_events request stored) (sym l))
                    ]
            ]
    ]
  where
    differ : validation_error ≡ error 422 too_many_fixed_events → ⊥
    differ h = cc

    few : (n m : ℕ) → n ≤ 100 → m ≡ 0 → ltb 100 (n + m) ≡ true → ⊥
    few n m h none more = ground arith

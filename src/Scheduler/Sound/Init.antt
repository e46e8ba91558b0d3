-- ===== src/Scheduler/Sound/Init.antt =====
-- A planner that `_Planner.__init__` returned.
use mathlib.Core.Bool.{false≢true}
use planer.Prelude.{
  ℕ, zero, suc, ◌≤◌, ◌<◌, ◌≡◌, inl, inr, refl, ap, sym, ◌∙◌, subst, true, false, List, [], map,
  arith, length, replicate, All, Pairs, sort_by,
}
use planer.Errors.{Result, ok, ok_injective, ◌>>=◌, returned}
use planer.Clock.{Instant, Zone}
use planer.Models.{TaskRecord}
use planer.Models.Preferences.{PreferenceValues}
use planer.Planning.{FixedEvent, PreviewRequest}
use planer.Scheduler.Mask.{Mask, Interval, bit, fill}
use planer.Scheduler.Mask.Fill.{length-fill, bit-fill}
use planer.Scheduler.Mask.Gaps.{Covers}
use planer.Scheduler.Setup.{
  Setup, interval, clip, open_windows, block_events, event_before, horizon_start, horizon_size,
  horizon_floor, check_request, make_setup, init,
}
use planer.Scheduler.Sound.{Disjoint, Misses, IsSolid}
use planer.Scheduler.Sound.Masks.{bit-lt-length}
use planer.Scheduler.Sound.Ready.{
  IsChecked, length-open_windows, open_windows-bit, block_events-IsBlocked, check_request-IsChecked,
}

module _ (request : PreviewRequest) (tasks : List TaskRecord) (preferences : PreferenceValues)
    (zone : Zone) (now : Instant) where
  abbrev start : Instant
  start = horizon_start request zone

  abbrev size : ℕ
  size = horizon_size request zone

  -- An available minute is not over, lies in the horizon and in a window, and outside of the
  -- fixed events.
  abbrev IsOpen : List Interval → ℕ → Type 0
  IsOpen busy i =
      (horizon_floor request zone now ≤ i)
      × (i < size)
      × Covers i (map (interval start) request.availability)
      × All (Misses i) busy

  pub record IsReady (planner : Setup) (busy : List Interval) : Type 0 where
    pub checked : IsChecked request tasks zone now
    pub made :
        (available : Mask) × (planner ≡ make_setup request tasks preferences zone now available)
    pub sized : length planner.available ≡ size
    pub events :
        busy
        ≡ map
            (λ (event : FixedEvent). clip start size event.window)
            (sort_by event_before request.fixed_events)
    pub apart : Pairs Disjoint busy
    pub solid : All IsSolid busy
    pub open_minutes : (i : ℕ) → bit planner.available i ≡ true → IsOpen busy i

  bit-replicate : (n i : ℕ) → bit (replicate n false) i ≡ false
  bit-replicate zero i = refl
  bit-replicate (suc n) zero = refl
  bit-replicate (suc n) (suc i) = bit-replicate n i

  length-replicate : (n : ℕ) → length (replicate n false) ≡ n
  length-replicate zero = refl
  length-replicate (suc n) = ap suc (length-replicate n)

  made-IsReady :
      (u : Unit {0}) (opened : Mask) (busy : List Interval) (available : Mask)
      → check_request request tasks zone now ≡ ok u
      → open_windows start size request.availability (replicate size false) ≡ ok opened
      → block_events start size
          (sort_by event_before request.fixed_events)
          []
          (fill false 0 (horizon_floor request zone now) opened)
        ≡ ok (busy, available)
      → IsReady (make_setup request tasks preferences zone now available) busy
  unfolding make_setup
  made-IsReady u opened busy available passed was_opened was_blocked =
      let floor = horizon_floor request zone now in
      let now_open = fill false 0 floor opened in
      let opened_size : length opened ≡ size =
        length-open_windows start size request.availability (replicate size false) opened was_opened
        ∙ length-replicate size in
      let sized = length-fill false 0 floor opened ∙ opened_size in
      let (blocked, events) =
        block_events-IsBlocked start size (sort_by event_before request.fixed_events) [] busy
          now_open now_open available was_blocked
          (record {
            apart = tt;
            solid = tt;
            ordered = tt;
            sized = sized;
            clear = λ i h. (h, tt);
          }) in
      record {
        checked = check_request-IsChecked request tasks zone now u passed;
        made = (available, refl);
        sized = blocked.sized;
        events = events;
        apart = blocked.apart;
        solid = blocked.solid;
        open_minutes = λ i h.
            let was = blocked.clear i h in
            let kept = sym (bit-fill false 0 floor opened i (omega (arith, opened_size))) ∙ was.0 in
            let later : (floor ≤ i) × (bit opened i ≡ true) = (ground arith, ground arith) in
            (
              later.0,
              omega (arith, bit-lt-length opened i later.1, opened_size),
              covered i opened was_opened later.1,
              was.1,
            );
      }
    where
      covered :
          (i : ℕ) (opened : Mask)
          → open_windows start size request.availability (replicate size false) ≡ ok opened
          → bit opened i ≡ true
          → Covers i (map (interval start) request.availability)
      covered i opened e h =
          elim (open_windows-bit start size request.availability (replicate size false) opened i
            (length-replicate size) e h) [
              | inl blank ↦ absurd (false≢true (sym (bit-replicate size i) ∙ blank))
              | inr window ↦ window
            ]

  -- If `__init__` returns, the planner is ready.
  pub init-IsReady :
      (planner : Setup) (busy : List Interval)
      → init request tasks preferences zone now ≡ ok (planner, busy)
      → IsReady planner busy
  unfolding init
  init-IsReady planner busy e =
      let floor = horizon_floor request zone now in
      let blank = replicate size false in
      let finish : List Interval × Mask → Result (Setup × List Interval) =
        λ r. ok (make_setup request tasks preferences zone now r.1, r.0) in
      let block : Mask → Result (List Interval × Mask) = λ opened.
        block_events start size (sort_by event_before request.fixed_events) []
          (fill false 0 floor opened) in
      let opening = open_windows start size request.availability blank in
      let (u, passed, e1) =
        returned (check_request request tasks zone now)
          (λ _. opening >>= λ opened. block opened >>= finish) e in
      let (opened, was_opened, e2) = returned opening (λ opened. block opened >>= finish) e1 in
      let (blocked, was_blocked, e3) = returned (block opened) finish e2 in
      let same = ok_injective e3 in
      subst (λ (p : Setup × List Interval). IsReady p.0 p.1) same
        (made-IsReady u opened blocked.0 blocked.1 passed was_opened was_blocked)

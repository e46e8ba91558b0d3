-- ===== src/Scheduler/Sound/Ready.antt =====
-- `_Planner.__init__`: what holds of a planner that was set up.
use mathlib.Core.List.{append_assoc, append-nil}
use planer.Prelude.{
  ℕ, ◌*◌, ◌≤◌, ◌<◌, ◌≡◌, ◌⊎◌, inl, inr, refl, sym, ap, ◌∙◌, subst, Bool, true, false, not, ◌&&◌,
  ◌||◌, List, [], ◌∷◌, ◌++◌, map, arith, length, All, All-append, All-imp, Pairs, Pairs-snoc,
  Bool-cases, if◌then◌else◌, ltb, leb, ◌==◌, ℤ, pos, negsuc, pos_part, ltb_ℤ,
}
use planer.Errors.{
  Exception, ok, raise_if, error, ◌>>◌, fixed_event_conflict, event_outside_horizon, returned,
  raise_if-eq-ok,
}
use planer.Clock.{Instant, Zone, second_of}
use planer.Models.{TaskRecord}
use planer.Planning.{TimeWindow, FixedEvent, PreviewRequest, all_distinct}
use planer.Scheduler.Mask.{Mask, Interval, bit, fill}
use planer.Scheduler.Mask.Fill.{length-fill, bit-fill}
use planer.Scheduler.Mask.Gaps.{Covers}
use planer.Scheduler.Setup.{
  indices, interval, clip, open_windows, last_end, block_events, horizon_start, horizon_end,
  horizon_size, ids_of, same_ids, check_request,
}
use planer.Scheduler.Sound.{Disjoint, IsSolid, IsClear}
use planer.Scheduler.Sound.Masks.{fill-IsClear}

pub length-open_windows :
    (start : Instant) (size : ℕ) (windows : List TimeWindow) (mask opened : Mask)
    → open_windows start size windows mask ≡ ok opened
    → length opened ≡ length mask
unfolding open_windows
length-open_windows start size [] mask opened e =
    let same : mask ≡ opened = cc in ap length (sym same)
length-open_windows start size (w ∷ rest) mask opened e =
    let iv = indices start w in
    let (u, passed, e') =
      returned _
        (λ _. open_windows start size rest (fill true (pos_part iv.0) (pos_part iv.1) mask)) e in
    length-open_windows start size rest _ opened e' ∙ length-fill true _ _ mask

-- A minute is open after the loop only if it was, or if a window covers it.
pub open_windows-bit :
    (start : Instant) (size : ℕ) (windows : List TimeWindow) (mask opened : Mask) (i : ℕ)
    → length mask ≡ size
    → open_windows start size windows mask ≡ ok opened
    → bit opened i ≡ true
    → (bit mask i ≡ true) ⊎ Covers i (map (interval start) windows)
unfolding open_windows interval
open_windows-bit start size [] mask opened i sized e h =
    let same : mask ≡ opened = cc in inl (subst (λ m. bit m i ≡ true) (sym same) h)
open_windows-bit start size (w ∷ rest) mask opened i sized e h =
    let iv = indices start w in
    let mask' = fill true (pos_part iv.0) (pos_part iv.1) mask in
    let (u, passed, e') = returned _ (λ _. open_windows start size rest mask') e in
    let inside = raise_if-eq-ok _ _ u passed in
    elim (open_windows-bit start size rest mask' opened i (length-fill true _ _ mask ∙ sized) e'
      h) [
        | inr later ↦ inr (inr later)
        | inl here ↦
            let was =
              sym (
                bit-fill true (pos_part iv.0) (pos_part iv.1) mask i
                  (within iv.0 iv.1 mask size sized inside))
              ∙ here in
            opened_by (pos_part iv.0) (pos_part iv.1) (bit mask i) was
      ]
  where
    within :
        (z z' : ℤ) (mask : Mask) (size : ℕ)
        → length mask ≡ size
        → (ltb_ℤ z (pos 0) || ltb_ℤ (pos size) z') ≡ false
        → pos_part z' ≤ length mask
    within z (pos n) mask size sized h = ground arith
    within z (negsuc n) mask size sized h = omega arith

    opened_by :
        {R : Type 0} (l r : ℕ) (b : Bool)
        → (if leb l i && ltb i r then true else b) ≡ true
        → (b ≡ true) ⊎ ((l ≤ i × i < r) ⊎ R)
    opened_by l r b was = elim (Bool-cases (leb l i && ltb i r)) [
      | inl e ↦ inr (inl (ground arith, ground arith))
      | inr e ↦ inl (rw e at was)
    ]

last_end-snoc : (busy : List Interval) (iv : Interval) → last_end (busy ++ iv ∷ []) ≡ iv.1
unfolding last_end
last_end-snoc [] iv = refl
last_end-snoc (a ∷ []) iv = refl
last_end-snoc (a ∷ b ∷ busy) iv = last_end-snoc (b ∷ busy) iv

-- The busy intervals are solid, disjoint and in order, and what stays available lies outside.
pub record IsBlocked (open_mask mask : Mask) (size : ℕ) (busy : List Interval) : Type 0 where
  pub apart : Pairs Disjoint busy
  pub solid : All IsSolid busy
  pub ordered : All (λ (iv : Interval). iv.1 ≤ last_end busy) busy
  pub sized : length mask ≡ size
  pub clear : IsClear open_mask mask busy

IsBlocked-step :
    (open_mask mask : Mask) (size : ℕ) (busy : List Interval) (left right : ℕ)
    → leb right left ≡ false
    → ltb left (last_end busy) ≡ false
    → right ≤ size
    → IsBlocked open_mask mask size busy
    → IsBlocked open_mask (fill false left right mask) size (busy ++ (left, right) ∷ [])
IsBlocked-step open_mask mask size busy left right solid later inside h =
    let solid' : left < right = ground arith in
    let later' : last_end busy ≤ left = ground arith in
    let e = last_end-snoc busy (left, right) in
    record {
      apart =
          Pairs-snoc Disjoint busy (left, right) h.apart
            (All-imp (λ (iv : Interval). iv.1 ≤ last_end busy) (λ iv. Disjoint iv (left, right))
              (λ iv k. inl (omega arith)) busy h.ordered);
      solid = All-append IsSolid busy _ h.solid (solid', tt);
      ordered =
          All-append (λ (iv : Interval). iv.1 ≤ last_end (busy ++ (left, right) ∷ [])) busy _
            (All-imp (λ (iv : Interval). iv.1 ≤ last_end busy)
              (λ iv. iv.1 ≤ last_end (busy ++ (left, right) ∷ [])) (λ iv k. omega arith) busy
              h.ordered)
            (omega arith, tt);
      sized = length-fill false left right mask ∙ h.sized;
      clear = fill-IsClear open_mask mask busy left right (omega (arith, h.sized)) h.clear;
    }

pub block_events-IsBlocked :
    (start : Instant) (size : ℕ) (events : List FixedEvent) (busy busy' : List Interval)
    (open_mask mask mask' : Mask)
    → block_events start size events busy mask ≡ ok (busy', mask')
    → IsBlocked open_mask mask size busy
    → IsBlocked open_mask mask' size busy'
      × (busy' ≡ busy ++ map (λ (event : FixedEvent). clip start size event.window) events)
unfolding block_events
block_events-IsBlocked start size [] busy busy' open_mask mask mask' e h =
    let same : busy ≡ busy' = cc in
    let same' : mask ≡ mask' = cc in
    (
      subst (λ m. IsBlocked open_mask m size busy') same'
          (subst (λ b. IsBlocked open_mask mask size b) same h),
      sym same ∙ sym (append-nil busy),
    )
block_events-IsBlocked start size (event ∷ rest) busy busy' open_mask mask mask' e h =
    let iv = clip start size event.window in
    let more = block_events start size rest (busy ++ iv ∷ []) (fill false iv.0 iv.1 mask) in
    let first = raise_if (leb iv.1 iv.0) (error 422 event_outside_horizon) in
    let second = raise_if (ltb iv.0 (last_end busy)) (error 409 fixed_event_conflict) in
    let (v, both, e'') = returned (first >> second) (λ _. more) e in
    let (u, solid, later) = returned first (λ _. second) both in
    let (blocked, split) =
      block_events-IsBlocked start size rest (busy ++ iv ∷ []) busy' open_mask
        (fill false iv.0 iv.1 mask) mask' e''
        (IsBlocked-step open_mask mask size busy iv.0 iv.1 (raise_if-eq-ok _ _ u solid)
          (raise_if-eq-ok _ _ v later) (clip-le-size event.window) h) in
    (blocked, split ∙ append_assoc busy (iv ∷ []) _)
  where
    clip-le-size : (w : TimeWindow) → (clip start size w).1 ≤ size
    clip-le-size w = unfold clip in omega arith

-- What `check_request` lets through.
pub record IsChecked (request : PreviewRequest) (tasks : List TaskRecord) (zone : Zone)
    (now : Instant) : Type 0 where
  pub today : zone.local_date now ≤ request.start_date
  pub nonempty : 1 ≤ horizon_size request zone
  pub bounded : horizon_size request zone ≤ 8 * 1440
  pub start_second : second_of (horizon_start request zone) ≡ 0
  pub end_second : second_of (horizon_end request zone) ≡ 0
  pub distinct : all_distinct (ids_of tasks) ≡ true

four_checks :
    (a b c d : Bool) (p q r s : Exception) (u : Unit {0})
    → (raise_if a p >> (raise_if b q >> (raise_if c r >> raise_if d s))) ≡ ok u
    → (a ≡ false) × (b ≡ false) × (c ≡ false) × (d ≡ false)
four_checks false false false false p q r s u e = (refl, refl, refl, refl)
four_checks false false false true p q r s u e = cc
four_checks false false true d p q r s u e = cc
four_checks false true c d p q r s u e = cc
four_checks true b c d p q r s u e = cc

pub check_request-IsChecked :
    (request : PreviewRequest) (tasks : List TaskRecord) (zone : Zone) (now : Instant)
    (u : Unit {0})
    → check_request request tasks zone now ≡ ok u
    → IsChecked request tasks zone now
unfolding check_request
check_request-IsChecked request tasks zone now u e =
    let size = horizon_size request zone in
    let (past, bad_day, bad_second, bad_ids) =
      four_checks (ltb request.start_date (zone.local_date now))
        (not (leb 1 size && leb size (8 * 1440))
          || not (zone.local_date (horizon_start request zone) == request.start_date))
        (not (second_of (horizon_start request zone) == 0)
          || not (second_of (horizon_end request zone) == 0))
        (not (all_distinct (ids_of tasks)) || not (same_ids (ids_of tasks) request.task_ids)) _ _ _
        _ u e in
    record {
      today = ground arith;
      nonempty = ground arith;
      bounded = ground arith;
      start_second = ground arith;
      end_second = ground arith;
      distinct = ground arith;
    }

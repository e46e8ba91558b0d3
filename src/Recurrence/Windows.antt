-- ===== src/Recurrence/Windows.antt =====
-- `occurrence_window`: the instants between which the task of an occurrence lies.
use planer.Prelude.{
  Bool, subst, ℕ, ◌+◌, ◌-◌, ◌*◌, ◌≤◌, ◌<◌, ◌≡◌, ◌||◌, not, false, true, some, arith, ltb, leb, refl,
  ◌==◌,
}
use planer.Errors.{
  ok, raise_if, error, ◌>>◌, returned, raise_if-eq-ok, ok_injective, occurrence_too_long,
}
use planer.Clock.{Instant, Date, Zone, minute}
use planer.Models.{validate_time_window}
use planer.Recurrence.{occurrence_window}

-- What a window that is returned is.
pub record IsWindow (zone : Zone) (day : Date) (duration : ℕ) (window : Instant × Instant)
    : Type 0 where
  pub opens : window.0 ≡ zone.midnight day
  pub closes : window.1 ≡ zone.midnight (day + 1)
  pub holds_task : window.0 + duration * minute ≤ window.1
  pub positive : window.0 < window.1
  pub own_day : zone.local_date window.0 ≡ day

pub occurrence_window-IsWindow :
    (zone : Zone) (day : Date) (duration : ℕ) (window : Instant × Instant)
    → occurrence_window zone day duration ≡ ok window
    → IsWindow zone day duration window
unfolding occurrence_window
occurrence_window-IsWindow zone day duration window e =
    let (u, exists, long_enough) =
      returned _ (λ _. raise_if too_long (error 422 occurrence_too_long) >> ok (opening, closing))
        e in
    let (v, long, same) =
      returned (raise_if too_long (error 422 occurrence_too_long)) (λ _. ok (opening, closing))
        long_enough in
    subst (IsWindow zone day duration) (ok_injective same)
      (made (raise_if-eq-ok _ _ u exists) (raise_if-eq-ok _ _ v long))
  where
    opening : Instant
    opening = zone.midnight day

    closing : Instant
    closing = zone.midnight (day + 1)

    too_long : Bool
    too_long = ltb (closing - opening) (duration * minute)

    made :
        leb (zone.midnight (day + 1)) (zone.midnight day)
            || not (zone.local_date (zone.midnight day) == day)
          ≡ false
        → ltb (zone.midnight (day + 1) - zone.midnight day) (duration * minute) ≡ false
        → IsWindow zone day duration (zone.midnight day, zone.midnight (day + 1))
    made exists long = record {
      opens = refl;
      closes = refl;
      holds_task = ground arith;
      positive = ground arith;
      own_day = ground arith;
    }

-- The windows of two days that follow each other meet at the midnight between them, the times of
-- the task of an occurrence hold its duration, as the tasks' own validator wants it, and the window
-- starts on its day.
pub occurrence_window_lem :
    (zone : Zone) (day : Date) (duration following_duration : ℕ)
    (window following : Instant × Instant)
    → occurrence_window zone day duration ≡ ok window
    → occurrence_window zone (day + 1) following_duration ≡ ok following
    → (window.1 ≡ following.0)
      × (zone.local_date window.0 ≡ day)
      × (validate_time_window
            (record { earliest_start = some window.0; deadline = some window.1 })
            duration
          ≡ true)
unfolding validate_time_window
occurrence_window_lem zone day duration following_duration window following e e' =
    let w = occurrence_window-IsWindow zone day duration window e in
    let v = occurrence_window-IsWindow zone (day + 1) following_duration following e' in
    (cc (w.closes, v.opens), w.own_day, ground (arith, w.holds_task))

-- ===== src/Recurrence/Dates.antt =====
-- `occurrence_dates` against the calendar that a pattern describes.
use planer.Prelude.{
  ℕ, zero, suc, ◌+◌, ◌-◌, ◌*◌, ◌/◌, ◌%◌, ◌==◌, ◌≤◌, ◌<◌, ◌≡◌, ◌↔◌, ◌⊎◌, inl, inr, refl, sym, subst,
  true, false, Option, none, some, List, [], ◌∷◌, arith, All, All-imp, All-at, Pairs, In,
  Bool-cases, true_of_not, not, ◌||◌, if◌then◌else◌, ltb,
}
use planer.Errors.{ok, raise_if, value_error, returned, ok_injective}
use planer.Clock.{Date}
use planer.Recurrence.{
  Weekday, Frequency, RecurrenceValues, if_some, weekday, has_weekday, is_outside, is_off_week,
  is_off_weekdays, select_days, occurrence_dates,
}

abbrev pub NotAfter : Option Date → Date → Type 0
NotAfter none day = Unit
NotAfter (some last) day = day ≤ last

abbrev pub Fits : Frequency → Date → List Weekday → Date → Type 0
Fits Frequency.daily first selected day = Unit
Fits Frequency.weekdays first selected day = has_weekday (weekday day) selected ≡ true
Fits Frequency.weekly first selected day = (weeks : ℕ) × (day ≡ first + 7 * weeks)

-- A day of the pattern: not before its first day and not after its last one; every day, each of
-- the selected weekdays, or whole weeks behind the first day.
pub record IsOccurrence (values : RecurrenceValues) (day : Date) : Type 0 where
  pub started : values.start_date ≤ day
  pub lasting : NotAfter values.end_date day
  pub fitting : Fits values.frequency values.start_date values.weekdays day

-- Whole weeks behind the first day, by the weekday.
whole_weeks : (a b : ℕ) → a ≤ b → (b + 6) % 7 ≡ (a + 6) % 7 → b ≡ a + 7 * ((b - a) / 7)
whole_weeks a b h k = omega arith

same_weekday : (a weeks : ℕ) → (a + 7 * weeks + 6) % 7 ≡ (a + 6) % 7
same_weekday a weeks = omega arith

not_after :
    (last : Option Date) (day : Date) → if_some (λ d. ltb d day) last ≡ false → NotAfter last day
not_after none day h = tt
not_after (some last) day h = ground arith

after :
    (last : Option Date) (day : Date) → if_some (λ d. ltb d day) last ≡ true → ¬ NotAfter last day
after none day h k = cc
after (some last) day h k = ground arith

fits :
    (f : Frequency) (first : Date) (selected : List Weekday) (day : Date)
    → first ≤ day
    → is_off_week f first day ≡ false
    → is_off_weekdays f selected day ≡ false
    → Fits f first selected day
unfolding is_off_week is_off_weekdays weekday
fits Frequency.daily first selected day h k l = tt
fits Frequency.weekdays first selected day h k l = true_of_not _ l
fits Frequency.weekly first selected day h k l =
    ((day - first) / 7, whole_weeks first day h (ground arith))

off_week :
    (f : Frequency) (first : Date) (selected : List Weekday) (day : Date)
    → is_off_week f first day ≡ true
    → ¬ Fits f first selected day
unfolding is_off_week weekday
off_week Frequency.daily first selected day k h = cc
off_week Frequency.weekdays first selected day k h = cc
off_week Frequency.weekly first selected day k (weeks, e) =
    ground (arith, same_weekday first weeks, e)

off_weekdays :
    (f : Frequency) (first : Date) (selected : List Weekday) (day : Date)
    → is_off_weekdays f selected day ≡ true
    → ¬ Fits f first selected day
unfolding is_off_weekdays weekday
off_weekdays Frequency.daily first selected day k h = cc
off_weekdays Frequency.weekdays first selected day k h = ground (arith, k, h)
off_weekdays Frequency.weekly first selected day k h = cc

module _ (values : RecurrenceValues) where
  -- A round of the loop: the day is selected just when it is an occurrence.
  select_cases :
      (left : ℕ) (day : Date)
      → (IsOccurrence values day
          × (select_days values (suc left) day ≡ day ∷ select_days values left (day + 1)))
        ⊎ ((¬ IsOccurrence values day)
            × (select_days values (suc left) day ≡ select_days values left (day + 1)))
  unfolding select_days is_outside
  select_cases left day = elim (Bool-cases (ltb day values.start_date)) [
    | inl e ↦ inr (λ h. ground (arith, h.started), rw e refl)
    | inr e ↦ elim (Bool-cases (if_some (λ last. ltb last day) values.end_date)) [
      | inl k ↦ inr (λ h. after values.end_date day k h.lasting, rw (e, k) refl)
      | inr k ↦ elim (Bool-cases (is_off_week values.frequency values.start_date day)) [
        | inl l ↦ inr (
          λ h. off_week values.frequency values.start_date values.weekdays day l h.fitting,
          rw (e, k, l) refl,
        )
        | inr l ↦ elim (Bool-cases (is_off_weekdays values.frequency values.weekdays day)) [
          | inl m ↦ inr (
            λ h. off_weekdays values.frequency values.start_date values.weekdays day m h.fitting,
            rw (e, k, l, m) refl,
          )
          | inr m ↦ inl (
            record {
              started = ground arith;
              lasting = not_after values.end_date day k;
              fitting =
                  fits values.frequency values.start_date values.weekdays day (ground arith) l m;
            },
            rw (e, k, l, m) refl,
          )
        ]
      ]
    ]
  ]

  -- A day of the pattern among `left` days from `day`.
  abbrev pub Selected : Date → ℕ → Date → Type 0
  Selected day left d = day ≤ d × d < day + left × IsOccurrence values d

  Selected-later :
      (day : Date) (left : ℕ) (d : Date) → Selected (day + 1) left d → Selected day (suc left) d
  Selected-later day left d h = (omega (arith, h.0), omega (arith, h.1), h.2)

  -- The days that the loop selects are occurrences among those that it looks at, in order.
  Selected-sound :
      (left : ℕ) (day : Date)
      → All (Selected day left) (select_days values left day)
        × Pairs ◌<◌ (select_days values left day)
  Selected-sound zero day = unfold select_days in (tt, tt)
  Selected-sound (suc left) day =
      let (range, order) = Selected-sound left (day + 1) in
      let later = All-imp _ _ (Selected-later day left) (select_days values left (day + 1)) range in
      elim (select_cases left day) [
        | inl h ↦ rw h.1 (
          ((omega arith, omega arith, h.0), later),
          (
            All-imp _ (λ d. day < d) (λ d k. omega (arith, k.0)) (select_days values left (day + 1))
                range,
            order,
          ),
        )
        | inr h ↦ rw h.1 (later, order)
      ]

  -- None of the occurrences among them is passed over.
  Selected-complete :
      (left : ℕ) (day other : Date)
      → Selected day left other
      → In (select_days values left day) other
  Selected-complete zero day other h = absurd (omega (arith, h.0, h.1))
  Selected-complete (suc left) day other h = elim (first_or_later day other h.0) [
    | inl same ↦ elim (select_cases left day) [
      | inl k ↦ rw k.1 (inl same)
      | inr k ↦ absurd (k.0 (subst (IsOccurrence values) (sym same) h.2))
    ]
    | inr later ↦
        let there = Selected-complete left (day + 1) other (later, omega (arith, h.1), h.2) in
        elim (select_cases left day) [ inl k ↦ rw k.1 (inr there) | inr k ↦ rw k.1 there ]
  ]
    where
      first_or_later : (a b : ℕ) → a ≤ b → (a ≡ b) ⊎ (a + 1 ≤ b)
      first_or_later a b h = ground arith

-- A list of dates that `occurrence_dates` returns is in strictly increasing order, and a day is in
-- it just when the pattern is active, the day is one of those asked for, and the day is an
-- occurrence of the pattern.
pub occurrence_dates_exact :
    (values : RecurrenceValues) (start : Date) (days : ℕ) (dates : List Date)
    → occurrence_dates values start days ≡ ok dates
    → Pairs ◌<◌ dates
      × ((day : Date) → In dates day ↔ ((values.active ≡ true) × Selected values start days day))
unfolding occurrence_dates
occurrence_dates_exact values start days dates e =
    let (u, passed, chosen) =
      returned (raise_if (not (days == 1 || days == 7)) value_error)
        (λ _. if values.active then ok (select_days values days start) else ok []) e in
    elim (Bool-cases values.active) [
      | inl active ↦
          let same : select_days values days start ≡ dates = ok_injective (rw active at chosen) in
          subst
            (λ ds.
              Pairs ◌<◌ ds
              × ((day : Date)
                  → In ds day ↔ ((values.active ≡ true) × Selected values start days day)))
            same
            (
              (Selected-sound values days start).1,
              λ day. (
                λ there.
                    (active, found days start _ day (Selected-sound values days start).0 there),
                λ h. Selected-complete values days start day h.1,
              ),
            )
      | inr idle ↦
          let same : [] ≡ dates = ok_injective (rw idle at chosen) in
          subst
            (λ ds.
              Pairs ◌<◌ ds
              × ((day : Date)
                  → In ds day ↔ ((values.active ≡ true) × Selected values start days day)))
            same (tt, λ day. (λ there. absurd there, λ h. ground (arith, h.0, idle)))
    ]
  where
    found :
        (days : ℕ) (start : Date) (ds : List Date) (day : Date)
        → All (Selected values start days) ds
        → In ds day
        → Selected values start days day
    found days start ds day range there =
        let (d, h, same) = All-at (Selected values start days) (λ d. d ≡ day) ds range there in
        subst (Selected values start days) same h

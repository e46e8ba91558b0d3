-- ===== src/Series/Occurrences/Again.antt =====
-- `materialize` is safe to send again: what was made the first time is found the second time.
use mathlib.Core.List.{append-nil}
use mathlib.Core.Bool.{false≢true}
use planer.Prelude.{
  ℕ, ◌+◌, ◌≡◌, ◌≤◌, ◌<◌, ◌⊎◌, ◌↔◌, ◌||◌, inl, inr, refl, sym, ap, ◌∙◌, subst, String, Bool, true,
  false, not, ◌&&◌, List, [], ◌++◌, arith, All, All-imp, All-In, All-append, All-at,
  All-filter_test, Any-filter_if, sort_by, Any, Any-imp, Any-append, Any-append_left,
  Any-append_right, In, filter_if, filter_if-none, filter_if-same, any_of-false, contains,
  Bool-cases, ltb, All-In_at, some_injective,
}
use planer.Errors.{ok}
use planer.Clock.{Instant, Date, Zone}
use planer.Models.{TaskRecord}
use planer.Recurrence.Dates.{occurrence_dates_exact}
use planer.Repository.{TaskRow, validated_all}
use planer.Series.{RecurrenceRow}
use planer.Series.Occurrences.{
  OccurrenceRequest, OccurrenceResult, Fresh, is_occurrence, by_date, find_occurrences, dates_of,
  occurrence_rows, insert_occurrences, new_dates, skipped_dates, materialize,
}
use planer.Series.Occurrences.Rows.{
  IsValid, validated_all-IsValid, IsValid-validated_all, Occurs, find_occurrences_iff, found_iff,
  IsAdded, occurrence_rows-IsAdded,
}
use planer.Series.Occurrences.Runs.{get_series-id, Materialized, materialize_lem}

module _ (fresh : Date → Fresh) (no_digest : ℕ) (zone_of : String → Zone) (owner id : ℕ)
    (request : OccurrenceRequest) (now : Instant) (table : List RecurrenceRow)
    (rows : List TaskRow) where
  module _ (result : OccurrenceResult) (t : List TaskRow)
      (run : Materialized fresh no_digest zone_of owner id request now table rows result t) where
    abbrev zone : Zone
    zone = zone_of run.series.timezone

    abbrev before : List Date
    before = dates_of (find_occurrences owner id request.start_date request.days rows)

    abbrev after : List Date
    after = dates_of (find_occurrences owner id request.start_date request.days t)

    abbrev made_dates : List Date
    made_dates = new_dates before (zone.local_date now) run.days

    abbrev OccursOn : Date → TaskRow → Type 0
    OccursOn = Occurs owner id request.start_date request.days

    -- The days that the pattern has are days of the request.
    within :
        (day : Date)
        → In run.days day
        → (request.start_date ≤ day) × (day < request.start_date + request.days)
    within day member =
        let (order, exact) =
          occurrence_dates_exact run.series.values request.start_date request.days run.days
            run.chosen in
        let selected = ((exact day).0 member).1 in (selected.0, selected.1)

    -- A row that was added is one of the query.
    added-Occurs :
        (day : Date) (row : TaskRow)
        → In run.days day
        → IsAdded fresh no_digest zone owner run.series now day row
        → OccursOn day row
    added-Occurs day row member h =
        let (low, high) = within day member in
        let same = get_series-id owner id table run.series run.found in
        (rw (h.0, h.1, h.2, same) (ground arith), h.2)

    -- A date that there was is there afterwards.
    kept : (day : Date) → contains day before ≡ true → contains day after ≡ true
    kept day h =
        let old = (find_occurrences_iff owner id request.start_date request.days rows day).0 h in
        (find_occurrences_iff owner id request.start_date request.days t day).1 (
          subst (Any (OccursOn day)) (sym run.wrote)
            (Any-append_left (OccursOn day) rows run.added old))

    -- A date that was made is there afterwards.
    made-after : (day : Date) → In run.days day → In made_dates day → contains day after ≡ true
    made-after day chosen member =
        let each =
          (occurrence_rows-IsAdded fresh no_digest zone owner run.series now made_dates run.added
            run.made).0 in
        let there =
          All-In_at (λ d. Any (IsAdded fresh no_digest zone owner run.series now d) run.added)
            made_dates day each member in
        (find_occurrences_iff owner id request.start_date request.days t day).1 (
          subst (Any (OccursOn day)) (sym run.wrote) (
            Any-append_right (OccursOn day) rows run.added (
              Any-imp (IsAdded fresh no_digest zone owner run.series now day) (OccursOn day)
                (λ row. added-Occurs day row chosen) run.added there)))

    -- There is no other date afterwards.
    after_cases :
        (day : Date) → contains day after ≡ true → (contains day before ≡ true) ⊎ In made_dates day
    after_cases day h =
        let there =
          subst (Any (OccursOn day)) run.wrote
            ((find_occurrences_iff owner id request.start_date request.days t day).0 h) in
        elim (Any-append (OccursOn day) rows run.added there) [
          | inl old ↦
              inl ((find_occurrences_iff owner id request.start_date request.days rows day).1 old)
          | inr new ↦
              let all =
                (occurrence_rows-IsAdded fresh no_digest zone owner run.series now made_dates
                  run.added run.made).1 in
              let (row, from, occurs) =
                All-at
                  (λ row.
                    Any (λ d. IsAdded fresh no_digest zone owner run.series now d row) made_dates)
                  (OccursOn day) run.added all new in
              inr (
                Any-imp (λ d. IsAdded fresh no_digest zone owner run.series now d row)
                  (λ d. d ≡ day) (λ d a. some_injective (sym a.2 ∙ occurs.1)) made_dates from)
        ]

    abbrev is_made : Date → Bool
    is_made day = not (contains day before) && not (ltb day (zone.local_date now))

    made_iff : (day : Date) → In run.days day → (In made_dates day ↔ (is_made day ≡ true))
    unfolding new_dates
    made_iff day member = (
      λ h. All-In_at (λ d. is_made d ≡ true) made_dates day (All-filter_test is_made run.days) h,
      λ h.
          Any-filter_if (λ d. d ≡ day) is_made run.days
            (Any-imp (λ d. d ≡ day) (λ d. (is_made d ≡ true) × (d ≡ day))
              (λ d e. (ap is_made e ∙ h, e)) run.days member),
    )

    -- Of the days of the pattern, there are those that there were and those that are not past.
    there_now :
        (day : Date)
        → In run.days day
        → contains day after ≡ (contains day before || not (ltb day (zone.local_date now)))
    there_now day member = elim (Bool-cases (contains day before)) [
      | inl old ↦ rw (old, kept day old) refl
      | inr new ↦ elim (Bool-cases (ltb day (zone.local_date now))) [
        | inr future ↦
            rw (new, future) (made-after day member ((made_iff day member).1 (ground arith)))
        | inl past ↦ elim (Bool-cases (contains day after)) [
          | inr absent ↦ rw (new, past, absent) refl
          | inl present ↦ elim (after_cases day present) [
            | inl old ↦ absurd (false≢true (sym new ∙ old))
            | inr made ↦ absurd (not_made new past ((made_iff day member).0 made))
          ]
        ]
      ]
    ]
      where
        not_made :
            contains day before ≡ false
            → ltb day (zone.local_date now) ≡ true
            → is_made day ≡ true
            → ⊥
        not_made new past made = ground arith

    module _ (later : Instant) (clock : zone.local_date now ≤ zone.local_date later) where
      none_new : new_dates after (zone.local_date later) run.days ≡ []
      unfolding new_dates
      none_new =
          let test =
            λ (day : Date). not (contains day after) && not (ltb day (zone.local_date later)) in
          filter_if-none test run.days (
            (any_of-false test run.days).1 (
              All-imp (In run.days) (λ day. test day ≡ false)
                (λ day member. old_or_past day (there_now day member)) run.days (All-In run.days)))
        where
          old_or_past :
              (day : Date)
              → contains day after ≡ (contains day before || not (ltb day (zone.local_date now)))
              → (not (contains day after) && not (ltb day (zone.local_date later))) ≡ false
          old_or_past day e = ground arith

      same_skipped :
          skipped_dates after (zone.local_date later) run.days
          ≡ skipped_dates before (zone.local_date now) run.days
      unfolding skipped_dates
      same_skipped =
          filter_if-same (λ day. not (contains day after) && ltb day (zone.local_date later))
            (λ day. not (contains day before) && ltb day (zone.local_date now)) run.days
            (All-imp (In run.days) _ (λ day member. same day (there_now day member)) run.days
              (All-In run.days))
        where
          same :
              (day : Date)
              → contains day after ≡ (contains day before || not (ltb day (zone.local_date now)))
              → (not (contains day after) && ltb day (zone.local_date later))
                ≡ (not (contains day before) && ltb day (zone.local_date now))
          same day e = ground arith

    -- The rows that are found afterwards are valid.
    valid_after :
        (tasks : List TaskRecord) × (validated_all (
            filter_if
              (λ row. not row.deleted)
              (find_occurrences owner id request.start_date request.days t))
          ≡ ok tasks)
    valid_after =
        let test = is_occurrence owner id request.start_date request.days in
        let needed : TaskRow → Type 0 =
          λ row. test row ≡ true → not row.deleted ≡ true → IsValid row in
        let old : All needed rows =
          (found_iff owner id request.start_date request.days IsValid rows).0
            (validated_all-IsValid _ run.tasks run.valid) in
        let new : All needed run.added =
          All-imp IsValid needed (λ row h a b. h) run.added
            (validated_all-IsValid run.added run.inserted run.valid_added) in
        IsValid-validated_all _ (
          (found_iff owner id request.start_date request.days IsValid t).1
            (subst (All needed) (sym run.wrote) (All-append needed rows run.added old new)))

-- Occurrences that were made, asked for again with any new identifiers, when the date in the zone
-- is not earlier: the second run returns, makes no task, leaves the table as it is, and passes over
-- the same days of the past.
pub materialize_again :
    (fresh fresh₂ : Date → Fresh) (no_digest : ℕ) (zone_of : String → Zone) (owner id : ℕ)
    (request : OccurrenceRequest) (now later : Instant) (table : List RecurrenceRow)
    (rows : List TaskRow) (result : OccurrenceResult) (t : List TaskRow)
    → materialize fresh no_digest zone_of owner id request now table rows ≡ ok (result, t)
    → ((name : String) → (zone_of name).local_date now ≤ (zone_of name).local_date later)
    → (again : OccurrenceResult) × (materialize fresh₂ no_digest zone_of owner id request later
          table t
        ≡ ok (again, t))
      × (again.created_count ≡ 0)
      × (again.skipped_past_dates ≡ result.skipped_past_dates)
unfolding materialize insert_occurrences occurrence_rows validated_all
materialize_again fresh fresh₂ no_digest zone_of owner id request now later table rows result t e
      clock =
    let run = materialize_lem fresh no_digest zone_of owner id request now table rows result t e in
    let (tasks, valid) =
      valid_after fresh no_digest zone_of owner id request now table rows result t run in
    let none =
      none_new fresh no_digest zone_of owner id request now table rows result t run later
        (clock run.series.timezone) in
    let skipped =
      same_skipped fresh no_digest zone_of owner id request now table rows result t run later
        (clock run.series.timezone) in
    let there = find_occurrences owner id request.start_date request.days t in
    (
      record {
        recurrence_id = run.series.id;
        recurrence_version = run.series.version;
        tasks = sort_by by_date (tasks ++ []);
        created_count = 0;
        deleted_dates = sort_by ltb (dates_of (filter_if (λ row. row.deleted) there));
        skipped_past_dates =
            skipped_dates (dates_of there) ((zone_of run.series.timezone).local_date later)
              run.days;
      },
      rw (run.found, run.checked, valid, run.chosen, none, append-nil t) refl,
      refl,
      skipped ∙ sym run.skipped,
    )

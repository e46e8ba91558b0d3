-- ===== src/Series/Occurrences/Runs.antt =====
-- What `materialize` has done once it returned.
use planer.Prelude.{
  ℕ, ◌≡◌, inl, inr, sym, ap, ◌∙◌, String, true, false, not, ◌&&◌, List, ◌++◌, arith, filter_if,
  find_if, find_if-test, Option-cases,
}
use planer.Errors.{
  Result, ok, raise_if, raise≢ok, not_found, validation_error, returned, ok_injective,
}
use planer.Clock.{Instant, Date, Zone}
use planer.Models.{TaskRecord, is_version}
use planer.Recurrence.{occurrence_dates, validate_values, unique_sorted_weekdays}
use planer.Repository.{TaskRow, validated_all}
use planer.Series.{
  RecurrenceRecord, RecurrenceRow, is_live_series, as_validation, validated_series, get_series,
  check_version,
}
use planer.Series.Occurrences.{
  OccurrenceRequest, OccurrenceResult, Fresh, find_occurrences, dates_of, occurrence_rows,
  insert_occurrences, new_dates, skipped_dates, materialize,
}

-- The series that is read has the identifier that was asked for.
pub get_series-id :
    (owner id : ℕ) (table : List RecurrenceRow) (series : RecurrenceRecord)
    → get_series owner id table ≡ ok series
    → series.id ≡ id
unfolding get_series validated_series
get_series-id owner id table series e =
    elim (Option-cases (find_if (is_live_series owner id) table)) [
      | inl k ↦ absurd (raise≢ok not_found series (rw (k, get_series) at e))
      | inr (row, k) ↦
          let (weekdays, sorted, e1) =
            returned (as_validation (unique_sorted_weekdays row.series.weekdays)) _
              (rw (k, get_series) at e) in
          let (u, valid, e2) =
            returned
              (raise_if
                (not (
                  validate_values (record row.series.values { weekdays = weekdays })
                  && is_version row.series.version))
                validation_error)
              _ e1 in
          let passed = find_if-test (is_live_series owner id) table row k in
          ap (λ (r : RecurrenceRecord). r.id) (sym (ok_injective e2)) ∙ same_id row passed
    ]
  where
    same_id : (row : RecurrenceRow) → is_live_series owner id row ≡ true → row.series.id ≡ id
    same_id row passed = ground arith

module _ (fresh : Date → Fresh) (no_digest : ℕ) (zone_of : String → Zone) (owner id : ℕ)
    (request : OccurrenceRequest) (now : Instant) (table : List RecurrenceRow)
    (rows : List TaskRow) where
  -- The steps of a run that returned.
  pub record Materialized (result : OccurrenceResult) (t : List TaskRow) : Type 0 where
    pub series : RecurrenceRecord
    pub tasks : List TaskRecord
    pub days : List Date
    pub added : List TaskRow
    pub inserted : List TaskRecord
    pub found : get_series owner id table ≡ ok series
    pub checked : check_version series request.expected_version false ≡ ok tt
    pub valid :
        validated_all (
          filter_if
            (λ row. not row.deleted)
            (find_occurrences owner id request.start_date request.days rows))
        ≡ ok tasks
    pub chosen : occurrence_dates series.values request.start_date request.days ≡ ok days
    pub made :
        occurrence_rows fresh no_digest (zone_of series.timezone) owner series now (
          new_dates
            (dates_of (find_occurrences owner id request.start_date request.days rows))
            ((zone_of series.timezone).local_date now)
            days)
        ≡ ok added
    pub valid_added : validated_all added ≡ ok inserted
    pub wrote : t ≡ rows ++ added
    pub skipped :
        result.skipped_past_dates
        ≡ skipped_dates
            (dates_of (find_occurrences owner id request.start_date request.days rows))
            ((zone_of series.timezone).local_date now)
            days

  at_unit : {r : Result (Unit {0})} (u : Unit {0}) → r ≡ ok u → r ≡ ok tt
  at_unit tt h = h

  pub materialize_lem :
      (result : OccurrenceResult) (t : List TaskRow)
      → materialize fresh no_digest zone_of owner id request now table rows ≡ ok (result, t)
      → Materialized result t
  unfolding materialize insert_occurrences
  materialize_lem result t e =
      let (series, found, e1) = returned (get_series owner id table) _ e in
      let (u, checked, e2) = returned (check_version series request.expected_version false) _ e1 in
      let zone = zone_of series.timezone in
      let there = find_occurrences owner id request.start_date request.days rows in
      let (tasks, valid, e3) =
        returned (validated_all (filter_if (λ row. not row.deleted) there)) _ e2 in
      let (days, chosen, e4) =
        returned (occurrence_dates series.values request.start_date request.days) _ e3 in
      let dates = new_dates (dates_of there) (zone.local_date now) days in
      let ((inserted, written), put, e5) =
        returned (insert_occurrences fresh no_digest zone owner series now dates rows) _ e4 in
      let (added, made, e6) =
        returned (occurrence_rows fresh no_digest zone owner series now dates) _ put in
      let (tasks_added, valid_added, e7) = returned (validated_all added) _ e6 in
      let same = ok_injective e5 in
      record {
        series = series;
        tasks = tasks;
        days = days;
        added = added;
        inserted = tasks_added;
        found = found;
        checked = at_unit u checked;
        valid = valid;
        chosen = chosen;
        made = made;
        valid_added = valid_added;
        wrote =
            ap (λ (p : OccurrenceResult × List TaskRow). p.1) (sym same)
            ∙ ap (λ (p : List TaskRecord × List TaskRow). p.1) (sym (ok_injective e7));
        skipped = ap (λ (p : OccurrenceResult × List TaskRow). p.0.skipped_past_dates) (sym same);
      }

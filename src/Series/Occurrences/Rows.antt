-- ===== src/Series/Occurrences/Rows.antt =====
-- The rows that `materialize` finds and adds: their dates, and whether they are valid.
use planer.Prelude.{
  ℕ, ◌≡◌, ◌⊎◌, ◌↔◌, inl, inr, refl, ap, ◌∙◌, subst, Bool, true, not, some, List, [], ◌∷◌, arith,
  All, All-imp, All-unsort_by, All-sort_by, All-unfilter_if, All-refilter_if, Any, Any-filter_if,
  Any-unfilter_if, Any-sort_by, Any-unsort_by, any_of-Any, filter_if, contains, Option-cases,
  true_of_not, ◌==◌,
}
use planer.Errors.{ok, raise_if, returned, raise_if-eq-ok, ok_injective, validation_error}
use planer.Clock.{Instant, Date, Zone}
use planer.Models.{TaskRecord, validate_record}
use planer.Recurrence.{occurrence_window}
use planer.Repository.{TaskRow, validated, validated_all}
use planer.Series.{RecurrenceRecord}
use planer.Series.Occurrences.{
  is_occurrence, by_id, find_occurrences, dates_of, Fresh, occurrence_row, occurrence_rows,
}

abbrev pub IsValid : TaskRow → Type 0
IsValid row = validate_record row.task ≡ true

abbrev pub HasDate : Date → TaskRow → Type 0
HasDate day row = row.task.occurrence_date ≡ some day

validated-IsValid : (row : TaskRow) (task : TaskRecord) → validated row.task ≡ ok task → IsValid row
unfolding validated
validated-IsValid row task e =
    let (u, valid, e1) =
      returned (raise_if (not (validate_record row.task)) validation_error) (λ _. ok row.task) e in
    true_of_not _ (raise_if-eq-ok _ _ u valid)

pub validated_all-IsValid :
    (rows : List TaskRow) (tasks : List TaskRecord)
    → validated_all rows ≡ ok tasks
    → All IsValid rows
unfolding validated_all
validated_all-IsValid [] tasks e = tt
validated_all-IsValid (row ∷ rest) tasks e =
    let (task, valid, e1) = returned (validated row.task) _ e in
    let (others, valid_others, e2) =
      returned (validated_all rest) (λ others. ok (task ∷ others)) e1 in
    (validated-IsValid row task valid, validated_all-IsValid rest others valid_others)

-- Valid rows are read without an error.
pub IsValid-validated_all :
    (rows : List TaskRow)
    → All IsValid rows
    → (tasks : List TaskRecord) × (validated_all rows ≡ ok tasks)
unfolding validated_all validated
IsValid-validated_all [] h = ([], refl)
IsValid-validated_all (row ∷ rest) h =
    let (others, e) = IsValid-validated_all rest h.1 in (row.task ∷ others, rw (h.0, e) refl)

-- A date is among those of rows just when a row has it.
pub dates_of_iff :
    (rows : List TaskRow) (day : Date)
    → (contains day (dates_of rows) ≡ true) ↔ Any (HasDate day) rows
unfolding contains dates_of
dates_of_iff rows day =
    let found = any_of-Any (λ x. x == day) (dates_of rows) in
    (λ e. to rows (found.0 e), λ h. found.1 (from rows h))
  where
    to :
        (rows : List TaskRow)
        → Any (λ x. (x == day) ≡ true) (dates_of rows)
        → Any (HasDate day) rows
    to [] h = h
    to (row ∷ rest) h = elim (Option-cases row.task.occurrence_date) [
      | inl k ↦ inr (to rest (rw (k, dates_of) at h))
      | inr (x, k) ↦
          let h' : ((x == day) ≡ true) ⊎ Any (λ x. (x == day) ≡ true) (dates_of rest) =
            rw (k, dates_of) at h in
          elim h' [ inl here ↦ inl (k ∙ ap some (ground arith)) | inr later ↦ inr (to rest later) ]
    ]

    from :
        (rows : List TaskRow)
        → Any (HasDate day) rows
        → Any (λ x. (x == day) ≡ true) (dates_of rows)
    from [] h = h
    from (row ∷ rest) (inl h) = rw h (inl (ground arith))
    from (row ∷ rest) (inr h) = elim (Option-cases row.task.occurrence_date) [
      | inl k ↦ rw k (from rest h)
      | inr (x, k) ↦ rw k (inr (from rest h))
    ]

module _ (owner id : ℕ) (start : Date) (days : ℕ) where
  -- A row of the query, with a date
  abbrev pub Occurs : Date → TaskRow → Type 0
  Occurs day row = (is_occurrence owner id start days row ≡ true) × HasDate day row

  pub find_occurrences_iff :
      (rows : List TaskRow) (day : Date)
      → (contains day (dates_of (find_occurrences owner id start days rows)) ≡ true)
        ↔ Any (Occurs day) rows
  unfolding find_occurrences
  find_occurrences_iff rows day =
      let test = is_occurrence owner id start days in
      let (to, from) = dates_of_iff (find_occurrences owner id start days rows) day in
      (
        λ e.
            Any-unfilter_if (HasDate day) test rows
              (Any-unsort_by (HasDate day) by_id (filter_if test rows) (to e)),
        λ h. from (
            Any-sort_by (HasDate day) by_id (filter_if test rows)
              (Any-filter_if (HasDate day) test rows h)),
      )

  -- What holds of the found rows that are not deleted.
  abbrev IsLive : (TaskRow → Type 0) → TaskRow → Type 0
  IsLive P row = not row.deleted ≡ true → P row

  pub found_iff :
      (P : TaskRow → Type 0) (rows : List TaskRow)
      → All P (filter_if (λ row. not row.deleted) (find_occurrences owner id start days rows))
        ↔ All (λ row. is_occurrence owner id start days row ≡ true → IsLive P row) rows
  unfolding find_occurrences
  found_iff P rows =
      let test = is_occurrence owner id start days in
      let live : TaskRow → Bool = λ row. not row.deleted in
      (
        λ h. All-unfilter_if (IsLive P) test rows (
            All-unsort_by (IsLive P) by_id (filter_if test rows)
              (All-unfilter_if P live (find_occurrences owner id start days rows) h)),
        λ h. All-refilter_if P live (find_occurrences owner id start days rows) (
            All-sort_by (IsLive P) by_id (filter_if test rows)
              (All-refilter_if (IsLive P) test rows h)),
      )

module _ (fresh : Date → Fresh) (no_digest : ℕ) (zone : Zone) (owner : ℕ)
    (series : RecurrenceRecord) (now : Instant) where
  -- A row that was added for a day.
  abbrev pub IsAdded : Date → TaskRow → Type 0
  IsAdded day row =
      (row.task.user_id ≡ owner) × (row.task.recurrence_id ≡ some series.id) × HasDate day row

  pub occurrence_rows-IsAdded :
      (days : List Date) (rows : List TaskRow)
      → occurrence_rows fresh no_digest zone owner series now days ≡ ok rows
      → All (λ day. Any (IsAdded day) rows) days
        × All (λ row. Any (λ day. IsAdded day row) days) rows
  unfolding occurrence_rows occurrence_row
  occurrence_rows-IsAdded [] rows e =
      subst
        (λ rows.
          All (λ day. Any (IsAdded day) rows) []
          × All (λ row. Any (λ day. IsAdded day row) []) rows)
        (ok_injective e) (tt, tt)
  occurrence_rows-IsAdded (day ∷ rest) rows e =
      let ((from, to), window, e1) =
        returned (occurrence_window zone day series.duration_minutes) _ e in
      let (others, made, e2) =
        returned (occurrence_rows fresh no_digest zone owner series now rest) _ e1 in
      let (each, all) = occurrence_rows-IsAdded rest others made in
      subst
        (λ rows.
          All (λ day. Any (IsAdded day) rows) (day ∷ rest)
          × All (λ row. Any (λ d. IsAdded d row) (day ∷ rest)) rows)
        (ok_injective e2)
        (
          (
            inl (refl, refl, refl),
            All-imp (λ d. Any (IsAdded d) others)
                (λ d.
                  Any (IsAdded d)
                    (occurrence_row fresh no_digest zone owner series now day from to ∷ others))
                (λ d h. inr h) rest each,
          ),
          (
            inl (refl, refl, refl),
            All-imp (λ row. Any (λ d. IsAdded d row) rest)
                (λ row. Any (λ d. IsAdded d row) (day ∷ rest)) (λ row h. inr h) others all,
          ),
        )

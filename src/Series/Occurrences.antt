-- ===== src/Series/Occurrences.antt =====
-- `materialize` of src/smartplanner/recurrence_repository.py: the tasks of a recurring activity for
-- the days of a request. New identifiers, the clock and the zone of a name are parameters, and so
-- is what stands for the missing digest of a row that no creation made.
pub mod Rows
pub mod Runs
pub mod Again
mod Tests
use planer.Prelude.{
  ℕ, ◌+◌, String, Bool, true, false, not, ◌&&◌, Option, none, some, List, [], ◌∷◌, ◌++◌, map,
  length, filter_if, sort_by, contains, ltb, leb, ◌==◌,
}
use planer.Errors.{Result, ok, raise_if, ◌>>=◌, ◌>>◌}
use planer.Clock.{Instant, Date, Zone}
use planer.Models.{TaskRecord, Status}
use planer.Recurrence.{occurrence_dates, occurrence_window}
use planer.Repository.{TaskRow, validated_all}
use planer.Series.{RecurrenceRecord, RecurrenceRow, get_series, check_version}

pub record OccurrenceRequest : Type 0 where
  pub expected_version : ℕ
  pub start_date : Date
  pub days : ℕ

pub record OccurrenceResult : Type 0 where
  pub recurrence_id : ℕ
  pub recurrence_version : ℕ
  pub tasks : List TaskRecord
  pub created_count : ℕ
  pub deleted_dates : List Date
  pub skipped_past_dates : List Date

abbrev is_id : ℕ → Option ℕ → Bool
is_id id none = false
is_id id (some x) = x == id

-- `date >= start AND date < start + days`
abbrev pub is_within : Date → ℕ → Option Date → Bool
is_within start days none = false
is_within start days (some day) = leb start day && ltb day (start + days)

-- The condition of the query for the tasks that there are, also of those that were deleted
abbrev pub is_occurrence : ℕ → ℕ → Date → ℕ → TaskRow → Bool
is_occurrence owner id start days row =
    row.task.user_id == owner
    && is_id id row.task.recurrence_id
    && is_within start days row.task.occurrence_date

abbrev pub by_id : TaskRow → TaskRow → Bool
by_id a b = ltb a.task.id b.task.id

unfoldable pub find_occurrences : ℕ → ℕ → Date → ℕ → List TaskRow → List TaskRow
unfolding sort_by filter_if
find_occurrences owner id start days rows =
    sort_by by_id (filter_if (is_occurrence owner id start days) rows)

-- The dates of rows, which the query has found by their dates
unfoldable pub dates_of : List TaskRow → List Date
dates_of [] = []
dates_of (row ∷ rest) = elim row.task.occurrence_date [
  | none ↦ dates_of rest
  | some day ↦ day ∷ dates_of rest
]

-- The key of the tasks of a result, each of which has a date
abbrev pub by_date : TaskRecord → TaskRecord → Bool
by_date a b = is_earlier a.occurrence_date b.occurrence_date
  where
    is_earlier : Option Date → Option Date → Bool
    is_earlier none other = false
    is_earlier (some day) none = false
    is_earlier (some day) (some other) = ltb day other

-- What the insertion of a row needs besides the series: two identifiers for each day.
pub record Fresh : Type 0 where
  pub id : ℕ
  pub client_request_id : ℕ

module _ (fresh : Date → Fresh) (no_digest : ℕ) (zone : Zone) (owner : ℕ)
    (series : RecurrenceRecord) (now : Instant) where
  -- The row of a day, with the defaults of the table
  unfoldable pub occurrence_row : Date → Instant → Instant → TaskRow
  occurrence_row day start end = record {
    task = record {
      created = record {
        times = record { earliest_start = some start; deadline = some end };
        client_request_id = (fresh day).client_request_id;
        title = series.title;
        description = series.description;
        duration_minutes = series.duration_minutes;
        priority = series.priority;
        splittable = series.splittable;
        preferred_period = series.preferred_period;
      };
      id = (fresh day).id;
      user_id = owner;
      status = Status.pending;
      version = 1;
      created_at = now;
      updated_at = now;
      recurrence_id = some series.id;
      occurrence_date = some day;
    };
    creation_digest = no_digest;
    deleted = false;
  }

  unfoldable pub occurrence_rows : List Date → Result (List TaskRow)
  unfolding occurrence_window occurrence_row
  occurrence_rows [] = ok []
  occurrence_rows (day ∷ rest) = do
    (start, end) ← occurrence_window zone day series.duration_minutes
    rows ← occurrence_rows rest
    ok (occurrence_row day start end ∷ rows)

  -- `_insert_occurrences`
  unfoldable pub insert_occurrences :
      List Date → List TaskRow → Result (List TaskRecord × List TaskRow)
  unfolding occurrence_rows validated_all
  insert_occurrences days rows = do
    added ← occurrence_rows days
    tasks ← validated_all added
    ok (tasks, rows ++ added)

-- The days of a pattern for which there is no row: those in the past are passed over.
unfoldable pub new_dates : List Date → Date → List Date → List Date
unfolding filter_if contains
new_dates existing today days =
    filter_if (λ day. not (contains day existing) && not (ltb day today)) days

unfoldable pub skipped_dates : List Date → Date → List Date → List Date
unfolding filter_if contains
skipped_dates existing today days =
    filter_if (λ day. not (contains day existing) && ltb day today) days

unfoldable pub materialize :
    (Date → Fresh)
    → ℕ
    → (String → Zone)
    → ℕ
    → ℕ
    → OccurrenceRequest
    → Instant
    → List RecurrenceRow
    → List TaskRow
    → Result (OccurrenceResult × List TaskRow)
unfolding get_series check_version find_occurrences validated_all sort_by dates_of filter_if
    occurrence_dates new_dates insert_occurrences skipped_dates
materialize fresh no_digest zone_of owner id request now table rows = do
  series ← get_series owner id table
  check_version series request.expected_version false
  let zone = zone_of series.timezone
  let today = zone.local_date now
  let found = find_occurrences owner id request.start_date request.days rows
  tasks ← validated_all (filter_if (λ row. not row.deleted) found)
  days ← occurrence_dates series.values request.start_date request.days
  let added = new_dates (dates_of found) today days
  (inserted, written) ← insert_occurrences fresh no_digest zone owner series now added rows
  ok (
    record {
      recurrence_id = series.id;
      recurrence_version = series.version;
      tasks = sort_by by_date (tasks ++ inserted);
      created_count = length added;
      deleted_dates = sort_by ltb (dates_of (filter_if (λ row. row.deleted) found));
      skipped_past_dates = skipped_dates (dates_of found) today days;
    },
    written,
  )

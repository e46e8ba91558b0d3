-- ===== src/FixedEvents.antt =====
-- src/smartplanner/fixed_event_models.py and src/smartplanner/fixed_event_repository.py: the fixed
-- commitments of the users, as a table of rows. The new identifier and the clock are parameters;
-- the constraints of the table itself belong to the database.
use planer.Prelude.{
  find_if, update_if, ℕ, ◌+◌, ◌%◌, String, Bool, true, not, ◌&&◌, ◌||◌, Option, none, some, List,
  [], ◌∷◌, ◌++◌, take, drop, filter_if, sort_by, ltb, leb, ◌==◌,
}
use planer.Errors.{
  Result, ok, raise, error, raise_if, ◌>>=◌, ◌>>◌, validation_error, fixed_event_not_found,
  stale_fixed_event,
}
use planer.Clock.{Instant, minute}
use planer.Models.{is_title, is_version}

pub record FixedEventCreate : Type 0 where
  pub title : String
  pub start : Instant
  pub end : Instant

-- `valid_window`: not empty, and from a whole minute to another
unfoldable pub valid_window : FixedEventCreate → Bool
valid_window event =
    not (leb event.end event.start) && event.start % minute == 0 && event.end % minute == 0

unfoldable pub validate_event : FixedEventCreate → Bool
unfolding is_title valid_window
validate_event event = is_title event.title && valid_window event

pub record FixedEventReplace : Type 0 where
  pub event : FixedEventCreate
  pub expected_version : ℕ

unfoldable pub validate_replace : FixedEventReplace → Bool
unfolding validate_event is_version
validate_replace values = validate_event values.event && is_version values.expected_version

pub record FixedEventRecord : Type 0 where
  pub event : FixedEventCreate
  pub id : ℕ
  pub version : ℕ
  pub created_at : Instant
  pub updated_at : Instant

-- A row of the table: the record, and the user that owns it.
pub record EventRow : Type 0 where
  pub entry : FixedEventRecord
  pub user_id : ℕ

-- `_record`
unfoldable pub event_record : EventRow → Result FixedEventRecord
unfolding validate_event
event_record row = do raise_if (not (validate_event row.entry.event)) validation_error; ok row.entry

unfoldable pub create_event :
    ℕ → FixedEventCreate → ℕ → Instant → List EventRow → Result (FixedEventRecord × List EventRow)
unfolding event_record
create_event owner values id now rows = do
  let row : EventRow = record {
    entry = record { event = values; id = id; version = 1; created_at = now; updated_at = now };
    user_id = owner;
  }
  result ← event_record row
  ok (result, rows ++ row ∷ [])

unfoldable pub event_records : List EventRow → Result (List FixedEventRecord)
unfolding event_record
event_records [] = ok []
event_records (row ∷ rest) = do
  first ← event_record row
  others ← event_records rest
  ok (first ∷ others)

abbrev if_given : (Instant → Bool) → Option Instant → Bool
if_given test none = true
if_given test (some t) = test t

abbrev pub starts_before : EventRow → EventRow → Bool
starts_before a b =
    ltb a.entry.event.start b.entry.event.start
    || (a.entry.event.start == b.entry.event.start && ltb a.entry.id b.entry.id)

-- The events of an owner that end after `start` and start before `end`, by their starts
unfoldable pub matching_events : ℕ → Option Instant → Option Instant → List EventRow → List EventRow
unfolding sort_by filter_if
matching_events owner start end rows = sort_by starts_before (
    filter_if
      (λ row.
        row.user_id == owner
        && if_given (λ t. ltb t row.entry.event.end) start
        && if_given (λ t. ltb row.entry.event.start t) end)
      rows)

unfoldable pub list_events :
    ℕ → Option Instant → Option Instant → ℕ → ℕ → List EventRow → Result (List FixedEventRecord)
unfolding event_records matching_events
list_events owner start end limit offset rows =
    event_records (take limit (drop offset (matching_events owner start end rows)))

abbrev pub is_event : ℕ → ℕ → EventRow → Bool
is_event owner id row = row.user_id == owner && row.entry.id == id

abbrev pub is_event_version : ℕ → ℕ → ℕ → EventRow → Bool
is_event_version owner id version row = is_event owner id row && row.entry.version == version

unfoldable pub get_event : ℕ → ℕ → List EventRow → Result FixedEventRecord
unfolding event_record find_if
get_event owner id rows = elim (find_if (is_event owner id) rows) [
  | none ↦ raise (error 404 fixed_event_not_found)
  | some row ↦ event_record row
]

unfoldable pub replaced_row : FixedEventReplace → Instant → EventRow → EventRow
replaced_row values now row = record row {
  entry = record row.entry {
    event = values.event;
    version = row.entry.version + 1;
    updated_at = now;
  };
}

unfoldable pub replace_event :
    ℕ → ℕ → FixedEventReplace → Instant → List EventRow → Result (FixedEventRecord × List EventRow)
unfolding find_if get_event event_record replaced_row update_if
replace_event owner id values now rows =
    let selected = is_event_version owner id values.expected_version in
    elim (find_if selected rows) [
      | none ↦ do current ← get_event owner id rows; raise (error 409 stale_fixed_event)
      | some row ↦ do
        result ← event_record (replaced_row values now row)
        ok (result, update_if selected (replaced_row values now) rows)
    ]

unfoldable pub delete_event : ℕ → ℕ → ℕ → List EventRow → Result (List EventRow)
unfolding find_if get_event filter_if
delete_event owner id expected rows =
    let selected = is_event_version owner id expected in
    elim (find_if selected rows) [
      | none ↦ do current ← get_event owner id rows; raise (error 409 stale_fixed_event)
      | some row ↦ ok (filter_if (λ row. not (selected row)) rows)
    ]

unfoldable pub planning_events :
    ℕ → Instant → Instant → List EventRow → Result (List FixedEventRecord)
unfolding list_events
planning_events owner start end rows = list_events owner (some start) (some end) 100 0 rows

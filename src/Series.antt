-- ===== src/Series.antt =====
-- src/smartplanner/recurrence_repository.py, with the records of recurrence_models.py around a
-- pattern: the recurring activities of the users, as a table of rows. The digest of a creation, new
-- identifiers and the clock are parameters.
pub mod Occurrences
use planer.Prelude.{
  ℕ, ◌+◌, max, String, Bool, true, false, not, ◌&&◌, ◌||◌, Option, none, some, List, [], ◌∷◌, ◌++◌,
  take, drop, find_if, update_if, filter_if, sort_by, ltb, ◌==◌,
}
use planer.Errors.{
  Result, ok, raise, error, raise_if, ◌>>=◌, ◌>>◌, not_found, stale_version, validation_error,
  request_id_conflict, request_already_deleted,
}
use planer.Clock.{Instant}
use planer.Models.{is_version, max_version}
use planer.Recurrence.{RecurrenceValues, Weekday, unique_sorted_weekdays, validate_values}
use planer.Schedules.Store.{User}

pub record RecurrenceCreate : Type 0 where
  pub values : RecurrenceValues
  pub open values use *
  pub client_request_id : ℕ

pub record RecurrenceRecord : Type 0 where
  pub create : RecurrenceCreate
  pub open create use *
  pub id : ℕ
  pub user_id : ℕ
  pub timezone : String
  pub version : ℕ
  pub created_at : Instant
  pub updated_at : Instant

pub record RecurrenceReplace : Type 0 where
  pub expected_version : ℕ
  pub values : RecurrenceValues

pub record RecurrenceRow : Type 0 where
  pub series : RecurrenceRecord
  pub creation_digest : ℕ
  pub deleted : Bool

-- A validator that raises makes the validation fail.
abbrev as_validation {ℓ} : {A : Type ℓ} → Result A → Result A
as_validation (ok a) = ok a
as_validation (raise e) = raise validation_error

-- `RecurrenceRecord.model_validate(row)`, which puts the weekdays in order
unfoldable pub validated_series : RecurrenceRecord → Result RecurrenceRecord
unfolding unique_sorted_weekdays validate_values is_version
validated_series series = do
  weekdays ← as_validation (unique_sorted_weekdays series.weekdays)
  let sorted : RecurrenceValues = record series.values { weekdays = weekdays }
  raise_if (not (validate_values sorted && is_version series.version)) validation_error
  ok (record series { create = record series.create { values = sorted } })

abbrev pub is_live_series : ℕ → ℕ → RecurrenceRow → Bool
is_live_series owner id row = row.series.id == id && row.series.user_id == owner && not row.deleted

-- `_get`
unfoldable pub get_series : ℕ → ℕ → List RecurrenceRow → Result RecurrenceRecord
unfolding find_if validated_series
get_series owner id rows = elim (find_if (is_live_series owner id) rows) [
  | none ↦ raise not_found
  | some row ↦ validated_series row.series
]

unfoldable pub validated_list : List RecurrenceRow → Result (List RecurrenceRecord)
unfolding validated_series
validated_list [] = ok []
validated_list (row ∷ rest) = do
  series ← validated_series row.series
  others ← validated_list rest
  ok (series ∷ others)

abbrev newest_series : RecurrenceRow → RecurrenceRow → Bool
newest_series a b =
    ltb b.series.created_at a.series.created_at
    || (b.series.created_at == a.series.created_at && ltb b.series.id a.series.id)

unfoldable pub list_series : ℕ → ℕ → ℕ → List RecurrenceRow → Result (List RecurrenceRecord)
unfolding validated_list sort_by filter_if
list_series owner limit offset rows = validated_list (
    take limit (
      drop offset (
        sort_by newest_series
          (filter_if (λ row. row.series.user_id == owner && not row.deleted) rows))))

-- The defaults of the table.
unfoldable pub new_series :
    (RecurrenceCreate → ℕ) → User → RecurrenceCreate → ℕ → Instant → RecurrenceRow
new_series digest user given id now = record {
  series = record {
    create = given;
    id = id;
    user_id = user.id;
    timezone = user.timezone;
    version = 1;
    created_at = now;
    updated_at = now;
  };
  creation_digest = digest given;
  deleted = false;
}

abbrev pub is_series_request : ℕ → ℕ → RecurrenceRow → Bool
is_series_request owner request row =
    row.series.user_id == owner && row.series.client_request_id == request

-- The row is selected from the users: without the user there is none, and none is found afterwards.
unfoldable pub create_series :
    (RecurrenceCreate → ℕ)
    → List User
    → ℕ
    → RecurrenceCreate
    → ℕ
    → Instant
    → List RecurrenceRow
    → Result ((RecurrenceRecord × Bool) × List RecurrenceRow)
unfolding find_if new_series validated_series
create_series digest users owner given id now rows =
    elim (find_if (is_series_request owner given.client_request_id) rows) [
      | none ↦ elim (find_if (λ (user : User). user.id == owner) users) [
        | none ↦ raise (error 409 request_id_conflict)
        | some user ↦ do
          let row = new_series digest user given id now
          result ← validated_series row.series
          ok ((result, false), rows ++ row ∷ [])
      ]
      | some existing ↦ do
        raise_if (not (existing.creation_digest == digest given)) (error 409 request_id_conflict)
        raise_if existing.deleted (error 409 request_already_deleted)
        result ← validated_series existing.series
        ok ((result, true), rows)
    ]

-- `_check_version`
unfoldable pub check_version : RecurrenceRecord → ℕ → Bool → Result (Unit {0})
check_version series expected increment =
    raise_if (not (series.version == expected) || (increment && series.version == max_version))
      stale_version

abbrev pub is_series : ℕ → ℕ → RecurrenceRow → Bool
is_series owner id row = row.series.id == id && row.series.user_id == owner

-- The next version of a row: the clock does not go back.
unfoldable pub replaced_series : RecurrenceValues → Instant → RecurrenceRow → RecurrenceRow
replaced_series values clock row = record row {
  series = record row.series {
    create = record row.series.create { values = values };
    version = row.series.version + 1;
    updated_at = max clock row.series.updated_at;
  };
}

unfoldable pub replace_series :
    ℕ
    → ℕ
    → RecurrenceReplace
    → Instant
    → List RecurrenceRow
    → Result (RecurrenceRecord × List RecurrenceRow)
unfolding get_series check_version find_if update_if replaced_series validated_series
replace_series owner id given clock rows = do
  current ← get_series owner id rows
  check_version current given.expected_version true
  elim (find_if (is_series owner id) rows) [
    | none ↦ raise validation_error
    | some row ↦ do
      result ← validated_series (replaced_series given.values clock row).series
      ok (result, update_if (is_series owner id) (replaced_series given.values clock) rows)
  ]

unfoldable pub deleted_series : Instant → RecurrenceRow → RecurrenceRow
deleted_series clock row = record row {
  series = record row.series {
    version = row.series.version + 1;
    updated_at = max clock row.series.updated_at;
  };
  deleted = true;
}

unfoldable pub delete_series :
    ℕ → ℕ → ℕ → Instant → List RecurrenceRow → Result (List RecurrenceRow)
unfolding get_series check_version update_if deleted_series
delete_series owner id expected clock rows = do
  current ← get_series owner id rows
  check_version current expected true
  ok (update_if (is_series owner id) (deleted_series clock) rows)

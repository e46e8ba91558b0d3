-- ===== src/Repository/Preferences.antt =====
-- The preferences of src/smartplanner/repository.py and of src/smartplanner/accounts.py: one row
-- for each user, replaced as a whole against its version.
use planer.Prelude.{find_if, update_if, ℕ, ◌+◌, max, Bool, not, ◌&&◌, none, some, List, ◌==◌}
use planer.Errors.{
  Result, ok, raise, raise_if, ◌>>=◌, ◌>>◌, not_found, stale_version, validation_error,
}
use planer.Clock.{Instant}
use planer.Models.{is_version}
use planer.Models.Preferences.{PreferenceValues, validate_preferences}

pub record PreferenceRecord : Type 0 where
  pub values : PreferenceValues
  pub user_id : ℕ
  pub version : ℕ
  pub updated_at : Instant

pub record PreferencePut : Type 0 where
  pub expected_version : ℕ
  pub values : PreferenceValues

-- `PreferenceRecord.model_validate(row)`
unfoldable pub validated_preferences : PreferenceRecord → Result PreferenceRecord
unfolding validate_preferences is_version
validated_preferences record_of = do
  raise_if (not (validate_preferences record_of.values && is_version record_of.version))
      validation_error
  ok record_of

unfoldable pub get_preferences : ℕ → List PreferenceRecord → Result PreferenceRecord
unfolding validated_preferences find_if
get_preferences owner rows = elim (find_if (λ row. row.user_id == owner) rows) [
  | none ↦ raise not_found
  | some row ↦ validated_preferences row
]

-- `UPDATE user_preferences SET ...`
unfoldable pub put_row : PreferencePut → Instant → PreferenceRecord → PreferenceRecord
put_row update clock row = record row {
  values = update.values;
  version = row.version + 1;
  updated_at = max clock row.updated_at;
}

unfoldable pub update_preferences :
    ℕ
    → PreferencePut
    → Instant
    → List PreferenceRecord
    → Result (PreferenceRecord × List PreferenceRecord)
unfolding validated_preferences find_if put_row update_if
update_preferences owner update clock rows =
    let selected : PreferenceRecord → Bool =
      λ row. row.user_id == owner && row.version == update.expected_version in
    elim (find_if selected rows) [
      | none ↦ raise stale_version
      | some row ↦ do
        result ← validated_preferences (put_row update clock row)
        ok (result, update_if selected (put_row update clock) rows)
    ]

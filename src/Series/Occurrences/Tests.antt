-- ===== src/Series/Occurrences/Tests.antt =====
-- A daily activity, and its tasks of a week: the first day is in the past.
use planer.Prelude.{ℕ, ◌+◌, ◌≡◌, refl, String, true, false, some, List, [], ◌∷◌, arith}
use planer.Errors.{Result, ok, raise}
use planer.Clock.{Instant, Zone}
use planer.Models.{Period}
use planer.Recurrence.{RecurrenceValues, Frequency}
use planer.Repository.{TaskRow}
use planer.Scheduler.Samples.{base, date, day, at, short_days}
use planer.Series.{RecurrenceRow}
use planer.Series.Occurrences.{OccurrenceRequest, OccurrenceResult, Fresh, materialize}
use planer.Series.Occurrences.Again.{materialize_again}

abbrev values : RecurrenceValues
values = record {
  title = "walk";
  description = "";
  duration_minutes = 5;
  priority = 5;
  splittable = false;
  preferred_period = Period.any;
  frequency = Frequency.daily;
  weekdays = [];
  start_date = date;
  end_date = some (date + 2);
  active = true;
}

abbrev table : List RecurrenceRow
table =
    (record {
      series = record {
        create = record { values = values; client_request_id = 1 };
        id = 4;
        user_id = 1;
        timezone = "Short";
        version = 1;
        created_at = base;
        updated_at = base;
      };
      creation_digest = 0;
      deleted = false;
    })
    ∷ []

abbrev request : OccurrenceRequest
request = record { expected_version = 1; start_date = date; days = 7 }

abbrev fresh : ℕ → ℕ → Fresh
fresh n day = record { id = n + day; client_request_id = n + day }

abbrev zone_of : String → Zone
zone_of name = short_days

abbrev nothing : OccurrenceResult
nothing = record {
  recurrence_id = 0;
  recurrence_version = 0;
  tasks = [];
  created_count = 0;
  deleted_dates = [];
  skipped_past_dates = [];
}

abbrev ending : Result (OccurrenceResult × List TaskRow) → OccurrenceResult × List TaskRow
ending (ok end) = end
ending (raise e) = (nothing, [])

abbrev tomorrow : Instant
tomorrow = at 10

abbrev first : OccurrenceResult × List TaskRow
first = ending (materialize (fresh 0) 0 zone_of 1 4 request tomorrow table [])

first_runs : materialize (fresh 0) 0 zone_of 1 4 request tomorrow table [] ≡ ok first
unfolding materialize
first_runs = refl

two_made : first.0.created_count ≡ 2
unfolding materialize
two_made = refl

one_skipped : first.0.skipped_past_dates ≡ date ∷ []
unfolding materialize
one_skipped = refl

materialize_again_example :
    (again : OccurrenceResult) × (materialize (fresh 9) 0 zone_of 1 4 request (at 11) table first.1
      ≡ ok (again, first.1))
    × (again.created_count ≡ 0)
    × (again.skipped_past_dates ≡ first.0.skipped_past_dates)
materialize_again_example =
    materialize_again (fresh 0) (fresh 9) 0 zone_of 1 4 request tomorrow (at 11) table [] first.0
      first.1 first_runs (λ name. omega arith)

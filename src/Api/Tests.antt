-- ===== src/Api/Tests.antt =====
-- A user with a session, a stored event, and the handlers' theorems there.
use planer.Prelude.{
  ℕ, ◌≡◌, ◌↔◌, ◌≤◌, refl, String, true, false, none, filter_if, length, List, [], ◌∷◌, arith,
}
use planer.Errors.{Result, ok, raise, error, authentication_required, too_many_fixed_events}
use planer.Clock.{Zone, HasWholeSeconds}
use planer.Planning.{PreviewRequest, PlanPreview, validate_request}
use planer.Repository.{TaskRow}
use planer.Repository.Preferences.{PreferenceRecord}
use planer.Repository.Sessions.{UserView, UserRow, Session}
use planer.FixedEvents.{EventRow}
use planer.Scheduler.Samples.{base, at, date, window, task, preferences, short_days}
use planer.Api.{Method, HttpRequest, current_user, merged_request, preview_schedule}
use planer.Api.Access.{IsAllowed, HasKeys, current_user_iff}
use planer.Api.Previews.{
  horizon_events, IsPlannedAround, preview_schedule-IsPlannedAround, merged_request-accepts,
}

abbrev user : UserView
user = record { id = 1; email = "a@example.org"; timezone = "Short"; created_at = base }

abbrev cookie : String
cookie = "aaaaaaaaaaaaaaaaaaaaaaaaaaaaaaaaaaaaaaaaaaa"

-- The token for forms of each session
abbrev form_token : String → String
form_token token = "0123456789abcdef0123456789abcdef0123456789abcdef0123456789abcdef"

-- A request that changes something
abbrev http : HttpRequest
http = record {
  method = Method.delete;
  path = "/api/v1/tasks";
  origin = none;
  content_length = none;
  csrf_token = "0123456789abcdef0123456789abcdef0123456789abcdef0123456789abcdef";
  session_cookie = cookie;
}

abbrev sessions : List Session
sessions =
    record { token_digest = 6; user_id = 2; expires_at = at 9 }
    ∷ record { token_digest = 7; user_id = 1; expires_at = at 9 }
    ∷ []

abbrev users : List UserRow
users = record { user = user; password_hash = "" } ∷ []

keys : HasKeys sessions users
keys = (((λ e. omega arith, tt), (tt, tt)), (tt, tt))

current_user_iff_example :
    (current_user (λ token. 7) form_token http (at 1) sessions users ≡ ok user)
    ↔ IsAllowed (λ token. 7) form_token http (at 1) sessions users user
current_user_iff_example =
    current_user_iff (λ token. 7) form_token http (at 1) sessions users user keys

allowed : current_user (λ token. 7) form_token http (at 1) sessions users ≡ ok user
unfolding current_user
allowed = refl

-- At the end of its hours the session is over.
too_late :
    current_user (λ token. 7) form_token http (at 9) sessions users
    ≡ raise (error 401 authentication_required)
unfolding current_user
too_late = refl

abbrev request : PreviewRequest
request = record {
  planning = record {
    start_date = date;
    days = 1;
    task_ids = 1 ∷ [];
    availability = window 0 10 ∷ [];
    fixed_events = [];
  };
  previous_blocks = [];
}

abbrev events : List EventRow
events =
    (record {
      entry = record {
        event = record { title = "class"; start = at 2; end = at 4 };
        id = 6;
        version = 1;
        created_at = base;
        updated_at = base;
      };
      user_id = 1;
    })
    ∷ []

abbrev tasks : List TaskRow
tasks = record { task = task 1 3 true; creation_digest = 0; deleted = false } ∷ []

abbrev all_preferences : List PreferenceRecord
all_preferences = record { values = preferences; user_id = 1; version = 1; updated_at = base } ∷ []

abbrev zone_of : String → Zone
zone_of name = short_days

abbrev no_preview : PlanPreview
no_preview = record {
  horizon = window 0 10;
  timezone = "";
  planned_at = base;
  blocks = [];
  fixed_events = [];
  unscheduled = [];
  ignored_task_ids = [];
  task_versions = [];
  preference_version = 0;
  warnings = [];
}

abbrev preview_of : Result PlanPreview → PlanPreview
preview_of (ok preview) = preview
preview_of (raise e) = no_preview

abbrev slots : ℕ
slots = 2

abbrev preview : PlanPreview
preview =
    preview_of (preview_schedule user request zone_of (at 0) tasks all_preferences events slots).0

preview_runs :
    preview_schedule user request zone_of (at 0) tasks all_preferences events slots
    ≡ (ok preview, slots)
unfolding preview_schedule
preview_runs = refl

short_days-HasWholeSeconds : HasWholeSeconds short_days
short_days-HasWholeSeconds = record { midnight_second = λ d. omega arith }

request_valid : validate_request request ≡ true
unfolding validate_request
request_valid = refl

few : length (horizon_events user request short_days events) ≤ 100
unfolding filter_if
few = omega arith

preview_schedule-IsPlannedAround_example :
    IsPlannedAround user request short_days (at 0) tasks events preview
    × (1 ≤ slots)
    × (slots ≡ slots)
preview_schedule-IsPlannedAround_example =
    preview_schedule-IsPlannedAround user request zone_of (at 0) tasks all_preferences events slots
      slots preview short_days-HasWholeSeconds request_valid few preview_runs

merged_request-accepts_example :
    ¬ (merged_request 1 request short_days events ≡ raise (error 422 too_many_fixed_events))
merged_request-accepts_example = merged_request-accepts 1 request short_days events refl

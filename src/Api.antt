-- ===== src/Api.antt =====
-- src/smartplanner/api.py: what a request passes before a handler, and the handler of previews. The
-- response that the middleware answers with is the error that it reports. The value of a header of
-- digits, the digests of a token, the zones and the clock are parameters.
pub mod Access
pub mod Previews
pub mod Texts
pub mod Inputs
pub mod Reads
mod Tests
use Prim.Native.Char.{code}
use planer.Prelude.{
  ℕ, zero, suc, ◌+◌, ◌-◌, String, Bool, true, false, not, ◌&&◌, ◌||◌, Option, none, some, List, [],
  ◌∷◌, ◌++◌, map, length, all_of, str_eq, starts_with, ltb, leb, ◌==◌, if◌then◌else◌,
}
use planer.Errors.{
  Result, ok, raise, error, raise_if, ◌>>=◌, ◌>>◌, authentication_required, csrf_rejected,
  origin_rejected, request_too_large, validation_error, planner_busy, too_many_fixed_events,
}
use planer.Clock.{Instant, Zone}
use planer.Planning.{TimeWindow, validate_window, FixedEvent, PreviewRequest, PlanPreview}
use planer.Models.{TaskRecord, is_title}
use planer.Repository.{TaskRow, planning_tasks}
use planer.Repository.Preferences.{PreferenceRecord, get_preferences}
use planer.Repository.Sessions.{UserView, UserRow, Session, session_user}
use planer.FixedEvents.{FixedEventRecord, EventRow, planning_events}
use planer.Scheduler.Preview.{build_preview, max_candidates}

pub data Method : Type 0 where
  post put patch delete other : Method

pub record HttpRequest : Type 0 where
  pub method : Method
  pub path : String
  pub origin : Option String
  pub content_length : Option String
  pub csrf_token : String
  pub session_cookie : String

-- `request.method in {"POST", "PUT", "PATCH", "DELETE"}`
unfoldable pub changes : Method → Bool
changes Method.post = true
changes Method.put = true
changes Method.patch = true
changes Method.delete = true
changes Method.other = false

unfoldable pub body_limit : String → ℕ
unfolding starts_with
body_limit path = if starts_with "/api/v1/schedules" path then 131_072 else 32_768

unfoldable pub is_foreign : String → Option String → Bool
unfolding str_eq
is_foreign own none = false
is_foreign own (some origin) = not (str_eq origin own)

-- `int` of a text for which `isdigit` holds
unfoldable pub is_too_large : (String → Option ℕ) → ℕ → Option String → Bool
is_too_large digits limit none = false
is_too_large digits limit (some text) = elim (digits text) [
  | none ↦ true
  | some size ↦ ltb limit size
]

-- The middleware, up to `call_next`
unfoldable pub check_origin_and_size :
    String → (String → Option ℕ) → HttpRequest → Result (Unit {0})
unfolding changes is_foreign is_too_large body_limit
check_origin_and_size own digits request = do
  raise_if (changes request.method && is_foreign own request.origin) (error 403 origin_rejected)
  raise_if
      (changes request.method
        && is_too_large digits (body_limit request.path) request.content_length)
      (error 413 request_too_large)

-- A text of as many letters of an alphabet
unfoldable pub has_format : (ℕ → Bool) → ℕ → String → Bool
has_format letter zero String.[] = true
has_format letter zero (String.◌∷◌ c s) = false
has_format letter (suc n) String.[] = false
has_format letter (suc n) (String.◌∷◌ c s) = letter (code c) && has_format letter n s

abbrev between : ℕ → ℕ → ℕ → Bool
between low high c = leb low c && leb c high

-- `[A-Za-z0-9_-]`
abbrev pub is_token_letter : ℕ → Bool
is_token_letter c = between 65 90 c || between 97 122 c || between 48 57 c || c == 95 || c == 45

-- `[0-9a-f]`
abbrev pub is_hex_digit : ℕ → Bool
is_hex_digit c = between 48 57 c || between 97 102 c

unfoldable pub session_token : HttpRequest → Result String
unfolding has_format
session_token request = do
  raise_if (not (has_format is_token_letter 43 request.session_cookie))
      (error 401 authentication_required)
  ok request.session_cookie

unfoldable pub current_user :
    (String → ℕ)
    → (String → String)
    → HttpRequest
    → Instant
    → List Session
    → List UserRow
    → Result UserView
unfolding session_token session_user changes has_format str_eq
current_user digest csrf_for_token request now sessions users = do
  token ← session_token request
  user ← session_user digest token now sessions users
  raise_if
      (changes request.method
        && (not (has_format is_hex_digit 64 request.csrf_token)
            || not (str_eq request.csrf_token (csrf_for_token token))))
      (error 403 csrf_rejected)
  ok user

-- A stored event as one of a request
abbrev pub stored_event : FixedEventRecord → FixedEvent
stored_event event = record {
  window = record { start = event.event.start; end = event.event.end };
  title = event.event.title;
}

-- The validators of `FixedEvent`
abbrev pub is_valid_event : FixedEvent → Bool
is_valid_event event = validate_window event.window && is_title event.title

-- `data.model_copy(update=...)`
abbrev pub with_events : PreviewRequest → List FixedEventRecord → PreviewRequest
with_events request stored = record request {
  planning = record request.planning {
    fixed_events = map stored_event stored ++ request.fixed_events;
  };
}

-- The request of a preview, with the stored events of the horizon
unfoldable pub merged_request : ℕ → PreviewRequest → Zone → List EventRow → Result PreviewRequest
unfolding planning_events all_of validate_window is_title
merged_request owner request zone events = do
  stored ←
      planning_events owner (zone.midnight request.start_date)
        (zone.midnight (request.start_date + request.days)) events
  raise_if (not (all_of is_valid_event (map stored_event stored))) validation_error
  raise_if (ltb 100 (length (map stored_event stored) + length request.fixed_events))
      (error 422 too_many_fixed_events)
  ok (with_events request stored)

unfoldable pub make_preview :
    UserView
    → PreviewRequest
    → (String → Zone)
    → Instant
    → List TaskRow
    → List PreferenceRecord
    → List EventRow
    → Result PlanPreview
unfolding planning_tasks get_preferences merged_request build_preview
make_preview user request zone_of now rows preference_rows events = do
  let zone = zone_of user.timezone
  preferences ← get_preferences user.id preference_rows
  tasks ← planning_tasks user.id request.task_ids rows
  merged ← merged_request user.id request zone events
  build_preview merged tasks preferences.values user.timezone zone now preferences.version
      max_candidates

-- `preview_schedule`, with the number of planning slots that are free before and after it
unfoldable pub preview_schedule :
    UserView
    → PreviewRequest
    → (String → Zone)
    → Instant
    → List TaskRow
    → List PreferenceRecord
    → List EventRow
    → ℕ
    → Result PlanPreview × ℕ
unfolding make_preview
preview_schedule user request zone_of now rows preference_rows events zero =
    (raise (error 429 planner_busy), zero)
preview_schedule user request zone_of now rows preference_rows events (suc free) =
    (make_preview user request zone_of now rows preference_rows events, free + 1)

-- ===== src/Models.antt =====
-- src/smartplanner/models.py: tasks, their edits and the planning preferences, with the validators
-- that pydantic runs on them as tests. Parsing, trimming and the conversion of a datetime to UTC
-- happen before a value of these types exists. `model_validate` answers with all tests of a model.
pub mod Preferences
use Prim.Native.String.{count}
use planer.Prelude.{
  ℕ, ◌+◌, ◌*◌, String, Bool, true, false, not, ◌&&◌, ◌||◌, Option, none, some, leb, ltb,
}
use planer.Clock.{Instant, Date, minute}

pub data Period : Type 0 where
  any morning afternoon evening : Period

pub data Status : Type 0 where
  pending completed cancelled : Status

unfoldable pub is_pending : Status → Bool
is_pending pending = true
is_pending completed = false
is_pending cancelled = false

-- The annotated types: `Version`, `Duration`, `Priority`, `Title`, `Description`.
abbrev pub max_version : ℕ
max_version = 2_147_483_647

unfoldable pub within : ℕ → ℕ → ℕ → Bool
within lowest highest n = leb lowest n && leb n highest

unfoldable pub is_version : ℕ → Bool
unfolding within
is_version n = within 1 max_version n

unfoldable pub is_duration : ℕ → Bool
unfolding within
is_duration n = within 1 10_080 n

unfoldable pub is_priority : ℕ → Bool
unfolding within
is_priority n = within 1 10 n

unfoldable pub is_title : String → Bool
unfolding within
is_title s = within 1 200 (count s)

unfoldable pub is_description : String → Bool
is_description s = leb (count s) 2000

pub record TaskTimes : Type 0 where
  pub earliest_start : Option Instant
  pub deadline : Option Instant

pub record TaskCreate : Type 0 where
  pub times : TaskTimes
  pub open times use *
  pub client_request_id : ℕ
  pub title : String
  pub description : String
  pub duration_minutes : ℕ
  pub priority : ℕ
  pub splittable : Bool
  pub preferred_period : Period

-- `validate_time_window`: a window that has both ends holds the task.
unfoldable pub validate_time_window : TaskTimes → ℕ → Bool
validate_time_window times duration = elim times.earliest_start [
  | none ↦ true
  | some earliest ↦ elim times.deadline [
    | none ↦ true
    | some deadline ↦ not (ltb deadline (earliest + duration * minute))
  ]
]

unfoldable pub validate_create : TaskCreate → Bool
unfolding is_title is_description is_duration is_priority validate_time_window
validate_create task =
    is_title task.title
    && is_description task.description
    && is_duration task.duration_minutes
    && is_priority task.priority
    && validate_time_window task.times task.duration_minutes

pub record TaskRecord : Type 0 where
  pub created : TaskCreate
  pub open created use *
  pub id : ℕ
  pub user_id : ℕ
  pub status : Status
  pub version : ℕ
  pub created_at : Instant
  pub updated_at : Instant
  pub recurrence_id : Option ℕ
  pub occurrence_date : Option Date

abbrev pub is_none {ℓ} : {A : Type ℓ} → Option A → Bool
is_none none = true
is_none (some a) = false

abbrev pub same_test : Bool → Bool → Bool
same_test true b = b
same_test false b = not b

-- `audit_order`
unfoldable pub audit_order : TaskRecord → Bool
audit_order task =
    not (ltb task.updated_at task.created_at)
    && same_test (is_none task.recurrence_id) (is_none task.occurrence_date)

unfoldable pub validate_record : TaskRecord → Bool
unfolding validate_create is_version audit_order
validate_record task = validate_create task.created && is_version task.version && audit_order task

-- What a request says of a field: nothing, null, or a value.
pub data Given {ℓ} (A : Type ℓ) : Type ℓ where
  unset null : Given A
  value : A → Given A

pub record TaskPatch : Type 0 where
  pub expected_version : ℕ
  pub earliest_start : Given Instant
  pub deadline : Given Instant
  pub title : Given String
  pub description : Given String
  pub duration_minutes : Given ℕ
  pub priority : Given ℕ
  pub splittable : Given Bool
  pub preferred_period : Given Period
  pub status : Given Status

abbrev pub is_set {ℓ} : {A : Type ℓ} → Given A → Bool
is_set unset = false
is_set null = true
is_set (value a) = true

-- A field that has a type of its own: not null, and in range.
abbrev pub holds {ℓ} : {A : Type ℓ} → (A → Bool) → Given A → Bool
holds test unset = true
holds test null = false
holds test (value a) = test a

-- `require_change_and_valid_nulls`, with the ranges of the fields.
unfoldable pub validate_patch : TaskPatch → Bool
unfolding is_version is_title is_description is_duration is_priority
validate_patch patch =
    is_version patch.expected_version
    && (is_set patch.earliest_start
        || is_set patch.deadline
        || is_set patch.title
        || is_set patch.description
        || is_set patch.duration_minutes
        || is_set patch.priority
        || is_set patch.splittable
        || is_set patch.preferred_period
        || is_set patch.status)
    && holds is_title patch.title
    && holds is_description patch.description
    && holds is_duration patch.duration_minutes
    && holds is_priority patch.priority
    && holds (λ _. true) patch.splittable
    && holds (λ _. true) patch.preferred_period
    && holds (λ _. true) patch.status

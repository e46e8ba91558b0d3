-- ===== src/Errors.antt =====
-- src/smartplanner/errors.py: what an operation raises, as a value. The user-facing message of an
-- `AppError` is fixed text and is left out.
use planer.Prelude.{ℕ, Bool, true, false, ◌≡◌, refl, sym, ap, ◌⊎◌, inl, inr}

pub data Code : Type 0 where
  past_planning_date invalid_local_day unsupported_time_boundary availability_outside_horizon : Code
  event_outside_horizon fixed_event_conflict locked_duration_conflict locked_block_conflict : Code
  inactive_task_block invalid_schedule_layout nonexistent_occurrence_day occurrence_too_long : Code
  not_found_code stale_version_code invalid_task_change : Code
  request_id_conflict request_already_deleted fixed_event_not_found stale_fixed_event : Code
  auth_rate_limit auth_busy email_unavailable authentication_required invalid_credentials : Code
  schedule_sources_changed started_block_conflict past_block schedule_horizon_changed : Code
  fixed_event_outside_saved_horizon task_already_scheduled stale_schedule_version : Code
  schedule_version_limit schedule_overlap history_boundary csrf_rejected schema_not_ready : Code
  invalid_time_range planner_busy too_many_fixed_events : Code
  origin_rejected request_too_large : Code

pub record AppError : Type 0 where
  pub status : ℕ
  pub code : Code

-- The exceptions of the program and of the two libraries that it lets through.
pub data Exception : Type 0 where
  app_error : AppError → Exception
  value_error key_error validation_error stale_task_version search_limit : Exception

pub data Result {ℓ} (Value : Type ℓ) : Type ℓ where
  raise : Exception → Result Value
  ok : Value → Result Value

infixl 5 ◌>>◌ ◌>>=◌
-- What follows is run only if nothing was raised before.
abbrev pub ◌>>=◌ {ℓ κ} :
    {Value : Type ℓ} {Next : Type κ} → Result Value → (Value → Result Next) → Result Next
raise e >>= next = raise e
ok value >>= next = next value

abbrev pub ◌>>◌ {κ} : {Next : Type κ} → Result (Unit {0}) → Result Next → Result Next
action >> next = action >>= λ done. next

-- `if test: raise e`
abbrev pub raise_if : Bool → Exception → Result (Unit {0})
raise_if true e = raise e
raise_if false e = ok tt

abbrev pub app {ℓ} : {A : Type ℓ} → ℕ → Code → Result A
app status code = raise (app_error (record { status = status; code = code }))

abbrev pub error : ℕ → Code → Exception
error status code = app_error (record { status = status; code = code })

abbrev pub not_found : Exception
not_found = error 404 not_found_code

abbrev pub stale_version : Exception
stale_version = error 409 stale_version_code

-- A block that returned has run its first action, and the rest on its value.
pub returned {ℓ κ} :
    {Value : Type ℓ} {Next : Type κ} (action : Result Value) (next : Value → Result Next) {b : Next}
    → (action >>= next) ≡ ok b
    → (value : Value) × (action ≡ ok value) × (next value ≡ ok b)
returned (raise e) next done = cc
returned (ok value) next done = (value, refl, done)

pub raise_if-eq-ok : (b : Bool) (e : Exception) (u : Unit {0}) → raise_if b e ≡ ok u → b ≡ false
raise_if-eq-ok true e u h = cc
raise_if-eq-ok false e u h = refl

pub ok_injective {ℓ} : {A : Type ℓ} {a b : A} → ok a ≡ ok b → a ≡ b
ok_injective h = cc

pub raise≢ok {ℓ} : {A : Type ℓ} (e : Exception) (a : A) → raise e ≡ ok a → ⊥
raise≢ok e a h = cc

abbrev exception_or {ℓ} : {A : Type ℓ} → Exception → Result A → Exception
exception_or default (raise e) = e
exception_or default (ok a) = default

-- A block that raised: either its first action did, or the rest on its value.
pub raised {ℓ κ} :
    {Value : Type ℓ} {Next : Type κ} (action : Result Value) (next : Value → Result Next)
    (e : Exception)
    → (action >>= next) ≡ raise e
    → (action ≡ raise e) ⊎ ((value : Value) × (action ≡ ok value) × (next value ≡ raise e))
raised (raise x) next e h = inl (ap raise (ap (exception_or x) h))
raised (ok value) next e h = inr (value, refl, h)

pub raise_if-eq-raise : (b : Bool) (x e : Exception) → raise_if b x ≡ raise e → (b ≡ true) × (x ≡ e)
raise_if-eq-raise true x e h = (refl, ap (exception_or x) h)
raise_if-eq-raise false x e h = absurd (raise≢ok e tt (sym h))

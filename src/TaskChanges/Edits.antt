-- ===== src/TaskChanges/Edits.antt =====
-- `prepare_task_change`: what an edit changes, and what it leaves.
use planer.Prelude.{
  ◌+◌, ◌≡◌, refl, subst, arith, true, false, not, Option, none, some, ◌==◌, true_of_not,
}
use planer.Errors.{ok, raise, raise_if, stale_task_version, returned, raise_if-eq-ok, ok_injective}
use planer.Clock.{Instant}
use planer.Models.{
  TaskCreate, TaskRecord, TaskPatch, Given, unset, null, value, Status, validate_record,
}
use planer.TaskChanges.{set_option, set_value, update_created, prepare_task_change}

-- A field that may not be null is left, or has the value that the patch gives.
abbrev pub Sets : {A : Type 0} → Given A → A → A → Type 0
Sets unset old new = new ≡ old
Sets null old new = ⊥
Sets (value a) old new = new ≡ a

-- A field that may be null.
abbrev pub SetsOption : {A : Type 0} → Given A → Option A → Option A → Type 0
SetsOption unset old new = new ≡ old
SetsOption null old new = new ≡ none
SetsOption (value a) old new = new ≡ some a

pub record IsUpdated (patch : TaskPatch) (old new : TaskCreate) : Type 0 where
  pub earliest_start : SetsOption patch.earliest_start old.earliest_start new.earliest_start
  pub deadline : SetsOption patch.deadline old.deadline new.deadline
  pub title : Sets patch.title old.title new.title
  pub description : Sets patch.description old.description new.description
  pub duration_minutes : Sets patch.duration_minutes old.duration_minutes new.duration_minutes
  pub priority : Sets patch.priority old.priority new.priority
  pub splittable : Sets patch.splittable old.splittable new.splittable
  pub preferred_period : Sets patch.preferred_period old.preferred_period new.preferred_period
  pub client_request_id : new.client_request_id ≡ old.client_request_id

-- The next record of a task: valid, one version on, stamped, with the fields of the patch, and of
-- the same identity, owner, creation and recurrence.
pub record IsEdited (patch : TaskPatch) (now : Instant) (old new : TaskRecord) : Type 0 where
  pub current : old.version ≡ patch.expected_version
  pub valid : validate_record new ≡ true
  pub version : new.version ≡ old.version + 1
  pub stamped : new.updated_at ≡ now
  pub fields : IsUpdated patch old.created new.created
  pub status : Sets patch.status old.status new.status
  pub id : new.id ≡ old.id
  pub user_id : new.user_id ≡ old.user_id
  pub created_at : new.created_at ≡ old.created_at
  pub recurrence_id : new.recurrence_id ≡ old.recurrence_id
  pub occurrence_date : new.occurrence_date ≡ old.occurrence_date

set_value-Sets :
    {A : Type 0} (given : Given A) (old new : A) → set_value given old ≡ ok new → Sets given old new
unfolding set_value
set_value-Sets unset old new e = cc
set_value-Sets null old new e = cc
set_value-Sets (value a) old new e = cc

set_option-SetsOption :
    {A : Type 0} (given : Given A) (old : Option A) → SetsOption given old (set_option given old)
unfolding set_option
set_option-SetsOption unset old = refl
set_option-SetsOption null old = refl
set_option-SetsOption (value a) old = refl

update_created-IsUpdated :
    (patch : TaskPatch) (old new : TaskCreate)
    → update_created patch old ≡ ok new
    → IsUpdated patch old new
unfolding update_created
update_created-IsUpdated patch old new e =
    let (title, e1, r1) = returned (set_value patch.title old.title) _ e in
    let (description, e2, r2) = returned (set_value patch.description old.description) _ r1 in
    let (duration_minutes, e3, r3) =
      returned (set_value patch.duration_minutes old.duration_minutes) _ r2 in
    let (priority, e4, r4) = returned (set_value patch.priority old.priority) _ r3 in
    let (splittable, e5, r5) = returned (set_value patch.splittable old.splittable) _ r4 in
    let (preferred_period, e6, r6) =
      returned (set_value patch.preferred_period old.preferred_period) _ r5 in
    subst (IsUpdated patch old) (ok_injective r6) (record {
      earliest_start = set_option-SetsOption patch.earliest_start old.earliest_start;
      deadline = set_option-SetsOption patch.deadline old.deadline;
      title = set_value-Sets patch.title _ title e1;
      description = set_value-Sets patch.description _ description e2;
      duration_minutes = set_value-Sets patch.duration_minutes _ duration_minutes e3;
      priority = set_value-Sets patch.priority _ priority e4;
      splittable = set_value-Sets patch.splittable _ splittable e5;
      preferred_period = set_value-Sets patch.preferred_period _ preferred_period e6;
      client_request_id = refl;
    })

-- An edit that returns gives an edited record: it was made against the version that the task has,
-- it sets what the patch gives and leaves the rest, moves the version on by one, and is valid.
pub prepare_task_change-IsEdited :
    (old new : TaskRecord) (patch : TaskPatch) (now : Instant)
    → prepare_task_change old patch now ≡ ok new
    → IsEdited patch now old new
unfolding prepare_task_change
prepare_task_change-IsEdited old new patch now e =
    let (u, versions, e1) =
      returned (raise_if (not (old.version == patch.expected_version)) stale_task_version) _ e in
    let (created, updated, e2) = returned (update_created patch old.created) _ e1 in
    let (status, changed, e3) = returned (set_value patch.status old.status) _ e2 in
    let (v, checked, e4) = returned _ (λ _. ok (edited created status)) e3 in
    subst (IsEdited patch now old) (ok_injective e4) (record {
      current =
          ground (arith, raise_if-eq-ok (not (old.version == patch.expected_version)) _ u versions);
      valid =
          true_of_not _
            (raise_if-eq-ok (not (validate_record (edited created status))) _ v checked);
      version = refl;
      stamped = refl;
      fields = update_created-IsUpdated patch old.created created updated;
      status = set_value-Sets patch.status old.status status changed;
      id = refl;
      user_id = refl;
      created_at = refl;
      recurrence_id = refl;
      occurrence_date = refl;
    })
  where
    edited : TaskCreate → Status → TaskRecord
    edited created status = record old {
      created = created;
      status = status;
      version = old.version + 1;
      updated_at = now;
    }

-- Of two edits against the same version of a task, the one that comes after the other is refused as
-- stale, so it can not overwrite the first.
pub prepare_task_change_twice :
    (old new : TaskRecord) (patch later : TaskPatch) (now then : Instant)
    → prepare_task_change old patch now ≡ ok new
    → later.expected_version ≡ patch.expected_version
    → prepare_task_change new later then ≡ raise stale_task_version
unfolding prepare_task_change
prepare_task_change_twice old new patch later now then e same =
    let h = prepare_task_change-IsEdited old new patch now e in
    let differ : (new.version == later.expected_version) ≡ false =
      ground (arith, h.current, h.version, same) in
    rw differ refl

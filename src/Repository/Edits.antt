-- ===== src/Repository/Edits.antt =====
-- The edits of src/smartplanner/repository.py: reading what was written, and stale versions.
use planer.Prelude.{
  Option-cases, find_if-test, find_if, update_if, ℕ, ◌+◌, ◌≡◌, refl, sym, ap, ◌∙◌, subst, inl, inr,
  Bool, true, false, some, List, [], ◌∷◌, arith, Bool-cases, ◌==◌,
}
use planer.Errors.{Result, ok, raise, returned, ok_injective, not_found, stale_version}
use planer.Clock.{Instant}
use planer.Models.{TaskRecord, TaskPatch}
use planer.TaskChanges.{prepare_task_change}
use planer.TaskChanges.Edits.{IsEdited, prepare_task_change-IsEdited}
use planer.Repository.{
  TaskRow, validated, is_live, is_version_of, get_task, changed_row, catch_update, write_task,
  update_task,
}
use planer.Repository.Tasks.{validated_same}

-- The first live row of the identifier, before and after the update of its version.
find_if-update :
    (owner id version : ℕ) (change : TaskRow → TaskRow) (rows : List TaskRow) (row : TaskRow)
    → ((r : TaskRow) → is_live owner id r ≡ true → is_live owner id (change r) ≡ true)
    → find_if (is_live owner id) rows ≡ some row
    → row.task.version ≡ version
    → (find_if (is_version_of owner id version) rows ≡ some row)
      × (find_if (is_live owner id) (update_if (is_version_of owner id version) change rows)
          ≡ some (change row))
unfolding find_if update_if
find_if-update owner id version change [] row keeps e same = cc
find_if-update owner id version change (first ∷ rest) row keeps e same =
    elim (Bool-cases (is_live owner id first)) [
      | inl k ↦
          let is_row : some first ≡ some row = rw k at e in
          let here : first ≡ row = cc in
          let current : is_version_of owner id version first ≡ true =
            rw k (ground (arith, ap (λ (r : TaskRow). r.task.version) here, same)) in
          rw (current, keeps first k) (ap some here, ap (λ r. some (change r)) here)
      | inr k ↦
          let other : is_version_of owner id version first ≡ false = rw k refl in
          rw (other, k) (find_if-update owner id version change rest row keeps (rw k at e) same)
    ]

get_task-find_if :
    (owner id : ℕ) (rows : List TaskRow) (current : TaskRecord)
    → get_task owner id rows ≡ ok current
    → (row : TaskRow) × (find_if (is_live owner id) rows ≡ some row) × (row.task ≡ current)
unfolding get_task
get_task-find_if owner id rows current e = elim (Option-cases (find_if (is_live owner id) rows)) [
  | inl k ↦ absurd (refused (rw (k, get_task) at e))
  | inr (row, k) ↦ (row, k, validated_same row.task current (rw (k, get_task) at e))
]
  where
    refused : raise not_found ≡ ok current → ⊥
    refused h = cc

changed_row-live :
    (owner id : ℕ) (prepared : TaskRecord) (clock : Instant) (row : TaskRow)
    → is_live owner id row ≡ true
    → is_live owner id (changed_row prepared clock row) ≡ true
unfolding changed_row
changed_row-live owner id prepared clock row h = h

get_task-validated :
    (owner id : ℕ) (rows : List TaskRow) (row : TaskRow)
    → find_if (is_live owner id) rows ≡ some row
    → get_task owner id rows ≡ validated row.task
unfolding get_task
get_task-validated owner id rows row e = rw (e, get_task) refl

catch_update_ok {ℓ} : {A : Type ℓ} (m : Result A) (a : A) → catch_update m ≡ ok a → m ≡ ok a
catch_update_ok (ok b) a e = e
catch_update_ok (raise x) a e = cc

live_parts :
    (owner id : ℕ) (row : TaskRow)
    → is_live owner id row ≡ true
    → (row.task.id ≡ id) × (row.task.user_id ≡ owner)
live_parts owner id row h = (ground (arith, h), ground (arith, h))

update_task-stale :
    (owner id : ℕ) (patch : TaskPatch) (clock : Instant) (rows : List TaskRow)
    (current : TaskRecord)
    → get_task owner id rows ≡ ok current
    → (current.version == patch.expected_version) ≡ false
    → update_task owner id patch clock rows ≡ raise stale_version
unfolding update_task prepare_task_change
update_task-stale owner id patch clock rows current reads differ =
    rw (reads, update_task, prepare_task_change, differ) refl

write_task_lem :
    (selected : TaskRow → Bool) (prepared : TaskRecord) (clock : Instant)
    (rows rows' : List TaskRow) (row : TaskRow) (result : TaskRecord)
    → find_if selected rows ≡ some row
    → write_task selected prepared clock rows ≡ ok (result, rows')
    → (validated (changed_row prepared clock row).task ≡ ok result)
      × (rows' ≡ update_if selected (changed_row prepared clock) rows)
unfolding write_task
write_task_lem selected prepared clock rows rows' row result chosen e =
    let (r, valid, same) =
      returned (validated (changed_row prepared clock row).task)
        (λ r. ok (r, update_if selected (changed_row prepared clock) rows))
        (rw (chosen, write_task) at e) in
    let both = ok_injective same in
    (
      valid ∙ ap (λ (p : TaskRecord × List TaskRow). ok p.0) both,
      ap (λ (p : TaskRecord × List TaskRow). p.1) (sym both),
    )

-- What `update_task` has done when it returns.
record IsUpdate (owner id : ℕ) (patch : TaskPatch) (clock : Instant) (rows rows' : List TaskRow)
    (result : TaskRecord) : Type 0 where
  row : TaskRow
  prepared : TaskRecord
  found : find_if (is_live owner id) rows ≡ some row
  edited : IsEdited patch row.task.updated_at row.task prepared
  valid : validated (changed_row prepared clock row).task ≡ ok result
  table :
      rows'
      ≡ update_if (is_version_of owner id patch.expected_version) (changed_row prepared clock) rows

update_task-IsUpdate :
    (owner id : ℕ) (patch : TaskPatch) (clock : Instant) (rows rows' : List TaskRow)
    (result : TaskRecord)
    → update_task owner id patch clock rows ≡ ok (result, rows')
    → IsUpdate owner id patch clock rows rows' result
unfolding update_task
update_task-IsUpdate owner id patch clock rows rows' result e =
    let (current, got, e1) = returned (get_task owner id rows) _ e in
    let (row, found, is_current) = get_task-find_if owner id rows current got in
    let (prepared, made, e2) =
      returned (catch_update (prepare_task_change current patch current.updated_at)) _ e1 in
    let edited =
      prepare_task_change-IsEdited current prepared patch current.updated_at
        (catch_update_ok _ _ made) in
    let live = find_if-test (is_live owner id) rows row found in
    let (own_id, own_user) = live_parts owner id row live in
    let id_is : prepared.id ≡ id =
      edited.id ∙ ap (λ (t : TaskRecord). t.id) (sym is_current) ∙ own_id in
    let owner_is : prepared.user_id ≡ owner =
      edited.user_id ∙ ap (λ (t : TaskRecord). t.user_id) (sym is_current) ∙ own_user in
    let chosen =
      (find_if-update owner id patch.expected_version (changed_row prepared clock) rows row
        (changed_row-live owner id prepared clock) found
        (ap (λ (t : TaskRecord). t.version) is_current ∙ edited.current)).0 in
    let written =
      write_task_lem (is_version_of owner id patch.expected_version) prepared clock rows rows' row
        result chosen
        (subst
          (λ (p : ℕ × ℕ).
            write_task (is_version_of p.0 p.1 patch.expected_version) prepared clock rows
            ≡ ok (result, rows'))
          (λ i. (owner_is i, id_is i)) e2) in
    record {
      row = row;
      prepared = prepared;
      found = found;
      edited =
          subst (λ (t : TaskRecord). IsEdited patch t.updated_at t prepared) (sym is_current)
            edited;
      valid = written.0;
      table = written.1;
    }

-- After an edit by its owner, the task reads as the record that the edit returned, whose version is
-- the next one; and whoever edits the task against the old version after that is refused as stale.
pub update_task_lem :
    (owner id : ℕ) (patch later : TaskPatch) (clock clock' : Instant) (rows rows' : List TaskRow)
    (result : TaskRecord)
    → update_task owner id patch clock rows ≡ ok (result, rows')
    → later.expected_version ≡ patch.expected_version
    → (get_task owner id rows' ≡ ok result)
      × (result.version ≡ patch.expected_version + 1)
      × (update_task owner id later clock' rows' ≡ raise stale_version)
update_task_lem owner id patch later clock clock' rows rows' result e same =
    let h = update_task-IsUpdate owner id patch clock rows rows' result e in
    let after =
      (find_if-update owner id patch.expected_version (changed_row h.prepared clock) rows h.row
        (changed_row-live owner id h.prepared clock) h.found h.edited.current).1 in
    let reads : get_task owner id rows' ≡ ok result =
      ap (get_task owner id) h.table
      ∙ get_task-validated owner id _ (changed_row h.prepared clock h.row) after
      ∙ h.valid in
    let is_result = validated_same _ result h.valid in
    let version : result.version ≡ patch.expected_version + 1 =
      ap (λ (t : TaskRecord). t.version) (sym is_result)
      ∙ next_version h.prepared clock h.row
      ∙ ap (λ n. n + 1) h.edited.current in
    (reads, version, stale result reads version)
  where
    next_version :
        (prepared : TaskRecord) (clock : Instant) (row : TaskRow)
        → (changed_row prepared clock row).task.version ≡ row.task.version + 1
    next_version prepared clock row = unfold changed_row in refl

    stale :
        (result : TaskRecord)
        → get_task owner id rows' ≡ ok result
        → result.version ≡ patch.expected_version + 1
        → update_task owner id later clock' rows' ≡ raise stale_version
    stale result reads version =
        update_task-stale owner id later clock' rows' result reads (ground (arith, version, same))

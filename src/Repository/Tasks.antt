-- ===== src/Repository/Tasks.antt =====
-- The tasks of src/smartplanner/repository.py: retries of a creation.
use planer.Prelude.{
  Option-cases, find_if-append, find_if, ℕ, ◌≡◌, refl, subst, inl, inr, Bool, true, false, not,
  none, List, [], ◌∷◌, ◌++◌, arith, ◌==◌,
}
use planer.Errors.{ok, raise_if, returned, ok_injective}
use planer.Clock.{Instant}
use planer.Models.{TaskCreate, TaskRecord, validate_record}
use planer.Repository.{TaskRow, validated, is_request, new_row, create_task}

pub validated_same : (task result : TaskRecord) → validated task ≡ ok result → task ≡ result
unfolding validated
validated_same task result e =
    let (u, checked, e') = returned (raise_if (not (validate_record task)) _) (λ _. ok task) e in
    ok_injective e'

replay :
    (digest : TaskCreate → ℕ) (owner : ℕ) (task : TaskCreate) (id : ℕ) (now : Instant)
    (rows : List TaskRow) (made : TaskRow) (r : TaskRecord)
    → find_if (is_request owner task.client_request_id) rows ≡ none
    → is_request owner task.client_request_id made ≡ true
    → (made.creation_digest == digest task) ≡ true
    → made.deleted ≡ false
    → validated made.task ≡ ok r
    → create_task digest owner task id now (rows ++ made ∷ []) ≡ ok ((r, true), rows ++ made ∷ [])
unfolding create_task
replay digest owner task id now rows made r fresh mine same alive valid =
    rw
      (
        find_if-append (is_request owner task.client_request_id) rows made fresh mine,
        create_task,
        same,
        alive,
        valid,
      )
      refl

abbrev SamePair : (TaskRecord × Bool) × List TaskRow → (TaskRecord × Bool) × List TaskRow → Type 0
SamePair a b = a ≡ b

-- A creation that made a row may be sent again, with the same task by the same user: whatever new
-- identifier and clock the second call has, it returns the record of the first, marks it as
-- replayed, and leaves the table as it is.
pub create_task_again :
    (digest : TaskCreate → ℕ) (owner : ℕ) (task : TaskCreate) (id id' : ℕ) (now now' : Instant)
    (rows rows' : List TaskRow) (result : TaskRecord)
    → create_task digest owner task id now rows ≡ ok ((result, false), rows')
    → create_task digest owner task id' now' rows' ≡ ok ((result, true), rows')
unfolding create_task
create_task_again digest owner task id id' now now' rows rows' result e =
    let test = is_request owner task.client_request_id in
    let made = new_row digest owner task id now in
    elim (Option-cases (find_if test rows)) [
      | inl fresh ↦
          let (record_made, valid, same) =
            returned (validated made.task) (λ r. ok ((r, false), rows ++ made ∷ []))
              (rw (fresh, create_task) at e) in
          subst
            (λ (p : (TaskRecord × Bool) × List TaskRow).
              create_task digest owner task id' now' p.1 ≡ ok ((p.0.0, true), p.1))
            (ok_injective same)
            (replay digest owner task id' now' rows made record_made fresh own_request own_digest
              own_life valid)
      | inr (existing, known) ↦
          let (u, p, e1) =
            returned (raise_if (not (existing.creation_digest == digest task)) _) _
              (rw (known, create_task) at e) in
          let (v, q, e2) = returned (raise_if existing.deleted _) _ e1 in
          let (r, valid, same) =
            returned (validated existing.task) (λ r. ok ((r, true), rows)) e2 in
          absurd (replayed (ok_injective same))
    ]
  where
    replayed : {r : TaskRecord} → SamePair ((r, true), rows) ((result, false), rows') → ⊥
    replayed h = cc

    own_request : is_request owner task.client_request_id (new_row digest owner task id now) ≡ true
    own_request = unfold new_row in ground arith

    own_digest : ((new_row digest owner task id now).creation_digest == digest task) ≡ true
    own_digest = unfold new_row in ground arith

    own_life : (new_row digest owner task id now).deleted ≡ false
    own_life = unfold new_row in refl

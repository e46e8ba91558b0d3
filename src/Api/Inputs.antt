-- ===== src/Api/Inputs.antt =====
-- What the handler of previews reads: the tasks that a request names, and the stored events of its
-- horizon.
use planer.Prelude.{
  ℕ, zero, suc, ◌≡◌, ◌≤◌, refl, sym, ap, ◌∙◌, subst, true, false, not, ◌&&◌, List, [], ◌∷◌, map,
  take, length, arith, filter_if, sort_by, contains, any_of-Any, ltb, ◌==◌, ==_iff, All, All-imp,
  All-both, All-map, All-unmap, All-sort_by, All-unsort_by, All-filter_if, All-filter_test,
  All-unfilter_if, All-In, In, Any, Any-imp, length-sort_by, length-map,
}
use planer.Errors.{ok, raise_if, returned, ok_injective, validation_error}
use planer.Clock.{Instant}
use planer.Models.{TaskRecord, validate_record}
use planer.Planning.{TimeWindow, FixedEvent}
use planer.Repository.{TaskRow, validated, validated_all, planning_tasks}
use planer.FixedEvents.{
  FixedEventRecord, EventRow, validate_event, event_record, event_records, starts_before,
  matching_events, list_events, planning_events,
}
use planer.Scheduler.Sound.Instants.{Apart}
use planer.Api.{stored_event}

-- A task of the owner that is not deleted, and that the request names.
abbrev pub IsOwnTask : ℕ → List ℕ → List TaskRow → TaskRecord → Type 0
IsOwnTask owner ids rows task =
    Any
      (λ (row : TaskRow).
        (row.task ≡ task) × (row.deleted ≡ false) × (row.task.user_id ≡ owner) × In ids row.task.id)
      rows

validated_all-map :
    (rows : List TaskRow) (tasks : List TaskRecord)
    → validated_all rows ≡ ok tasks
    → tasks ≡ map (λ (row : TaskRow). row.task) rows
unfolding validated_all validated
validated_all-map [] tasks e = sym (ok_injective e)
validated_all-map (row ∷ rest) tasks e =
    let (task, valid, e1) = returned (validated row.task) _ e in
    let (u, passed, same) =
      returned (raise_if (not (validate_record row.task)) validation_error) (λ _. ok row.task)
        valid in
    let (others, read, e2) = returned (validated_all rest) (λ others. ok (task ∷ others)) e1 in
    let here : task ≡ row.task = sym (ok_injective same) in
    let there = validated_all-map rest others read in
    sym (ok_injective e2) ∙ joined task others here there
  where
    joined :
        (task : TaskRecord) (others : List TaskRecord)
        → task ≡ row.task
        → others ≡ map (λ (row : TaskRow). row.task) rest
        → task ∷ others ≡ row.task ∷ map (λ (row : TaskRow). row.task) rest
    joined task others h k = cc

pub planning_tasks-IsOwnTask :
    (owner : ℕ) (ids : List ℕ) (rows : List TaskRow) (tasks : List TaskRecord)
    → planning_tasks owner ids rows ≡ ok tasks
    → All (IsOwnTask owner ids rows) tasks
unfolding planning_tasks contains
planning_tasks-IsOwnTask owner ids rows tasks e =
    let test = (λ (row : TaskRow).
      row.task.user_id == owner && contains row.task.id ids && not row.deleted) in
    let kept = filter_if test rows in
    let before = (λ (a b : TaskRow). ltb a.task.id b.task.id) in
    let (u, found, e1) = returned (raise_if _ _) (λ _. validated_all (sort_by before kept)) e in
    subst (All (IsOwnTask owner ids rows)) (sym (validated_all-map (sort_by before kept) tasks e1))
      (All-map (IsOwnTask owner ids rows) (λ (row : TaskRow). row.task) (sort_by before kept)
        (All-sort_by (λ row. IsOwnTask owner ids rows row.task) before kept
          (All-both (In rows) (λ row. test row ≡ true) (λ row. IsOwnTask owner ids rows row.task)
            own_task kept (All-filter_if (In rows) test rows (All-In rows))
            (All-filter_test test rows))))
  where
    own_task :
        (row : TaskRow)
        → In rows row
        → (row.task.user_id == owner && contains row.task.id ids && not row.deleted) ≡ true
        → IsOwnTask owner ids rows row.task
    own_task row member passed =
        let named : contains row.task.id ids ≡ true = ground arith in
        let listed : In ids row.task.id =
          Any-imp (λ x. (x == row.task.id) ≡ true) (λ x. x ≡ row.task.id)
            (λ x k. (==_iff x row.task.id).0 k) ids
            ((any_of-Any (λ x. x == row.task.id) ids).0 named) in
        let kept : row.deleted ≡ false = ground arith in
        let owned : row.task.user_id ≡ owner = ground arith in
        Any-imp (λ r. r ≡ row)
          (λ (r : TaskRow).
            (r.task ≡ row.task) × (r.deleted ≡ false) × (r.task.user_id ≡ owner) × In ids r.task.id)
          (λ r same.
            subst
              (λ (r : TaskRow).
                (r.task ≡ row.task)
                × (r.deleted ≡ false)
                × (r.task.user_id ≡ owner)
                × In ids r.task.id)
              (sym same) (refl, kept, owned, listed))
          rows member

abbrev pub event_window : EventRow → TimeWindow
event_window row = record { start = row.entry.event.start; end = row.entry.event.end }

-- The events of an owner that take time between two instants.
abbrev pub events_between : ℕ → Instant → Instant → List EventRow → List EventRow
events_between owner start end rows =
    filter_if
      (λ (row : EventRow).
        row.user_id == owner && ltb start row.entry.event.end && ltb row.entry.event.start end)
      rows

event_records-map :
    (rows : List EventRow) (events : List FixedEventRecord)
    → event_records rows ≡ ok events
    → events ≡ map (λ (row : EventRow). row.entry) rows
unfolding event_records event_record
event_records-map [] events e = sym (ok_injective e)
event_records-map (row ∷ rest) events e =
    let (first, read, e1) = returned (event_record row) _ e in
    let (u, passed, same) =
      returned (raise_if (not (validate_event row.entry.event)) validation_error)
        (λ _. ok row.entry) read in
    let (others, read_others, e2) =
      returned (event_records rest) (λ others. ok (first ∷ others)) e1 in
    sym (ok_injective e2)
    ∙ joined first others (sym (ok_injective same)) (event_records-map rest others read_others)
  where
    joined :
        (first : FixedEventRecord) (others : List FixedEventRecord)
        → first ≡ row.entry
        → others ≡ map (λ (row : EventRow). row.entry) rest
        → first ∷ others ≡ row.entry ∷ map (λ (row : EventRow). row.entry) rest
    joined first others h k = cc

take-all {ℓ} : {A : Type ℓ} (n : ℕ) (xs : List A) → length xs ≤ n → take n xs ≡ xs
take-all zero [] h = refl
take-all (suc n) [] h = refl
take-all zero (x ∷ xs) h = absurd (omega (arith, h))
take-all (suc n) (x ∷ xs) h = ap (λ ys. x ∷ ys) (take-all n xs (omega (arith, h)))

-- Where they are no more than 100, the handler reads them all.
planning_events-all :
    (owner : ℕ) (start end : Instant) (rows : List EventRow) (stored : List FixedEventRecord)
    → length (events_between owner start end rows) ≤ 100
    → planning_events owner start end rows ≡ ok stored
    → stored
      ≡ map
          (λ (row : EventRow). row.entry)
          (sort_by starts_before (events_between owner start end rows))
unfolding planning_events list_events matching_events
planning_events-all owner start end rows stored few e =
    let page = sort_by starts_before (events_between owner start end rows) in
    event_records-map (take 100 page) stored e
    ∙ ap (map (λ (row : EventRow). row.entry)) (
        take-all 100 page
          (fits (length-sort_by starts_before (events_between owner start end rows)) few))
  where
    fits : {n m : ℕ} → n ≡ m → m ≤ 100 → n ≤ 100
    fits h k = omega arith

-- Where they are no more than 100, what is clear of the events that the handler reads, and lies
-- between the two instants, is clear of every event of the owner.
pub planning_events-clear :
    (owner : ℕ) (start end : Instant) (rows : List EventRow) (stored : List FixedEventRecord)
    (window : TimeWindow)
    → length (events_between owner start end rows) ≤ 100
    → planning_events owner start end rows ≡ ok stored
    → start ≤ window.start
    → window.end ≤ end
    → All (λ (event : FixedEvent). Apart event.window window) (map stored_event stored)
    → All (λ (row : EventRow). row.user_id ≡ owner → Apart (event_window row) window) rows
planning_events-clear owner start end rows stored window few e after before clear =
    let between = (λ (row : EventRow).
      row.user_id == owner && ltb start row.entry.event.end && ltb row.entry.event.start end) in
    let kept = events_between owner start end rows in
    let read =
      All-unmap (λ (event : FixedEventRecord). Apart (stored_event event).window window)
        (λ (row : EventRow). row.entry) (sort_by starts_before kept)
        (subst (All (λ (event : FixedEventRecord). Apart (stored_event event).window window))
          (planning_events-all owner start end rows stored few e)
          (All-unmap (λ (event : FixedEvent). Apart event.window window) stored_event stored
            clear)) in
    All-imp (λ row. between row ≡ true → Apart (event_window row) window)
      (λ (row : EventRow). row.user_id ≡ owner → Apart (event_window row) window)
      (λ row h owned. ground arith) rows
      (All-unfilter_if (λ row. Apart (event_window row) window) between rows
        (All-unsort_by (λ row. Apart (event_window row) window) starts_before kept read))

-- and as many are read.
pub planning_events-length :
    (owner : ℕ) (start end : Instant) (rows : List EventRow) (stored : List FixedEventRecord)
    → length (events_between owner start end rows) ≤ 100
    → planning_events owner start end rows ≡ ok stored
    → length (map stored_event stored) ≡ length (events_between owner start end rows)
planning_events-length owner start end rows stored few e =
    let kept = events_between owner start end rows in
    length-map stored_event stored
    ∙ ap length (planning_events-all owner start end rows stored few e)
    ∙ length-map (λ (row : EventRow). row.entry) (sort_by starts_before kept)
    ∙ length-sort_by starts_before kept
